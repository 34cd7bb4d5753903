-- ===== src/Cache/Parser.antt =====
-- `ServerBiz::parser` (injectService/pull/src/app/serverBiz.cpp): a record of the cache, read into a
-- `process_info` field by field. What was assigned before an exception stays assigned.
use pull_stream.Base.{Text, bytes, none, some}
use pull_stream.Common.{ErrorCode, error_ok, json_parser, json_parser_exception, ProcessInfo}
use pull_stream.External.{parse, External, Except, value, throws}
use pull_stream.Json.{string_at, int_at}

module _ ⦃x : External⦄ where
  open x use {Json}

  -- One assignment to a field, from a call that may throw.
  abbrev assign :
      {A : Type 0}
      → Except A
      → (ProcessInfo → A → ProcessInfo)
      → (ProcessInfo → ErrorCode × ProcessInfo)
      → ProcessInfo
      → ErrorCode × ProcessInfo
  assign (value v) put rest info = rest (put info v)
  assign (throws what) put rest info = (json_parser_exception, info)

  unfoldable pub read_fields : Json → ProcessInfo → ErrorCode × ProcessInfo
  read_fields root =
      assign (string_at root (bytes "src_url")) (λ i v. record i { src_url = v })
        (assign (string_at root (bytes "dest_url")) (λ i v. record i { dest_url = v })
          (assign (string_at root (bytes "sid")) (λ i v. record i { sid = v })
            (assign (int_at root (bytes "type")) (λ i v. record i { type = v })
              (assign (string_at root (bytes "status")) (λ i v. record i { status = v })
                (assign (string_at root (bytes "host")) (λ i v. record i { host = v })
                  (assign (int_at root (bytes "pid")) (λ i v. record i { pid = v })
                    (assign (int_at root (bytes "ppid")) (λ i v. record i { ppid = v })
                      (λ i. (error_ok, i)))))))))

  unfoldable pub parser : Text → ProcessInfo → ErrorCode × ProcessInfo
  unfolding read_fields
  parser item info = elim (parse item) [
    | none ↦ (json_parser, info)
    | some root ↦ read_fields root info
  ]
