-- ===== src/RestApi/Replies.antt =====
-- What the handlers send: the arguments of `evhttp_send_reply` and the text in the buffer.
use pull_stream.Base.{ℕ, String, Text, bytes, decimal, ◌++◌}

pub record Reply : Type 0 where
  pub code : ℕ
  pub reason : Text
  pub body : Text

-- `{"ret":` ret `,"msg":"` msg `"}`
unfoldable pub output : ℕ → Text → Text
output ret msg = bytes "{\"ret\":" ++ (decimal ret ++ (bytes ",\"msg\":\"" ++ (msg ++ bytes "\"}")))

abbrev pub success_reply : String → Reply
success_reply msg = record { code = 200; reason = bytes "OK"; body = output 0 (bytes msg) }

-- `what` is a C string; the reason is the text `%s` itself.
abbrev pub exception_reply : Text → Reply
exception_reply what = record { code = 403; reason = bytes "%s"; body = output 403 what }

-- At these labels `ret` is still 0.
abbrev pub input_no_match_reply : Reply
input_no_match_reply = record {
  code = 400;
  reason = bytes "paramter not match";
  body = output 0 (bytes "input not match");
}

abbrev pub translate_type_unsupport_reply : Reply
translate_type_unsupport_reply = record {
  code = 400;
  reason = bytes "paramter not match";
  body = output 0 (bytes "translate type unsupport");
}

abbrev pub stream_exist_reply : ℕ → Reply
stream_exist_reply ret = record {
  code = 403;
  reason = bytes "stream exist";
  body = output ret (bytes "stream exist");
}

-- The HTTP code and the number in the body differ from handler to handler.
abbrev pub body_null_reply : ℕ → ℕ → Reply
body_null_reply code ret = record {
  code = code;
  reason = bytes "http body null";
  body = output ret (bytes "http post body null");
}
