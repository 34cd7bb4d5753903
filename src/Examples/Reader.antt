-- ===== src/Examples/Reader.antt =====
-- A printer of documents and a reader of its output that meet `JsonLaws`. A text is printed as its
-- bytes, each one more, and a null; numbers have a mark before them.
use pull_stream.Base.{
  ℕ, zero, suc, ℤ, pos, negsuc, List, [], ◌∷◌, ◌++◌, ◌≡◌, refl, ap, ◌∙◌, Option, none, some, Text,
  text_eq, bytes, c_str, append_assoc, append-nil, Bool-cases, inl, inr,
}
use pull_stream.Bson.{Bson, utf8, int32, document, Doc, nil, field, doc_get}
use pull_stream.External.{Except, value, throws}

print_text : Text → Text → Text
print_text [] rest = 0 ∷ rest
print_text (c ∷ t) rest = suc c ∷ print_text t rest

-- A document under a key is printed as an empty text.
abbrev print_value : Bson → Text → Text
print_value (utf8 t) rest = 0 ∷ print_text t rest
print_value (int32 (pos n)) rest = 1 ∷ print_text (n ∷ []) rest
print_value (int32 (negsuc n)) rest = 2 ∷ print_text (n ∷ []) rest
print_value (document d) rest = 0 ∷ print_text [] rest

unfoldable pub print : Doc → Text
unfolding print_text
print nil = []
print (field k v d) = print_text k (print_value v (print d))

abbrev first_or_zero : List ℕ → ℕ
first_or_zero [] = 0
first_or_zero (n ∷ ns) = n

abbrev make_value : ℕ → Text → Bson
make_value zero t = utf8 t
make_value (suc zero) t = int32 (pos (first_or_zero t))
make_value (suc (suc _)) t = int32 (negsuc (first_or_zero t))

-- Where the reader is: in a key, at a mark, in a value.
pub data Place : Type 0 where
  in_key : Text → Place
  at_mark : Text → Place
  in_value : Text → ℕ → Text → Place

unfoldable pub read : Place → Text → Doc
read p [] = nil
read (in_key k) (zero ∷ s) = read (at_mark k) s
read (in_key k) (suc c ∷ s) = read (in_key (k ++ (c ∷ []))) s
read (at_mark k) (m ∷ s) = read (in_value k m []) s
read (in_value k m t) (zero ∷ s) = field k (make_value m t) (read (in_key []) s)
read (in_value k m t) (suc c ∷ s) = read (in_value k m (t ++ (c ∷ []))) s

read_key :
    (k acc rest : Text) → read (in_key acc) (print_text k rest) ≡ read (at_mark (acc ++ k)) rest
unfolding read print_text
read_key [] acc rest = rw append-nil
read_key (c ∷ k) acc rest = read_key k (acc ++ (c ∷ [])) rest ∙ rw append_assoc

read_value :
    (k t acc rest : Text) (m : ℕ)
    → read (in_value k m acc) (print_text t rest)
      ≡ field k (make_value m (acc ++ t)) (read (in_key []) rest)
unfolding read print_text
read_value k [] acc rest m = rw append-nil
read_value k (c ∷ t) acc rest m = read_value k t (acc ++ (c ∷ [])) rest m ∙ rw append_assoc

-- What is left of a document: nested ones are lost.
abbrev pub flat_value : Bson → Bson
flat_value (document d) = utf8 []
flat_value v = v

abbrev pub flat : Doc → Doc
flat nil = nil
flat (field k v d) = field k (flat_value v) (flat d)

read-print_value :
    (k : Text) (v : Bson) (rest : Text)
    → read (at_mark k) (print_value v rest) ≡ field k (flat_value v) (read (in_key []) rest)
unfolding read
read-print_value k (utf8 t) rest = read_value k t [] rest 0
read-print_value k (int32 (pos n)) rest = read_value k (n ∷ []) [] rest 1
read-print_value k (int32 (negsuc n)) rest = read_value k (n ∷ []) [] rest 2
read-print_value k (document d) rest = read_value k [] [] rest 0

pub read-print : (d : Doc) → read (in_key []) (print d) ≡ flat d
unfolding read print
read-print nil = refl
read-print (field k v d) =
    read_key k [] (print_value v (print d))
    ∙ read-print_value k v (print d)
    ∙ ap (λ (rest : Doc). field k (flat_value v) rest) (read-print d)

pub data Node : Type 0 where
  object : Doc → Node
  leaf : Option Bson → Node

unfoldable pub parse_node : Text → Option Node
unfolding read
parse_node t = some (object (read (in_key []) t))

pub parse_node-print : (d : Doc) → parse_node (print d) ≡ some (object (flat d))
unfolding parse_node
parse_node-print d = ap (λ (e : Doc). some (object e)) (read-print d)

unfoldable pub member_node : Node → Text → Except Node
member_node (object d) k = value (leaf (doc_get d k))
member_node (leaf o) k = throws (bytes "not an object")

unfoldable pub text_of : Node → Except Text
text_of (leaf (some (utf8 t))) = value t
text_of (leaf none) = value []
text_of _ = throws (bytes "not a string")

unfoldable pub int_of : Node → Except ℤ
int_of (leaf (some (int32 n))) = value n
int_of (leaf none) = value (pos 0)
int_of _ = throws (bytes "not an int")

pub doc_get-flat :
    (d : Doc) (k : Text)
    → doc_get (flat d) k ≡ elim (doc_get d k) [ none ↦ none | some v ↦ some (flat_value v) ]
unfolding doc_get
doc_get-flat nil k = refl
doc_get-flat (field j v d) k = elim (Bool-cases (text_eq j k)) [
  | inl here ↦ rw here
  | inr there ↦ rw there (doc_get-flat d k)
]

-- The print without null bytes: each byte one more again.
unfoldable pub shifted : Text → Text
shifted [] = []
shifted (c ∷ s) = suc c ∷ shifted s

unfoldable pub unshifted : Text → Text
unshifted [] = []
unshifted (zero ∷ s) = zero ∷ unshifted s
unshifted (suc c ∷ s) = c ∷ unshifted s

abbrev pub printed : Doc → Text
printed d = shifted (print d)

abbrev pub parse_printed : Text → Option Node
parse_printed t = parse_node (unshifted t)

c_str-shifted : (s : Text) → c_str (shifted s) ≡ shifted s
unfolding c_str shifted
c_str-shifted [] = refl
c_str-shifted (c ∷ s) = ap (λ (t : Text). suc c ∷ t) (c_str-shifted s)

unshifted-shifted : (s : Text) → unshifted (shifted s) ≡ s
unfolding unshifted shifted
unshifted-shifted [] = refl
unshifted-shifted (c ∷ s) = ap (λ (t : Text). c ∷ t) (unshifted-shifted s)

pub parse_printed-printed :
    (d : Doc) → parse_printed (c_str (c_str (printed d))) ≡ some (object (flat d))
parse_printed-printed d =
    rw (c_str-shifted (print d), c_str-shifted (print d), unshifted-shifted (print d))
      (parse_node-print d)

pub parse_printed-body : (d : Doc) → parse_printed (c_str (printed d)) ≡ some (object (flat d))
parse_printed-body d =
    rw (c_str-shifted (print d), unshifted-shifted (print d)) (parse_node-print d)
