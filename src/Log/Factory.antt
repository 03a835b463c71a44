-- ===== src/Log/Factory.antt =====
-- `LoggerFactory` of include/log/Log.hpp: how it reads the text that describes the lines of a log.
use high_speed.Prelude.{
  ◌≡◌, inl, inr, refl, ap, ◌∙◌, Bool, true, false, ◌||◌, List, [], ◌∷◌, ◌++◌, Option, none, some,
  ◌==◌, ==→eq, if◌then◌else◌, codes, Bytes, Bool-cases, arith,
}
use high_speed.Log.{LogLevel}

-- The members of `LogFormat`, which are views of texts.
pub record LogFormat : Type 0 where
  pub level : Bytes
  pub time : Bytes
  pub file : Bytes
  pub line : Bytes
  pub message : Bytes

abbrev pub no_format : LogFormat
no_format = record { level = []; time = []; file = []; line = []; message = [] }

abbrev pub k_log_format : Bytes
k_log_format = codes "[{level}]:[{time}]:[{file}]:[{line}]:[{message}]"

-- `std::stringstream ss(format.data())`, which reads up to a byte 0.
unfoldable pub c_string : Bytes → Bytes
c_string [] = []
c_string (c ∷ cs) = if c == 0 then [] else c ∷ c_string cs

-- `std::getline(ss, token, ',')`, again and again, from what the token has so far.
unfoldable pub tokens : Bytes → Bytes → List Bytes
tokens [] [] = []
tokens (t ∷ token) [] = (t ∷ token) ∷ []
tokens token (c ∷ cs) =
    let next = tokens [] cs in
    let longer = tokens (token ++ c ∷ []) cs in if c == b',' then token ∷ next else longer

abbrev pub has_equals : Bytes → Bool
has_equals [] = false
has_equals (c ∷ cs) = (c == b'=') || has_equals cs

-- The loop. With a `=` in the token, `key` and `value` are views of texts that are gone, and `key` is read:
-- that is undefined, `none`.
unfoldable pub read_tokens : List Bytes → LogFormat → Option LogFormat
read_tokens [] f = some f
read_tokens (t ∷ ts) f = let rest = read_tokens ts f in if has_equals t then none else rest

-- `createLogger`: what the logger holds, its format and its level.
unfoldable pub make_shared : LogLevel → Option LogFormat → Option (LogFormat × LogLevel)
make_shared min_level none = none
make_shared min_level (some f) = some (f, min_level)

unfoldable pub create_logger : Bytes → LogLevel → Option (LogFormat × LogLevel)
create_logger format min_level =
    make_shared min_level (read_tokens (tokens [] (c_string format)) no_format)

has_equals-append : (xs ys : Bytes) → has_equals (xs ++ ys) ≡ (has_equals xs || has_equals ys)
has_equals-append [] ys = refl
has_equals-append (x ∷ xs) ys = ground (arith, has_equals-append xs ys)

-- The tokens have a `=` between them just if the text has one.
read_tokens-tokens :
    (token bs : Bytes) (f : LogFormat)
    → read_tokens (tokens token bs) f ≡ (if has_equals token || has_equals bs then none else some f)
unfolding read_tokens tokens
read_tokens-tokens [] [] f = refl
read_tokens-tokens (t ∷ token) [] f = ground arith
read_tokens-tokens token (c ∷ cs) f = elim (Bool-cases (c == b',')) [
  | inl e ↦
      let at : c ≡ b',' = ==→eq c b',' e in
      rw (at, read_tokens-tokens [] cs f) (either (has_equals token) (has_equals cs) none (some f))
  | inr e ↦
      rw (e, read_tokens-tokens (token ++ c ∷ []) cs f, has_equals-append token (c ∷ []))
        (ap (λ b. if b then none else some f)
          (all_three (has_equals token) (c == b'=') (has_equals cs)))
]
  where
    either :
        {A : Type 0} (x y : Bool) (a b : A)
        → (if x then a else if y then a else b) ≡ (if x || y then a else b)
    either true y a b = refl
    either false y a b = refl

    all_three : (x y z : Bool) → ((x || (y || false)) || z) ≡ (x || (y || z))
    all_three x y z = ground arith

-- `createLogger` is undefined for a text with a `=` before any byte 0, which is what it looks for; for
-- every other text, the default one included, the logger's format has empty parts, whatever the text is.
pub create_logger_lem :
    (format : Bytes) (min_level : LogLevel)
    → create_logger format min_level
      ≡ (if has_equals (c_string format) then none else some (no_format, min_level))
unfolding create_logger make_shared
create_logger_lem format min_level =
    ap (make_shared min_level) (read_tokens-tokens [] (c_string format) no_format)
    ∙ made (has_equals (c_string format))
  where
    made :
        (b : Bool)
        → make_shared min_level (if b then none else some no_format)
          ≡ (if b then none else some (no_format, min_level))
    made b = elim (Bool-cases b) [ inl e ↦ rw e refl | inr e ↦ rw e refl ]
