-- ===== src/Parser/Versions.antt =====
-- src/parser.c: `_parse_value` changes the parser only by fixing a version that it allows.
use ckdl.Prelude.{
  Bool, true, false, not, ◌&&◌, ◌||◌, ◌≡◌, refl, arith, Option, none, some, if◌then◌else◌, Bytes,
  codes, bytes_eq,
}
use ckdl.Number.{Floats}
use ckdl.Str.UnescapeV1.{unescape_v1}
use ckdl.Str.UnescapeV2.{unescape_v2_single_line}
use ckdl.Tokenizer.{
  TokenType, word, string, raw_string_v1, raw_string_v2, raw_multiline_string, Token,
}
use ckdl.Parser.{Version, version_1, version_2, ParseOption, v2_only, Value, Parser, set_version}
use ckdl.Parser.Words.{
  WordForm, number_form, almost_number, identifier_form, word_form, identifier_is_valid_v1,
  identifier_is_valid_v2, in_version, Parsed, choose_string, parse_identifier, parse_form,
  parse_word, parse_value_of, parse_value,
}

abbrev pub allows : Version → ParseOption → Bool
allows version_1 opt = opt.read_version_1
allows version_2 opt = opt.read_version_2

module _ {D : Type 0} where
  -- A result with the same parser, or with the parser whose version is fixed to one that it allows.
  pub data Versioned (p : Parser D) : Option (Value D) × Parser D → Type 0 where
    same : {x : Option (Value D)} → Versioned p (x, p)
    fixed :
        {x : Option (Value D)} (v : Version)
        → allows v p.opt ≡ true
        → Versioned p (x, set_version v p)

and_left : (b c : Bool) → (b && c) ≡ true → b ≡ true
and_left b c e = ground arith

and_left₂ : (b c d : Bool) → (b && c && d) ≡ true → b ≡ true
and_left₂ b c d e = ground arith

module _ (F : Floats) where
  open F use {Double}

  if-Versioned :
      (b : Bool) (p : Parser Double) (x y : Parsed F)
      → (b ≡ true → Versioned p x)
      → (b ≡ false → Versioned p y)
      → Versioned p (if b then x else y)
  if-Versioned true p x y h k = h refl
  if-Versioned false p x y h k = k refl

  choose_string-Versioned :
      (b c : Bool) (s s' : Option Bytes) (p : Parser Double)
      → p.opt.read_version_1 ≡ b
      → p.opt.read_version_2 ≡ c
      → Versioned p (choose_string F (if b then s else none) (if c then s' else none) p)
  unfolding choose_string
  choose_string-Versioned false false s s' p e d = same
  choose_string-Versioned false true s none p e d = same
  choose_string-Versioned false true s (some y) p e d = fixed version_2 d
  choose_string-Versioned true false none s' p e d = same
  choose_string-Versioned true false (some x) s' p e d = fixed version_1 e
  choose_string-Versioned true true none none p e d = same
  choose_string-Versioned true true none (some y) p e d = fixed version_2 d
  choose_string-Versioned true true (some x) none p e d = fixed version_1 e
  choose_string-Versioned true true (some x) (some y) p e d = same

  parse_identifier-Versioned :
      (s : Bytes) (p : Parser Double) → Versioned p (parse_identifier F s p)
  unfolding parse_identifier
  parse_identifier-Versioned s p =
      let is_v1 = p.opt.read_version_1 && identifier_is_valid_v1 s in
      let is_v2 = p.opt.read_version_2 && identifier_is_valid_v2 s in
      if-Versioned (is_v1 && not is_v2) p _ _
        (λ e. fixed version_1 (and_left _ _ (and_left is_v1 (not is_v2) e)))
        λ _.
          if-Versioned (is_v2 && not is_v1) p _ _
            (λ e. fixed version_2 (and_left _ _ (and_left is_v2 (not is_v1) e)))
            λ _. if-Versioned (is_v1 || is_v2) p _ _ (λ _. same) (λ _. same)

  parse_form-Versioned :
      (f : WordForm) (s : Bytes) (p : Parser Double) → Versioned p (parse_form F f s p)
  unfolding parse_form
  parse_form-Versioned number_form s p = same
  parse_form-Versioned almost_number s p = same
  parse_form-Versioned identifier_form s p = parse_identifier-Versioned s p

  in_version-Versioned :
      (v : Version) (x : Option (Value Double)) (p : Parser Double)
      → Versioned p (in_version F v (allows v p.opt) x p)
  in_version-Versioned v x p = if-Versioned (allows v p.opt) p _ _ (λ e. fixed v e) (λ _. same)

  keyword-Versioned :
      (b : Bool) (x : Value Double) (p : Parser Double) (y : Parsed F)
      → Versioned p y
      → Versioned p (if p.opt.read_version_2 && b then (some x, set_version version_2 p) else y)
  keyword-Versioned b x p y h =
      if-Versioned _ p _ _ (λ e. fixed version_2 (and_left p.opt.read_version_2 b e)) (λ _. h)

  parse_word-Versioned : (s : Bytes) (p : Parser Double) → Versioned p (parse_word F s p)
  unfolding parse_word
  parse_word-Versioned s p =
      if-Versioned (bytes_eq s (codes "null")) p _ _ (λ _. in_version-Versioned version_1 _ p)
        λ _.
          if-Versioned (bytes_eq s (codes "true")) p _ _ (λ _. in_version-Versioned version_1 _ p)
            λ _.
              if-Versioned (bytes_eq s (codes "false")) p _ _
                (λ _. in_version-Versioned version_1 _ p)
                λ _. keyword-Versioned (bytes_eq s (codes "#null")) _ p _ (
                  keyword-Versioned (bytes_eq s (codes "#true")) _ p _ (
                    keyword-Versioned (bytes_eq s (codes "#false")) _ p _ (
                      keyword-Versioned (bytes_eq s (codes "#inf")) _ p _ (
                        keyword-Versioned (bytes_eq s (codes "#-inf")) _ p _ (
                          keyword-Versioned (bytes_eq s (codes "#nan")) _ p _
                            (parse_form-Versioned (word_form (v2_only p.opt) s) s p))))))

  parse_value_of-Versioned :
      (type : TokenType) (s : Bytes) (p : Parser Double) → Versioned p (parse_value_of F type s p)
  unfolding parse_value_of
  parse_value_of-Versioned raw_string_v1 s p = in_version-Versioned version_1 _ p
  parse_value_of-Versioned raw_string_v2 s p = in_version-Versioned version_2 _ p
  parse_value_of-Versioned raw_multiline_string s p = in_version-Versioned version_2 _ p
  parse_value_of-Versioned string s p =
      choose_string-Versioned p.opt.read_version_1 p.opt.read_version_2 (unescape_v1 s)
        (unescape_v2_single_line s) p refl refl
  parse_value_of-Versioned word s p = parse_word-Versioned s p
  parse_value_of-Versioned _ s p = same

  -- `_parse_value` changes nothing of the parser but the version: it leaves the parser as it is, or fixes
  -- the version to one that the parser allows.
  pub parse_value-Versioned :
      (token : Token) (p : Parser Double) → Versioned p (parse_value F token p)
  unfolding parse_value
  parse_value-Versioned token p = parse_value_of-Versioned token.type token.value p
