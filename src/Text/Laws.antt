-- ===== src/Text/Laws.antt =====
-- `text` unrolled, and the text of encoded code points.
use ckdl.Prelude.{
  ℕ, zero, suc, ◌-◌, ◌≤◌, ◌<◌, ◌≡◌, refl, sym, ap, ◌∙◌, arith, List, [], ◌∷◌, ◌++◌, Bytes, length,
  length-append, All, append_assoc, append-nil,
}
use ckdl.Utf8.{Popped, ok, eof, incomplete, decode_error, pop_codepoint, push_codepoint}
use ckdl.Utf8.Prefix.{pop_takes}
use ckdl.Utf8.RoundTrip.{pop-push}
use ckdl.Text.{Text, char, finished, broken, take, front, text_within, text}

-- What one result of `_kdl_pop_codepoint` on `s` makes of the text.
abbrev unrolled : Bytes → Popped → Text
unrolled s (ok c rest) = char c (front s rest) (text rest)
unrolled s eof = finished
unrolled s incomplete = broken
unrolled s decode_error = broken

same_round :
    (f g : ℕ) (s : Bytes)
    → ((r : Bytes) → length r < length s → text_within f r ≡ text_within g r)
    → (p : Popped) → pop_codepoint s ≡ p
    → text_within (suc f) s ≡ text_within (suc g) s
unfolding text_within
same_round f g s ih (ok c r) e = rw (e, text_within, ih r (omega (arith, pop_takes s e)))
same_round f g s ih eof e = rw (e, text_within)
same_round f g s ih incomplete e = rw (e, text_within)
same_round f g s ih decode_error e = rw (e, text_within)

-- Any two fuels above the length give the same text.
text_within_enough :
    (f g : ℕ) (s : Bytes) → length s < f → length s < g → text_within f s ≡ text_within g s
text_within_enough zero g s p q = absurd (omega arith)
text_within_enough (suc f) zero s p q = absurd (omega arith)
text_within_enough (suc f) (suc g) s p q =
    same_round f g s (λ r h. text_within_enough f g r (omega arith) (omega arith)) (pop_codepoint s)
      refl

unrolled_lem : (s : Bytes) (p : Popped) → pop_codepoint s ≡ p → text s ≡ unrolled s p
unfolding text text_within
unrolled_lem s (ok c r) e =
    let less = pop_takes s e in
    rw (
      e,
      text_within,
      text_within_enough (length s) (suc (length r)) r (omega (arith, less)) (omega arith),
    )
unrolled_lem s eof e = rw (e, text_within)
unrolled_lem s incomplete e = rw (e, text_within)
unrolled_lem s decode_error e = rw (e, text_within)

-- `text` is the iteration of `_kdl_pop_codepoint`, with no bound.
text_unrolled : (s : Bytes) → text s ≡ unrolled s (pop_codepoint s)
text_unrolled s = unrolled_lem s (pop_codepoint s) refl

pub push_ascii : (c : ℕ) → c < 128 → push_codepoint c ≡ c ∷ []
unfolding push_codepoint
push_ascii c h = ground arith

-- The UTF-8 of a list of code points, and the text that it has.
abbrev pub encode : List ℕ → Bytes
encode [] = []
encode (c ∷ cs) = push_codepoint c ++ encode cs

abbrev pub chars : List ℕ → Text → Text
chars [] t = t
chars (c ∷ cs) t = char c (push_codepoint c) (chars cs t)

abbrev pub IsCodepoint : ℕ → Type 0
IsCodepoint c = c ≤ 0x10ffff

take-length : (p s : Bytes) → take (length p) (p ++ s) ≡ p
take-length [] s = refl
take-length (x ∷ p) s = ap (◌∷◌ x) (take-length p s)

front-append : (p s : Bytes) → front (p ++ s) s ≡ p
front-append p s =
    let e : length (p ++ s) - length s ≡ length p = omega (arith, length-append p s) in
    rw e (take-length p s)

pub text-push :
    (c : ℕ) (rest : Bytes)
    → IsCodepoint c
    → text (push_codepoint c ++ rest) ≡ char c (push_codepoint c) (text rest)
text-push c rest h =
    text_unrolled (push_codepoint c ++ rest)
    ∙ rw (pop-push c rest h) (rw (front-append (push_codepoint c) rest))

pub text-encode :
    (cs : List ℕ) (rest : Bytes)
    → All IsCodepoint cs
    → text (encode cs ++ rest) ≡ chars cs (text rest)
text-encode [] rest h = refl
text-encode (c ∷ cs) rest (hc, hs) =
    rw append_assoc (text-push c (encode cs ++ rest) hc ∙ rw (text-encode cs rest hs))

pub text-nil : text [] ≡ finished
unfolding text text_within pop_codepoint
text-nil = refl

-- A string that encodes code points is read back as those, up to the end.
pub text_of_encoded : (cs : List ℕ) → All IsCodepoint cs → text (encode cs) ≡ chars cs finished
text_of_encoded cs h = ap text (sym (append-nil (encode cs))) ∙ text-encode cs [] h ∙ rw text-nil

pub encode-append : (xs ys : List ℕ) → encode (xs ++ ys) ≡ encode xs ++ encode ys
encode-append [] ys = refl
encode-append (x ∷ xs) ys = rw (encode-append xs ys, append_assoc)

pub chars-append : (xs ys : List ℕ) (t : Text) → chars (xs ++ ys) t ≡ chars xs (chars ys t)
chars-append [] ys t = refl
chars-append (x ∷ xs) ys t = rw (chars-append xs ys t)

abbrev pub IsAscii : ℕ → Type 0
IsAscii c = c < 128

-- ASCII is its own UTF-8.
pub encode_ascii : (cs : List ℕ) → All IsAscii cs → encode cs ≡ cs
encode_ascii [] h = refl
encode_ascii (c ∷ cs) (hc, hs) = rw (push_ascii c hc, encode_ascii cs hs)
