-- ===== src/Emitter/Sink.antt =====
-- src/emitter.c: what the operations write to a sink that takes all bytes.
use ckdl.Prelude.{
  ℕ, Bool, true, false, Option, none, some, [], ◌∷◌, ◌++◌, if◌then◌else◌, Bytes, codes, length,
  print_int, eqb_iff, ◌≡◌, refl, sym, ap, subst, ◌∙◌, append_assoc, append-nil,
}
use ckdl.Grammar.{Version, version_1, version_2}
use ckdl.Str.Versions.{escape_v}
use ckdl.Str.UnescapeV2.{borrow_str}
use ckdl.Str.Buffer.{IsWithin, push_chars_lem}
use ckdl.Number.{Number, integer, floating_point, string_encoded}
use ckdl.Parser.{Value, null, boolean, number, string}
use ckdl.Emitter.{EmitterOptions, Emitter, WriteFunc, buffer_write_func, Emit, write, ◌and_then◌}
use ckdl.Emitter.Texts.{
  quoted_text, name_text, string_text, type_text, keyword_text, number_text, plain_value_text,
  value_text,
}
use ckdl.Emitter.Float.{PrintFloats, float_to_string}
use ckdl.Emitter.Values.{
  is_bare, emit_quoted_str, emit_bare_string, emit_string, emit_type, emit_keyword, emit_number,
  emit_plain_value, emit_value,
}

-- A `write_func` that takes all bytes, on the sinks that it is used on.
pub record Collects {W : Type 0} (write_func : WriteFunc W) : Type 1 where
  pub written : W → Bytes
  pub Good : W → Type 0
  pub takes :
      (w : W) (s : Bytes)
      → Good w
      → (written (write_func w s).0 ≡ written w ++ s)
        × ((write_func w s).1 ≡ length s)
        × Good (write_func w s).0

-- The write buffer of `kdl_create_buffering_emitter` is such a sink.
unfoldable pub buffer_collects : Collects buffer_write_func
unfolding buffer_write_func
buffer_collects = record {
  written = λ b. b.text;
  Good = IsWithin;
  takes = λ w s h. let l = push_chars_lem w s h in (l.0, refl, l.1);
}

module _ {W : Type 0} (o : EmitterOptions) where
  -- The emitter with these options at a depth.
  abbrev pub emitter_at : ℕ → Bool → W → Emitter W
  emitter_at d b w = record { opt = o; depth = d; start_of_line = b; sink = w; no_answer = false }

module _ {W : Type 0} {write_func : WriteFunc W} (collects : Collects write_func)
    (o : EmitterOptions) where
  open collects use {written, Good, takes}

  -- At the depth `d` and with `start_of_line` as `b`, `a` goes well, writes `s`, and leaves the depth `d'`
  -- and `b'`.
  pub record Goes (d : ℕ) (b : Bool) (a : Emit W) (d' : ℕ) (b' : Bool) (s : Bytes) : Type 0 where
    pub goes :
        (w : W)
        → Good w
        → (w' : W) × (a (emitter_at o d b w) ≡ (emitter_at o d' b' w', true))
          × (written w' ≡ written w ++ s)
          × Good w'

  -- The same at every place, which is kept.
  abbrev pub Prints : Emit W → Bytes → Type 0
  Prints a s = (d : ℕ) (b : Bool) → Goes d b a d b s

  pub then-Goes :
      {d d' d'' : ℕ} {b b' b'' : Bool} {a c : Emit W} {s t : Bytes}
      → Goes d b a d' b' s
      → Goes d' b' c d'' b'' t
      → Goes d b (a and_then c) d'' b'' (s ++ t)
  then-Goes {d = d} {b = b} {a = a} {c = c} {s = s} {t = t} g h = record {
    goes = λ w good.
        let first = g.goes w good in
        let second = h.goes first.0 first.3 in
        (
          second.0,
          ap (λ r. elim (r.1) [ true ↦ c r.0 | false ↦ (r.0, false) ]) first.1 ∙ second.1,
          second.2 ∙ (ap (λ x. x ++ t) first.2 ∙ append_assoc (written w) s t),
          second.3,
        );
  }

  pub then-Prints :
      {a c : Emit W} {s t : Bytes} → Prints a s → Prints c t → Prints (a and_then c) (s ++ t)
  then-Prints g h d b = then-Goes (g d b) (h d b)

  -- Nothing written.
  pub stays-Goes :
      {d d' : ℕ} {b b' : Bool} (a : Emit W)
      → ((w : W) → a (emitter_at o d b w) ≡ (emitter_at o d' b' w, true))
      → Goes d b a d' b' []
  stays-Goes a h = record { goes = λ w good. (w, h w, sym (append-nil (written w)), good) }

  -- Another text, or another operation, that is the same here.
  pub text-Goes :
      {d d' : ℕ} {b b' : Bool} {a : Emit W} {s t : Bytes}
      → s ≡ t
      → Goes d b a d' b' s
      → Goes d b a d' b' t
  text-Goes {d = d} {d' = d'} {b = b} {b' = b'} {a = a} e g = subst (λ x. Goes d b a d' b' x) e g

  pub same-Goes :
      {d d' : ℕ} {b b' : Bool} (a : Emit W) {c : Emit W} {s : Bytes}
      → ((w : W) → a (emitter_at o d b w) ≡ c (emitter_at o d b w))
      → Goes d b c d' b' s
      → Goes d b a d' b' s
  same-Goes a e g = record { goes = λ w good. let r = g.goes w good in (r.0, e w ∙ r.1, r.2, r.3) }

  pub write-Prints : (s : Bytes) → Prints (write write_func s) s
  unfolding write
  write-Prints s d b = record {
    goes = λ w good.
        let t = takes w s good in
        (
          (write_func w s).0,
          ap (λ x. (emitter_at o d b (write_func w s).0, x))
              ((eqb_iff (write_func w s).1 (length s)).1 t.1),
          t.0,
          t.2,
        );
  }

  pub quoted_str-Prints : (s : Bytes) → Prints (emit_quoted_str write_func s) (quoted_text o s)
  unfolding emit_quoted_str
  quoted_str-Prints s d b =
      same-Goes (emit_quoted_str write_func s) (λ w. refl)
        (then-Prints (write-Prints (codes "\""))
          (then-Prints (write-Prints (borrow_str (escape_v o.version s o.escape_mode)))
            (write-Prints (codes "\"")))
          d b)

  if-Goes :
      {d : ℕ} {b : Bool} (t : Bool) {a c : Emit W} {s u : Bytes}
      → Goes d b a d b s
      → Goes d b c d b u
      → Goes d b (λ e. if t then a e else c e) d b (if t then s else u)
  if-Goes true g h = g
  if-Goes false g h = h

  version-Goes :
      {d : ℕ} {b : Bool} (v : Version) {a c : Emit W} {s u : Bytes}
      → Goes d b a d b s
      → Goes d b c d b u
      → Goes d b
          (λ e. elim v [ version_1 ↦ a e | version_2 ↦ c e ])
          d
          b
          (elim v [ version_1 ↦ s | version_2 ↦ u ])
  version-Goes version_1 g h = g
  version-Goes version_2 g h = h

  pub bare_string-Prints : (s : Bytes) → Prints (emit_bare_string write_func s) (name_text o s)
  unfolding emit_bare_string
  bare_string-Prints s d b =
      same-Goes (emit_bare_string write_func s) (λ w. refl)
        (if-Goes (is_bare o s) (write-Prints s d b) (quoted_str-Prints s d b))

  string-Prints : (s : Bytes) → Prints (emit_string write_func s) (string_text o s)
  unfolding emit_string
  string-Prints s d b =
      same-Goes (emit_string write_func s) (λ w. refl)
        (version-Goes o.version (quoted_str-Prints s d b) (bare_string-Prints s d b))

  pub type-Prints : (t : Bytes) → Prints (emit_type write_func t) (type_text o t)
  unfolding emit_type
  type-Prints t =
      then-Prints (write-Prints (codes "("))
        (then-Prints (bare_string-Prints t) (write-Prints (codes ")")))

  keyword-Prints : (s : Bytes) → Prints (emit_keyword write_func s) (keyword_text o s)
  unfolding emit_keyword
  keyword-Prints s d b =
      same-Goes (emit_keyword write_func s) (λ w. refl)
        (version-Goes o.version (write-Prints s d b) (write-Prints (b'#' ∷ s) d b))

  -- Numbers, with the text of a double where the fuel is enough.
  module _ {D : Type 0} (F : PrintFloats D) (fuel : ℕ) (float_text : D → Bytes)
      (prints : (f : D) → float_to_string F fuel o.float_mode f ≡ some (float_text f)) where
    number-Prints :
        (n : Number D) → Prints (emit_number write_func F fuel n) (number_text o float_text n)
    unfolding emit_number
    number-Prints (integer i) d b = write-Prints (print_int i) d b
    number-Prints (floating_point f) d b =
        same-Goes (emit_number write_func F fuel (floating_point f))
          (λ w.
            ap
              (λ r. elim r [
                | none ↦ (record (emitter_at o d b w) { no_answer = true }, false)
                | some s ↦ write write_func s (emitter_at o d b w)
              ])
              (prints f))
          (write-Prints (float_text f) d b)
    number-Prints (string_encoded s) d b = write-Prints s d b

    plain_value-Prints :
        (v : Value D)
        → Prints (emit_plain_value write_func F fuel v) (plain_value_text o float_text v)
    unfolding emit_plain_value
    plain_value-Prints null = keyword-Prints (codes "null")
    plain_value-Prints (boolean true) = keyword-Prints (codes "true")
    plain_value-Prints (boolean false) = keyword-Prints (codes "false")
    plain_value-Prints (number n) = number-Prints n
    plain_value-Prints (string s) = string-Prints s

    pub value-Prints :
        (t : Option Bytes) (v : Value D)
        → Prints (emit_value write_func F fuel t v) (value_text o float_text t v)
    unfolding emit_value
    value-Prints none v = plain_value-Prints v
    value-Prints (some t) v = then-Prints (type-Prints t) (plain_value-Prints v)
