-- ===== src/Emitter.antt =====
-- src/emitter.c, include/kdl/emitter.h: the state of an emitter, and writing to its sink.
-- The sink is what `write_func` writes to, with `write_func` itself as an argument of every operation:
-- it answers with the sink and the count of bytes that it took. `kdl_create_buffering_emitter` has a
-- write buffer there.
pub mod Digits
pub mod Float
pub mod Values
pub mod Nodes
pub mod Texts
pub mod Sequence
pub mod Sink
pub mod Lines
pub mod Document
pub mod Layout
use ckdl.Prelude.{Option, none, some, if◌then◌else◌, ℕ, Bool, true, false, [], ◌==◌, Bytes, length}
use ckdl.Grammar.{Version, version_2}
use ckdl.Str.Buffer.{WriteBuffer, new_write_buffer, buf_push_chars}

-- `kdl_identifier_emission_mode`
pub data IdentifierMode : Type 0 where
  prefer_bare_identifiers quote_all_identifiers ascii_identifiers : IdentifierMode

-- `kdl_float_printing_options`; the smallest exponent is not negative.
pub record FloatPrintingOptions : Type 0 where
  pub always_write_decimal_point : Bool
  pub always_write_decimal_point_or_exponent : Bool
  pub capital_e : Bool
  pub exponent_plus : Bool
  pub plus : Bool
  pub min_exponent : ℕ

-- `kdl_emitter_options`; the indent is not negative.
pub record EmitterOptions : Type 0 where
  pub indent : ℕ
  pub escape_mode : ℕ
  pub identifier_mode : IdentifierMode
  pub float_mode : FloatPrintingOptions
  pub version : Version

-- KDL_DEFAULT_EMITTER_OPTIONS; KDL_ESCAPE_DEFAULT is 0x70.
abbrev pub default_emitter_options : EmitterOptions
default_emitter_options = record {
  indent = 4;
  escape_mode = 0x70;
  identifier_mode = prefer_bare_identifiers;
  float_mode = record {
    always_write_decimal_point = false;
    always_write_decimal_point_or_exponent = true;
    capital_e = false;
    exponent_plus = false;
    plus = false;
    min_exponent = 4;
  };
  version = version_2;
}

-- `struct _kdl_emitter`, with the sink in place of `write_user_data` and `buf`. The depth is not negative:
-- what lowers it looks for 0 first. `no_answer` is no field of the source: it is set for good where the
-- fuel of the digits of a number ran out, and the functions that take an emitter from its creation to its
-- end have no answer then.
pub record Emitter (W : Type 0) : Type 0 where
  pub opt : EmitterOptions
  pub depth : ℕ
  pub start_of_line : Bool
  pub sink : W
  pub no_answer : Bool

-- `kdl_write_func`
abbrev pub WriteFunc : Type 0 → Type 0
WriteFunc W = W → Bytes → W × ℕ

-- `_buffer_write_func`, where allocation succeeds.
unfoldable pub buffer_write_func : WriteFunc WriteBuffer
buffer_write_func buf data' = (buf_push_chars buf data', length data')

module _ {W : Type 0} where
  -- `kdl_create_stream_emitter`
  unfoldable pub create_stream_emitter : W → EmitterOptions → Emitter W
  create_stream_emitter sink opt = record {
    opt = opt;
    depth = 0;
    start_of_line = true;
    sink = sink;
    no_answer = false;
  }

-- The result of a function behind its last call on an emitter; `none` is no answer of the source.
abbrev pub answered : {W A : Type 0} → Emitter W → A → Option A
answered e x = if e.no_answer then none else some x

-- What an operation does: it leaves an emitter, and says whether it went well.
abbrev pub Emit : Type 0 → Type 0
Emit W = Emitter W → Emitter W × Bool

-- `a && b`: the second is done if the first went well.
infixr 32 ◌and_then◌
abbrev pub ◌and_then◌ : {W : Type 0} → Emit W → Emit W → Emit W
◌and_then◌ a b e = let r = a e in elim (r.1) [ true ↦ b r.0 | false ↦ (r.0, false) ]

-- `kdl_create_buffering_emitter`
unfoldable pub create_buffering_emitter : EmitterOptions → Emitter WriteBuffer
unfolding create_stream_emitter
create_buffering_emitter opt = create_stream_emitter (new_write_buffer 4096) opt

module _ {W : Type 0} (write_func : WriteFunc W) where
  -- One call of `write_func`, which must take all bytes: `_write_string_literal_ok` and its like.
  unfoldable pub write : Bytes → Emit W
  write s e = let r = write_func e.sink s in (record e { sink = r.0 }, r.1 == length s)
