-- ===== src/Kdlpp/Parse.antt =====
-- src/bindings/cpp/src/kdlpp.cpp: `parse` and `Value::from_string`.
use ckdl.Prelude.{ℕ, Option, none, some, [], ◌∷◌, ◌++◌, Bytes, codes}
use ckdl.Grammar.{version_1, version_2}
use ckdl.Number.{Floats}
use ckdl.Parser.{ParseOption, create_string_parser}
use ckdl.Parser.Next.{next_event}
use ckdl.Options.{read_version}
use ckdl.Kdlpp.{CppValue, Result, document, throws_parse_error, no_node, with_node, read_from}

-- `KdlVersion`
pub data KdlVersion : Type 0 where
  kdl_1 kdl_2 any : KdlVersion

module _ (F : Floats) (fuel : ℕ) where
  open F use {Double}

  -- `parse` of one version.
  unfoldable pub parse_version : ParseOption → Bytes → Option (Result Double)
  unfolding next_event read_from create_string_parser
  parse_version opts text = read_from (next_event F fuel) fuel (create_string_parser text opts)

  -- `catch (ParseError const&)`
  abbrev pub or_catch : Option (Result Double) → Option (Result Double) → Option (Result Double)
  or_catch (some (throws_parse_error message)) other = other
  or_catch r other = r

  -- `parse`
  unfoldable pub parse : Bytes → KdlVersion → Option (Result Double)
  unfolding parse_version
  parse text kdl_1 = parse_version (read_version version_1) text
  parse text kdl_2 = parse_version (read_version version_2) text
  parse text any =
      or_catch (parse_version (read_version version_2) text)
        (parse_version (read_version version_1) text)

  -- `Value::from_string`: an argument, or an exception.
  abbrev pub single_value : Result Double → Option (CppValue Double)
  single_value (document (with_node h no_node no_node)) = elim (h.properties) [
    | [] ↦ elim (h.args) [ [] ↦ none | v ∷ vs ↦ elim vs [ [] ↦ some v | _ ∷ _ ↦ none ] ]
    | _ ∷ _ ↦ none
  ]
  single_value _ = none

  unfoldable pub from_string : Bytes → Option (Option (CppValue Double))
  unfolding parse
  from_string s = elim (parse (codes "- " ++ s) any) [
    | none ↦ none
    | some r ↦ some (single_value r)
  ]
