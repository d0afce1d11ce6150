-- ===== src/Options.antt =====
-- src/utils/ckdl-cat-main.c, src/utils/ckdl-parse-events.c: how the tools read their arguments. What
-- `print_usage` and the error messages print is left out. Whether `fopen` opens a file is a parameter.
use ckdl.Prelude.{
  ℕ, Bool, true, false, Option, none, some, List, [], ◌∷◌, ◌==◌, if◌then◌else◌, Bytes,
}
use ckdl.Grammar.{Version, version_1, version_2}
use ckdl.Parser.{ParseOption}
use ckdl.Emitter.{EmitterOptions, default_emitter_options}

-- `opts_ended`, the last file (`none` is stdin), and the options of the tool.
pub record Arguments (S : Type 0) : Type 0 where
  pub opts_ended : Bool
  pub file : Option Bytes
  pub options : S

-- What reading the arguments ends with: the tool goes on, or `main` returns this.
pub data Reading (S : Type 0) : Type 0 where
  go_on : Arguments S → Reading S
  returns : ℕ → Reading S

module _ {S : Type 0} where
  abbrev and_more : Reading S → (Arguments S → Reading S) → Reading S
  and_more (go_on a) k = k a
  and_more (returns n) k = returns n

  module _ (letter : ℕ → S → Option S) where
    -- A letter of an argument that starts with `-`: `-h`, an option of the tool, the end of options, or an
    -- error.
    unfoldable pub read_letter : ℕ → Arguments S → Reading S
    read_letter c a = if c == b'h' then returns 0 else elim (letter c a.options) [
      | some options ↦ go_on (record a { options = options })
      | none ↦ if c == b'-' then go_on (record a { opts_ended = true }) else returns 2
    ]

    unfoldable pub read_letters : Bytes → Arguments S → Reading S
    unfolding read_letter
    read_letters [] a = go_on a
    read_letters (c ∷ s) a = and_more (read_letter c a) (read_letters s)

    module _ (opens : Bytes → Bool) where
      -- An argument: options, where they have not ended and it starts with `-`, or the name of a file.
      unfoldable pub read_argument : Bytes → Arguments S → Reading S
      unfolding read_letters
      read_argument [] a = if opens [] then go_on (record a { file = some [] }) else returns 1
      read_argument (c ∷ s) a =
          if (if a.opts_ended then false else c == b'-')
          then read_letters s a
          else if opens (c ∷ s)
          then go_on (record a { file = some (c ∷ s) })
          else returns 1

      unfoldable pub read_arguments : List Bytes → Arguments S → Reading S
      unfolding read_argument
      read_arguments [] a = go_on a
      read_arguments (s ∷ args) a = and_more (read_argument s a) (read_arguments args)

-- The variables `monoglot` and `version` of ckdl-cat.
pub record CatOptions : Type 0 where
  pub monoglot : Bool
  pub version : Version

unfoldable pub cat_letter : ℕ → CatOptions → Option CatOptions
cat_letter c o =
    if c == b'1'
    then some (record o { version = version_1 })
    else if c == b'2'
    then some (record o { version = version_2 })
    else if c == b'm'
    then some (record o { monoglot = true })
    else none

abbrev pub cat_defaults : CatOptions
cat_defaults = record { monoglot = false; version = version_2 }

-- KDL_DETECT_VERSION, and the options that read one version.
abbrev pub detect_version : ParseOption
detect_version = record {
  emit_comments = false;
  detect = true;
  read_version_1 = true;
  read_version_2 = true;
}

abbrev pub read_version : Version → ParseOption
read_version version_1 = record {
  emit_comments = false;
  detect = false;
  read_version_1 = true;
  read_version_2 = false;
}
read_version version_2 = record {
  emit_comments = false;
  detect = false;
  read_version_1 = false;
  read_version_2 = true;
}

-- `parse_opt` and `emit_opt` of ckdl-cat.
abbrev pub cat_parse_opt : CatOptions → ParseOption
cat_parse_opt o = if o.monoglot then read_version o.version else detect_version

abbrev pub cat_emit_opt : CatOptions → EmitterOptions
cat_emit_opt o = record default_emitter_options { version = o.version }

-- The letters of ckdl-parse-events.
unfoldable pub events_letter : ℕ → ParseOption → Option ParseOption
events_letter c o =
    if c == b'c'
    then some (record o { emit_comments = true })
    else if c == b'1'
    then some (record (read_version version_1) { emit_comments = o.emit_comments })
    else if c == b'2'
    then some (record (read_version version_2) { emit_comments = o.emit_comments })
    else none
