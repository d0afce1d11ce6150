-- ===== src/Cat/Main.antt =====
-- src/utils/ckdl-cat-main.c: `main` of ckdl-cat.
use ckdl.Prelude.{ℕ, Bool, false, Option, none, some, List, Bytes, if◌then◌else◌}
use ckdl.Number.{Floats}
use ckdl.Emitter.{WriteFunc}
use ckdl.Emitter.Float.{PrintFloats}
use ckdl.Options.{
  go_on, returns, read_arguments, cat_letter, cat_defaults, cat_parse_opt, cat_emit_opt,
}
use ckdl.Cat.Loop.{cat_file_to_file_ex}

module _ (F : Floats) (fuel : ℕ) where
  open F use {Double}

  -- What is written to stdout, and the result. `opens` and `reads` say which files open, and what they
  -- deliver.
  unfoldable pub main :
      {W : Type 0}
      → WriteFunc W
      → PrintFloats Double
      → ℕ
      → (Bytes → Bool)
      → (Option Bytes → List Bytes)
      → List Bytes
      → W
      → Option (W × ℕ)
  unfolding read_arguments cat_letter cat_file_to_file_ex
  main write_func P digits opens reads args stdout =
      elim (read_arguments cat_letter opens args
        (record { opts_ended = false; file = none; options = cat_defaults })) [
          | returns n ↦ some (stdout, n)
          | go_on a ↦
              elim (cat_file_to_file_ex F fuel write_func P digits (reads a.file) stdout
                (cat_parse_opt a.options) (cat_emit_opt a.options)) [
                  | none ↦ none
                  | some r ↦ some (r.0, if r.1 then 0 else 1)
                ]
        ]
