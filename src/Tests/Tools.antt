-- ===== src/Tests/Tools.antt =====
-- src/utils: the tools on concrete documents.
use ckdl.Prelude.{ℕ, ◌≡◌, refl, arith, true, none, some, List, [], ◌∷◌, Bytes, codes, length, pos}
use ckdl.Number.{integer}
use ckdl.Str.Buffer.{WriteBuffer}
use ckdl.Parser.{number}
use ckdl.Emitter.{Emitter, default_emitter_options, buffer_write_func, create_buffering_emitter}
use ckdl.Emitter.Document.{emit_document, layout}
use ckdl.Emitter.Nodes.{get_emitter_buffer}
use ckdl.Cat.{Property, sorted_properties, str_cmp}
use ckdl.Cat.Loop.{cat_impl}
use ckdl.Cat.Order.{Says, str_cmp-Says}
use ckdl.Cat.Properties.{Increasing, last_property, sorted_properties_lem}
use ckdl.Cat.Document.{next_of_list, document_events, sort_document}
use ckdl.Cat.Calls.{cat_impl_lem, cat_layout_lem}
use ckdl.Tests.Emission.{only_nan, only_nan-prints, plain_emitter, sample}

abbrev named : Bytes → ℕ → Property Unit
named name n = record { name = name; type_annotation = none; value = number (integer (pos n)) }

abbrev some_properties : List (Property Unit)
some_properties =
    named (codes "b") 1 ∷ named (codes "ab") 2 ∷ named (codes "b") 3 ∷ named (codes "a") 4 ∷ []

sorted_run :
    sorted_properties some_properties
    ≡ named (codes "a") 4 ∷ named (codes "ab") 2 ∷ named (codes "b") 3 ∷ []
unfolding sorted_properties
sorted_run = refl

sorted_properties_lem_example :
    Increasing (sorted_properties some_properties)
    × ((k : Bytes)
        → last_property k (sorted_properties some_properties) ≡ last_property k some_properties)
sorted_properties_lem_example =
    sorted_properties_lem some_properties
      (omega arith, (omega arith, (omega arith, (omega arith, tt))))

str_cmp-Says_example :
    Says (str_cmp (some (codes "ab")) (some (codes "b"))) (codes "ab") (codes "b")
str_cmp-Says_example = str_cmp-Says (codes "ab") (codes "b") (omega arith) (omega arith)

cat_impl_lem_example :
    cat_impl buffer_write_func only_nan 1 next_of_list
      (length (document_events sample))
      (document_events sample)
      plain_emitter
    ≡ some (emit_document buffer_write_func only_nan 1 (sort_document sample) plain_emitter)
cat_impl_lem_example = cat_impl_lem buffer_write_func only_nan 1 sample plain_emitter

cat_layout_lem_example :
    (r : Emitter WriteBuffer) × (cat_impl buffer_write_func only_nan 1 next_of_list
        (length (document_events sample))
        (document_events sample)
        (create_buffering_emitter default_emitter_options)
      ≡ some (r, true))
    × (get_emitter_buffer r
        ≡ layout default_emitter_options (λ f. codes "#nan") 0 (sort_document sample))
cat_layout_lem_example =
    cat_layout_lem default_emitter_options only_nan 1 (λ f. codes "#nan") only_nan-prints sample
