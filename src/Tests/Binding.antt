-- ===== src/Tests/Binding.antt =====
-- src/bindings/cpp on concrete documents.
use ckdl.Prelude.{ℕ, ◌≡◌, ◌⊎◌, arith, none, some, [], ◌∷◌, ◌++◌, Bytes, codes, length, pos}
use ckdl.Number.{integer}
use ckdl.Parser.{number}
use ckdl.Emitter.{buffer_write_func, ◌and_then◌}
use ckdl.Emitter.Nodes.{emit_end}
use ckdl.Emitter.Document.{Nodes, no_more, leaf, block, property, layout}
use ckdl.Cat.Loop.{cat_impl}
use ckdl.Cat.Document.{next_of_list, document_events, sort_document}
use ckdl.Kdlpp.{Result, document, read_from}
use ckdl.Kdlpp.Emission.{string_options, to_string, emit_node_vector}
use ckdl.Kdlpp.Parse.{kdl_2, any, parse}
use ckdl.Kdlpp.Documents.{vector_of, tree_of}
use ckdl.Kdlpp.Reading.{read_from_lem}
use ckdl.Kdlpp.Writing.{to_string_lem}
use ckdl.Kdlpp.Sorted.{tree_of-vector_of}
use ckdl.Kdlpp.Agrees.{cat_impl-emit_node_vector}
use ckdl.Kdlpp.Returns.{parse-Returns}
use ckdl.Tests.Emission.{only_nan, only_nan-prints, plain_emitter, sample}
use ckdl.Tests.Events.{whole_floats}

-- Properties out of order, one of them twice, in a child.
abbrev doubled : Nodes Unit
doubled =
    block record { type = none; name = codes "a"; entries = [] }
      (leaf
        record {
          type = none;
          name = codes "c";
          entries =
              property (codes "k") none (number (integer (pos 1)))
              ∷ property (codes "j") none (number (integer (pos 2)))
              ∷ property (codes "k") none (number (integer (pos 3)))
              ∷ [];
        }
        no_more)
      no_more

read_from_lem_example :
    read_from next_of_list (length (document_events sample)) (document_events sample)
    ≡ some (document (vector_of sample))
read_from_lem_example = read_from_lem sample

to_string_lem_example :
    (s : Bytes) × (to_string only_nan 1 kdl_2 (vector_of sample) ≡ some (some s))
    × ((s ≡ layout (string_options kdl_2) (λ f. codes "#nan") 0 (tree_of (vector_of sample)))
        ⊎ (s ++ codes "\n"
            ≡ layout (string_options kdl_2) (λ f. codes "#nan") 0 (tree_of (vector_of sample))))
to_string_lem_example =
    to_string_lem kdl_2 only_nan 1 (λ f. codes "#nan") only_nan-prints (vector_of sample)

tree_of-vector_of_example : tree_of (vector_of doubled) ≡ sort_document doubled
tree_of-vector_of_example =
    tree_of-vector_of doubled (tt, ((omega arith, (omega arith, (omega arith, tt))), tt), tt)

cat_impl-emit_node_vector_example :
    cat_impl buffer_write_func only_nan 1 next_of_list
      (length (document_events doubled))
      (document_events doubled)
      plain_emitter
    ≡ some (
        (emit_node_vector buffer_write_func only_nan 1 (vector_of doubled)
            and_then emit_end buffer_write_func)
          plain_emitter)
cat_impl-emit_node_vector_example =
    cat_impl-emit_node_vector buffer_write_func only_nan 1 doubled plain_emitter
      (tt, ((omega arith, (omega arith, (omega arith, tt))), tt), tt)

parse-Returns_example : (r : Result ℕ) × (parse whole_floats 200 (codes "a b=1 a=2") any ≡ some r)
parse-Returns_example = parse-Returns whole_floats 200 (codes "a b=1 a=2") any (omega arith)
