-- ===== src/Tests/Emission.antt =====
-- src/emitter.c on concrete documents.
use ckdl.Prelude.{Bool, arith, true, false, none, some, [], ◌∷◌, codes, pos, negsuc, ◌≡◌, refl}
use ckdl.Number.{integer, floating_point}
use ckdl.Parser.{boolean, number, string}
use ckdl.Str.Buffer.{WriteBuffer, IsWithin}
use ckdl.Grammar.{v2}
use ckdl.Tokenizer.{Tokenizer}
use ckdl.Tokenize.{tokenize_loop, tokenize_loop-Returns}
use ckdl.Emitter.{Emitter, default_emitter_options, buffer_write_func, create_buffering_emitter}
use ckdl.Emitter.Float.{PrintFloats, float_to_string}
use ckdl.Emitter.Document.{Nodes, no_more, leaf, block, argument, property, emit_document, layout}
use ckdl.Emitter.Nodes.{emit_end, get_emitter_buffer}
use ckdl.Emitter.Sink.{Goes, buffer_collects}
use ckdl.Emitter.Lines.{end_text, emit_end-Goes}
use ckdl.Emitter.Layout.{buffered_document_lem}

-- A type of doubles in which each value is not a number.
abbrev pub only_nan : PrintFloats Unit
only_nan = record {
  is_nan = λ x. true;
  is_inf = λ x. false;
  less = λ x y. false;
  at_most = λ x y. false;
  equal = λ x y. false;
  fabs = λ x. x;
  plus = λ x y. x;
  minus = λ x y. x;
  times = λ x y. x;
  over = λ x y. x;
  pow10 = λ n. tt;
  decimal_exponent = λ x. pos 0;
  floor_int = λ x. 0;
  of_nat = λ n. tt;
  tenth = tt;
}

abbrev pub sample : Nodes Unit
sample =
    block
      record {
        type = none;
        name = codes "a b";
        entries = argument none (number (integer (negsuc 11))) ∷ [];
      }
      (leaf
        record {
          type = some (codes "t");
          name = codes "c";
          entries =
              property (codes "k") none (boolean true)
              ∷ argument none (number (floating_point tt))
              ∷ [];
        }
        no_more)
      (leaf
        record {
          type = none;
          name = codes "true";
          entries = argument none (string (codes "x\"y")) ∷ [];
        }
        no_more)

pub only_nan-prints :
    (f : Unit)
    → float_to_string only_nan 1 default_emitter_options.float_mode f ≡ some (codes "#nan")
unfolding float_to_string
only_nan-prints f = refl

buffered_document_lem_example :
    (r : Emitter WriteBuffer) × (emit_document buffer_write_func only_nan 1 sample
        (create_buffering_emitter default_emitter_options)
      ≡ (r, true))
    × (get_emitter_buffer r ≡ layout default_emitter_options (λ f. codes "#nan") 0 sample)
    × IsWithin r.sink
    × (r.depth ≡ 0)
buffered_document_lem_example =
    buffered_document_lem default_emitter_options only_nan 1 (λ f. codes "#nan") only_nan-prints
      sample

-- An emitter in two open blocks, behind a node.
emit_end-Goes_example :
    Goes buffer_collects default_emitter_options 2 false
      (emit_end buffer_write_func)
      0
      true
      (end_text default_emitter_options 2 false)
emit_end-Goes_example = emit_end-Goes buffer_collects default_emitter_options 2 false

abbrev two_words : Tokenizer
two_words = record { document = codes "a 1"; charset = v2; reads = [] }

abbrev pub plain_emitter : Emitter WriteBuffer
plain_emitter = record {
  opt = default_emitter_options;
  depth = 0;
  start_of_line = true;
  sink = record { buf_len = 4096; text = [] };
  no_answer = false;
}

tokenize_loop-Returns_example :
    (r : Bool × Emitter WriteBuffer) × (tokenize_loop buffer_write_func only_nan 1 4 two_words
        plain_emitter
      ≡ some r)
tokenize_loop-Returns_example =
    tokenize_loop-Returns buffer_write_func only_nan 1 4 two_words plain_emitter tt (omega arith)
