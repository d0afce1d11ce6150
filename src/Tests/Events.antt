-- ===== src/Tests/Events.antt =====
-- src/parser.c on concrete documents.
use ckdl.Prelude.{
  arith, ℕ, zero, suc, ◌+◌, ◌*◌, ◌≡◌, refl, inl, inr, Option-cases, ◌/◌, ◌^◌, true, false, Option,
  none, some, List, [], ◌∷◌, Bytes, codes, length, All, ◌<◌,
}
use ckdl.Number.{Floats}
use ckdl.Parser.{
  init_parser, ParseOption, EventKind, Event, Parser, reset_event, create_string_parser,
  create_stream_parser,
}
use ckdl.Parser.Balance.{open_nodes}
use ckdl.Parser.Balance.Events.{Calls, start, call, starts, ends, AtEof, events-Balanced}
use ckdl.Parser.Next.{event_loop, next_event}
use ckdl.Parser.Words.{parse_value}
use ckdl.Parser.Ending.Calls.{next_event-Onward, measure}
use ckdl.Parser.Ending.Documents.{Ends, create_stream_parser-Ends}
use ckdl.Parser.Ending.{After}
use ckdl.Tokenizer.Stream.{NonEmpty}
use ckdl.Grammar.{v2}
use ckdl.Tokenizer.Input.{tokenizer_set_character_set}
use ckdl.Parser.Versions.{Versioned, parse_value-Versioned}
use ckdl.Tokenizer.{raw_string_v1, flatten}

-- Natural numbers in place of `double`, for documents without fractions.
abbrev pub whole_floats : Floats
whole_floats = record {
  Double = ℕ;
  of_ull = λ n. n;
  negate = λ x. x;
  times = λ x y. x * y;
  over = λ x y. x / y;
  pow10 = λ k. 10 ^ k;
  infinity = 0;
  nan = 0;
}

abbrev pub any_version : ParseOption
any_version = record {
  emit_comments = false;
  detect = true;
  read_version_1 = true;
  read_version_2 = true;
}

-- The kinds of the first events, with their names and type annotations.
abbrev kinds : ℕ → Parser ℕ → List (EventKind × Option Bytes × Option Bytes)
kinds zero p = []
kinds (suc n) p = elim (event_loop whole_floats 50 (reset_event p)) [
  | none ↦ []
  | some p' ↦ (p'.event.kind, p'.event.name, p'.event.type_annotation) ∷ kinds n p'
]

abbrev with_comments : ParseOption
with_comments = record any_version { emit_comments = true }

-- `n` further calls of `kdl_parser_next_event`, fewer where the fuel of one runs out.
abbrev calls :
    {p : Parser ℕ} (n : ℕ) (ks : List EventKind) (q : Parser ℕ)
    → Calls whole_floats p ks q
    → (ks' : List EventKind) × (q' : Parser ℕ) × Calls whole_floats p ks' q'
calls zero ks q c = (ks, q, c)
calls (suc n) ks q c = elim (Option-cases (event_loop whole_floats 50 (reset_event q))) [
  | inl _ ↦ (ks, q, c)
  | inr r ↦ calls n (r.0.event.kind ∷ ks) r.0 (call 50 c r.1)
]

-- A document in two reads: a node with a child in its block, and a node that is commented out.
abbrev sample_parser : Parser ℕ
sample_parser = create_stream_parser (codes "a 1 {\n b" ∷ codes "\n}\n/-c; d" ∷ []) with_comments

abbrev sample_calls : (ks : List EventKind) × (q : Parser ℕ) × Calls whole_floats sample_parser ks q
sample_calls = calls 10 [] sample_parser start

events-Balanced_example :
    (starts sample_calls.0 ≡ ends sample_calls.0 + open_nodes (sample_calls.1).depth)
    × (AtEof sample_calls.0 → starts sample_calls.0 ≡ ends sample_calls.0)
events-Balanced_example =
    events-Balanced whole_floats (codes "a 1 {\n b" ∷ codes "\n}\n/-c; d" ∷ []) with_comments refl
      sample_calls.2

-- A word that is cut into two reads.
create_stream_parser-Ends_example :
    Ends whole_floats
      (create_stream_parser (codes "a 1;b" ∷ codes "c" ∷ []) any_version)
      (16 * length (flatten (codes "a 1;b" ∷ codes "c" ∷ [])) + 1)
create_stream_parser-Ends_example =
    create_stream_parser-Ends whole_floats (codes "a 1;b" ∷ codes "c" ∷ []) any_version
      ((λ e. grind arith), ((λ e. grind arith), tt))

-- A raw string of version 1.
parse_value-Versioned_example : Versioned (create_string_parser [] any_version) (
    parse_value whole_floats
      (record { type = raw_string_v1; value = codes "a\\b" })
      (create_string_parser [] any_version))
parse_value-Versioned_example =
    parse_value-Versioned whole_floats (record { type = raw_string_v1; value = codes "a\\b" })
      (create_string_parser [] any_version)

-- A parser over two reads, before a node with a line continuation at the end of the input.
abbrev continued_parser : Parser ℕ
continued_parser =
    init_parser (record { document = []; charset = v2; reads = codes "a" ∷ codes " \\" ∷ [] })
      any_version

next_event-Onward_example :
    (r : Event ℕ × Parser ℕ) × (next_event whole_floats 50 continued_parser ≡ some r)
    × After r.0.kind (All NonEmpty r.1.tokenizer.reads × (measure r.1 < measure continued_parser))
unfolding init_parser tokenizer_set_character_set
next_event-Onward_example =
    next_event-Onward whole_floats 50 continued_parser
      ((λ e. grind arith), ((λ e. grind arith), tt)) (omega arith)
