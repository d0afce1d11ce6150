-- ===== src/Parser/Ending/Documents.antt =====
-- src/parser.c: calling `kdl_parser_next_event` again and again comes to the end of the document.
use ckdl.Prelude.{ℕ, zero, suc, ◌+◌, ◌*◌, ◌<◌, ◌≤◌, arith, List, [], ◌∷◌, Bytes, length, All}
use ckdl.Number.{Floats}
use ckdl.Tokenizer.{flatten}
use ckdl.Tokenizer.Input.{tokenizer_set_character_set}
use ckdl.Tokenizer.Stream.{NonEmpty}
use ckdl.Tokenizer.Progress.Create.{create_stream_tokenizer-Ahead}
use ckdl.Parser.{
  ParseOption, EventKind, eof, parse_error, start_node, end_node, argument, property, comment,
  Parser, reset_event, create_stream_parser, init_parser,
}
use ckdl.Parser.Balance.Events.{Calls, start, call}
use ckdl.Parser.Ending.{After, After-map}
use ckdl.Parser.Ending.Calls.{measure, event_loop-Onward}

-- The last event was the end of the document or an error.
abbrev pub Over : List EventKind → Type 0
Over (eof ∷ ks) = Unit
Over (parse_error ∷ ks) = Unit
Over _ = ⊥

module _ (F : Floats) where
  open F use {Double}

  -- Calls from `p` that come to the end, with at most `n` events.
  abbrev pub Ends : Parser Double → ℕ → Type 0
  Ends p n =
      (ks : List EventKind) × (q : Parser Double) × Calls F p ks q × Over ks × (length ks ≤ n)

  go_on :
      (p r : Parser Double) (n : ℕ) (k : EventKind) (ks : List EventKind)
      → Calls F p (k ∷ ks) r
      → length (k ∷ ks) ≤ n
      → After k (Ends p n)
      → Ends p n
  go_on p r n eof ks c h e = (eof ∷ ks, r, c, tt, h)
  go_on p r n parse_error ks c h e = (parse_error ∷ ks, r, c, tt, h)
  go_on p r n start_node ks c h e = e
  go_on p r n end_node ks c h e = e
  go_on p r n argument ks c h e = e
  go_on p r n property ks c h e = e
  go_on p r n comment ks c h e = e

  calls-Ends :
      (fuel rounds n : ℕ) (p q : Parser Double) (ks : List EventKind)
      → Calls F p ks q
      → All NonEmpty q.tokenizer.reads
      → measure q < fuel
      → measure q < rounds
      → length ks + rounds ≤ n
      → Ends p n
  unfolding reset_event
  calls-Ends fuel zero n p q ks c h f m b = absurd (omega arith)
  calls-Ends fuel (suc rounds) n p q ks c h f m b =
      let x = event_loop-Onward F fuel (reset_event q) h f in
      go_on p x.0 n x.0.event.kind ks (call fuel c x.1) (omega arith) (
        After-map x.0.event.kind
          (λ y.
            let low = y.1 in
            calls-Ends fuel rounds n p x.0 (x.0.event.kind ∷ ks) (call fuel c x.1) y.0 (omega arith)
              (omega arith) (omega arith))
          x.2)

  -- Calls of `kdl_parser_next_event` on a new stream parser, with any options and reads that are not empty,
  -- come to the end of the document or to an error, with at most 16 events for each byte and one more.
  pub create_stream_parser-Ends :
      (reads : List Bytes) (opt : ParseOption)
      → All NonEmpty reads
      → Ends (create_stream_parser reads opt) (16 * length (flatten reads) + 1)
  unfolding create_stream_parser init_parser tokenizer_set_character_set
  create_stream_parser-Ends reads opt h =
      let n = 16 * length (flatten reads) + 1 in
      let ahead = create_stream_tokenizer-Ahead reads h in
      let bound = ahead.1 in
      let p = create_stream_parser reads opt in
      calls-Ends n n n p p [] start ahead.0 (omega arith) (omega arith) (omega arith)
