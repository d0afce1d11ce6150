-- ===== src/Parser/Balance/Events.antt =====
-- src/parser.c: sequences of calls of `kdl_parser_next_event`, and the nodes that their events open and end.
use ckdl.Prelude.{ℕ, suc, ◌+◌, ◌≡◌, refl, arith, true, some, List, [], ◌∷◌, Bytes}
use ckdl.Number.{Floats}
use ckdl.Parser.{
  ParseOption, EventKind, eof, parse_error, start_node, end_node, argument, property, comment,
  Parser, reset_event, create_stream_parser,
}
use ckdl.Parser.Next.{event_loop}
use ckdl.Parser.Balance.{open_nodes, Counts, At}
use ckdl.Parser.Balance.Loop.{event_loop-Counted}

-- Calls of `kdl_parser_next_event`, with the kinds of the events that they return, the last one first.
pub data Calls (F : Floats) (p : Parser F.Double) : List EventKind → Parser F.Double → Type 0 where
  start : Calls F p [] p
  call :
      {ks : List EventKind} {q r : Parser F.Double} (fuel : ℕ)
      → Calls F p ks q
      → event_loop F fuel (reset_event q) ≡ some r
      → Calls F p (r.event.kind ∷ ks) r

abbrev pub starts : List EventKind → ℕ
starts [] = 0
starts (start_node ∷ ks) = suc (starts ks)
starts (_ ∷ ks) = starts ks

abbrev pub ends : List EventKind → ℕ
ends [] = 0
ends (end_node ∷ ks) = suc (ends ks)
ends (_ ∷ ks) = ends ks

-- The last event was the end of the file.
abbrev pub AtEof : List EventKind → Type 0
AtEof (eof ∷ ks) = Unit
AtEof _ = ⊥

-- The count of open nodes so far, and none at the end of the file.
abbrev Balanced : List EventKind → ℕ → Type 0
Balanced ks n = (starts ks ≡ ends ks + n) × (AtEof ks → n ≡ 0)

Counts-Balanced :
    (k : EventKind) (ks : List EventKind) (n m : ℕ)
    → Balanced ks n
    → Counts k n m
    → Balanced (k ∷ ks) m
Counts-Balanced start_node ks n m b c = (omega arith, λ e. elim e [ ])
Counts-Balanced end_node ks n m b c = (omega arith, λ e. elim e [ ])
Counts-Balanced eof ks n m b c = (omega arith, λ e. c.1)
Counts-Balanced parse_error ks n m b c = (omega arith, λ e. elim e [ ])
Counts-Balanced argument ks n m b c = (omega arith, λ e. elim e [ ])
Counts-Balanced property ks n m b c = (omega arith, λ e. elim e [ ])
Counts-Balanced comment ks n m b c = (omega arith, λ e. elim e [ ])

module _ (F : Floats) where
  open F use {Double}

  reset-At : (n : ℕ) (p : Parser Double) → At n p → At n (reset_event p)
  unfolding reset_event
  reset-At n p h = h

  calls-Balanced :
      {p q : Parser Double} {ks : List EventKind}
      → At 0 p
      → Calls F p ks q
      → At (open_nodes q.depth) q × Balanced ks (open_nodes q.depth)
  calls-Balanced h start = ((h.0, refl, h.2), (omega (arith, h.1), λ e. elim e [ ]))
  calls-Balanced {ks = k ∷ ks} h (call {q = q} {r = r} fuel c e) =
      let before = calls-Balanced h c in
      let after =
        event_loop-Counted F (open_nodes q.depth) fuel (reset_event q) r (reset-At _ q before.0)
          e in
      (
        (after.0, refl, after.2),
        Counts-Balanced r.event.kind ks (open_nodes q.depth) (open_nodes r.depth) before.1 after.1,
      )

  init-At :
      (reads : List Bytes) (opt : ParseOption)
      → opt.emit_comments ≡ true
      → At 0 (create_stream_parser {D = Double} reads opt)
  unfolding create_stream_parser
  init-At reads opt h = ground arith

  -- Of the events that a new parser with KDL_EMIT_COMMENTS returns, call after call, as many start a node
  -- as end one, but for the nodes that are open at the depth reached; so no node ends that has not
  -- started, and where the last event is the end of the file, every node that started has ended.
  pub events-Balanced :
      (reads : List Bytes) (opt : ParseOption) {ks : List EventKind} {q : Parser Double}
      → opt.emit_comments ≡ true
      → Calls F (create_stream_parser reads opt) ks q
      → (starts ks ≡ ends ks + open_nodes q.depth) × (AtEof ks → starts ks ≡ ends ks)
  events-Balanced reads opt h c =
      let b = (calls-Balanced (init-At reads opt h) c).1 in (b.0, λ e. omega (arith, b.0, b.1 e))
