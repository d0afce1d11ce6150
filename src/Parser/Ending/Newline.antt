-- ===== src/Parser/Ending/Newline.antt =====
-- src/parser.c: the rounds of `kdl_parser_next_event` on a newline.
use ckdl.Prelude.{
  subst, ◌+◌, ◌<◌, ◌≤◌, Bytes, List, ℕ, suc, ◌≡◌, refl, subst, arith, Bool, true, false,
  if◌then◌else◌,
}
use ckdl.Number.{Floats}
use ckdl.Tokenizer.{Token, TokenType, newline, whitespace}
use ckdl.Parser.{set_parse_error, State, node_cannot_end_here, Parser, Reply, emitted, silent}
use ckdl.Parser.Node.{close_type, blank_line, on_state, take_type, node_token, next_node}
use ckdl.Parser.InNode.{next_event_in_node, after_line_cont, in_node_token, node_event}
use ckdl.Parser.Next.{node_or_event, handle_as, handle}
use ckdl.Parser.Ending.{rank, token_weight, From, Lowers, After-map}
use ckdl.Parser.Ending.Replies.{
  if-Lowers, pass_space-Lowers, end_of_node-Lowers, emit_waiting-Lowers,
}
use ckdl.Parser.Ending.Rounds.{rank_waiting, rank_in_node, handle-Lowers}

rank_line_cont : (s : State) → s.line_cont ≡ true → rank (record s { line_cont = false }) < rank s
rank_line_cont s h = ground arith

abbrev pub newline_token : Bytes → Token
newline_token v = record { type = newline; value = v }

the_sum : (n : ℕ) → suc n ≡ 1 + n
the_sum n = omega arith

module _ (F : Floats) (d : Bytes) (rs : List Bytes) where
  open F use {Double}

  newline_event-Lowers :
      (v : Bytes) (p : Parser Double)
      → From d rs p
      → p.state.in_node ≡ true
      → Lowers d rs (rank p.state) (next_event_in_node F (newline_token v) p)
  unfolding next_event_in_node after_line_cont node_event take_type close_type in_node_token
      set_parse_error
  newline_event-Lowers v p h k =
      let m = rank p.state in
      let r = rank_in_node p.state k in
      if-Lowers d rs m p.state.line_cont _ _
        (λ e. (h.0, h.1, rw h.2 (let l = rank_line_cont p.state e in omega arith)))
        λ _.
          if-Lowers d rs m p.state.maybe_in_property _ _
            (λ e.
              emit_waiting-Lowers d rs m (newline_token v) p h
                (let q = rank_waiting p.state k e in omega arith))
            λ _.
              if-Lowers d rs m p.state.type_annotation_start _ _ (λ _. tt)
                λ _.
                  if-Lowers d rs m p.state.type_annotation_end _ _ (λ _. tt)
                    (λ _. end_of_node-Lowers d rs m p h.0 h.1 (rw h.2 (omega arith)))

  -- A newline counts as whitespace, or not.
  seen-Lowers :
      (m : ℕ) (v : Bytes) (p : Parser Double) (b : Bool)
      → (b ≡ true → Lowers d rs m (handle_as F whitespace (newline_token v) p))
      → (b ≡ false → Lowers d rs m (node_or_event F (newline_token v) p))
      → Lowers d rs m (handle_as F (if b then whitespace else newline) (newline_token v) p)
  unfolding handle_as
  seen-Lowers m v p true h k = h refl
  seen-Lowers m v p false h k = k refl

  -- A newline in a node, where it does not count as whitespace, lowers the weight.
  pub newline_in_node-Lowers :
      (v : Bytes) (p : Parser Double)
      → From d rs p
      → p.state.in_node ≡ true
      → p.state.newlines_are_whitespace ≡ false
      → Lowers d rs (rank p.state) (handle F (newline_token v) p)
  unfolding handle node_or_event
  newline_in_node-Lowers v p h k l =
      seen-Lowers (rank p.state) v p p.state.newlines_are_whitespace (λ e. ground arith)
        (λ _.
          if-Lowers d rs (rank p.state) p.state.in_node _ _
            (λ _.
              newline_event-Lowers v
                (on_state (λ s. record s { newlines_are_whitespace = false }) p) h k)
            (λ e. ground arith))

  more-Lowers : (m : ℕ) (r : Reply Double) → Lowers d rs m r → Lowers d rs (suc m) r
  more-Lowers m (emitted p) h =
      After-map p.event.kind (λ l. (l.0, l.1, (let b = l.2 in omega arith))) h
  more-Lowers m (silent p) h = (h.0, h.1, (let l = h.2 in omega arith))

  same-Lowers :
      (m : ℕ) (p : Parser Double) → From d rs p → rank p.state ≤ m → Lowers d rs (suc m) (silent p)
  same-Lowers m p h l = (h.0, h.1, rw h.2 (omega arith))

  newline-Lowers :
      (v : Bytes) (p : Parser Double)
      → From d rs p
      → Lowers d rs (suc (rank p.state)) (handle F (newline_token v) p)
  unfolding handle handle_as node_or_event next_node take_type close_type node_token blank_line
      set_parse_error
  newline-Lowers v p h =
      let m = suc (rank p.state) in
      let p' = on_state (λ s. record s { newlines_are_whitespace = false }) p in
      seen-Lowers m v p p.state.newlines_are_whitespace
        (λ _.
          pass_space-Lowers d rs m _ silent p
            (λ q h' l. same-Lowers (rank p.state) q h' (rw l (omega arith))) h)
        (λ _.
          if-Lowers d rs m p.state.in_node _ _
            (λ k. more-Lowers (rank p.state) _ (newline_event-Lowers v p' h k))
            (λ _.
              if-Lowers d rs m p.state.type_annotation_start _ _ (λ _. tt)
                λ _.
                  if-Lowers d rs m p.state.type_annotation_end _ _ (λ _. tt)
                    λ _.
                      if-Lowers d rs m (node_cannot_end_here p.state) _ _ (λ _. tt)
                        (λ _.
                          same-Lowers (rank p.state)
                            (on_state (λ s. record s { whitespace_required = false }) p') h
                            (omega arith))))

  -- A round on a token that waited lowers the weight that it had.
  pub waited-Lowers :
      (type : TokenType) (v : Bytes) (p : Parser Double)
      → From d rs p
      → Lowers d rs
          (token_weight type + rank p.state)
          (handle F (record { type = type; value = v }) p)
  waited-Lowers newline v p h =
      subst (λ m. Lowers d rs m (handle F (newline_token v) p)) (the_sum (rank p.state))
        (newline-Lowers v p h)
  waited-Lowers type v p h =
      handle-Lowers F d rs (8 + rank p.state) (omega arith) (record { type = type; value = v }) p h
        (omega arith)
