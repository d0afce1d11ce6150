-- ===== src/Parser/Ending/Replies.antt =====
-- src/parser.c: what the functions that do not read a value leave to be done.
use ckdl.Prelude.{
  ◌∙◌, not, ◌<◌, ◌≤◌, ◌==◌, inl, inr, Option-cases, Bool-cases, List, ℕ, ◌+◌, ◌-◌, ◌≡◌, refl, arith,
  Bool, true, false, Option, none, some, if◌then◌else◌, Bytes,
}
use ckdl.Tokenizer.{Token, TokenType, end_type}
use ckdl.Tokenizer.Input.{tokenizer_set_character_set}
use ckdl.Parser.{
  v1_only, parser_in_node, argument, parser_outside_node, whitespace_banned_v1,
  node_cannot_end_here, Version, version_1, version_2, State, Value, end_node, Parser, Reply,
  silent, set_version, reset_event, set_parse_error, set_comment_event,
}
use ckdl.Parser.Versions.{Versioned, same, fixed}
use ckdl.Parser.Node.{
  is_active, after_children, apply_slashdash, with_state, on_state, open_type, close_type,
  end_child_block,
}
use ckdl.Parser.InNode.{pass_space, take_equals, emit_waiting, end_of_node_token, open_children}
use ckdl.Parser.Next.{comment_event, start_slashdash}
use ckdl.Parser.InNode.{forget_block, waiting_argument}
use ckdl.Str.UnescapeV2.{borrow_str}
use ckdl.Parser.Ending.{rank, token_weight, waiting_weight, From, Lowers, after, small}

module _ {D : Type 0} (d : Bytes) (rs : List Bytes) (m : ℕ) where
  pub error-Lowers : (message : Bytes) (p : Parser D) → Lowers d rs m (set_parse_error message p)
  unfolding set_parse_error
  error-Lowers message p = tt

  pub set_version-From : (v : Version) (p : Parser D) → From d rs p → From d rs (set_version v p)
  unfolding set_version tokenizer_set_character_set
  set_version-From version_1 p h = h
  set_version-From version_2 p h = h

  set_version-input :
      (v : Version) (p : Parser D)
      → ((set_version v p).tokenizer.document ≡ p.tokenizer.document)
        × ((set_version v p).tokenizer.reads ≡ p.tokenizer.reads)
        × ((set_version v p).next_token ≡ p.next_token)
  unfolding set_version tokenizer_set_character_set
  set_version-input version_1 p = (refl, refl, refl)
  set_version-input version_2 p = (refl, refl, refl)

  pub Versioned-From :
      {p : Parser D} {r : Option (Value D) × Parser D} → Versioned p r → From d rs p → From d rs r.1
  Versioned-From same h = h
  Versioned-From (fixed v e) h = set_version-From v _ h

  pub if-Lowers :
      (b : Bool) (x y : Reply D)
      → (b ≡ true → Lowers d rs m x)
      → (b ≡ false → Lowers d rs m y)
      → Lowers d rs m (if b then x else y)
  if-Lowers true x y h k = h refl
  if-Lowers false x y h k = k refl

  -- What a slashdash swallows leaves the input and the token that waits.
  pub apply_slashdash-Lowers :
      (p : Parser D) → Lowers d rs m (silent p) → Lowers d rs m (apply_slashdash p)
  unfolding apply_slashdash reset_event
  apply_slashdash-Lowers p h =
      if-Lowers (is_active p.slashdash_depth) _ _
        (λ _. if-Lowers p.opt.emit_comments _ _ (λ _. after p.event.kind h) (λ _. h))
        (λ _. after p.event.kind h)

  pub with_state-Lowers :
      (s : State) (p : Parser D)
      → Lowers d rs m (silent (record p { state = s }))
      → Lowers d rs m (with_state s (apply_slashdash p))
  unfolding apply_slashdash reset_event
  with_state-Lowers s p h = elim (Bool-cases (is_active p.slashdash_depth)) [
    | inl e ↦ elim (Bool-cases p.opt.emit_comments) [
      | inl k ↦ rw e (rw k (after p.event.kind h))
      | inr k ↦ rw e (rw k h)
    ]
    | inr e ↦ rw e (after p.event.kind h)
  ]

  -- Whitespace, where what follows does not need it.
  pub pass_space-Lowers :
      (message : Bytes) (k : Parser D → Reply D) (p : Parser D)
      → ((p' : Parser D) → From d rs p' → rank p'.state ≡ rank p.state → Lowers d rs m (k p'))
      → From d rs p
      → Lowers d rs m (pass_space message k p)
  unfolding pass_space set_parse_error set_version
  pass_space-Lowers message k p next h =
      let p' = on_state (λ s. record s { whitespace_required = false }) p in
      let p'' = on_state (λ s. record s { contextually_illegal_whitespace = true }) p' in
      if-Lowers (whitespace_banned_v1 p.state) _ _
        (λ _.
          if-Lowers (v1_only p.opt) _ _ (λ _. tt)
            (λ _. next (set_version version_2 p') (set_version-From version_2 p' h) refl))
        (λ _. if-Lowers p.state.maybe_in_property _ _ (λ _. next p'' h refl) (λ _. next p' h refl))

  -- The end of a node, with a token that waits or none.
  pub end_of_node-Lowers :
      (p : Parser D)
      → p.tokenizer.document ≡ d
      → p.tokenizer.reads ≡ rs
      → waiting_weight p.next_token < m
      → Lowers d rs m (end_of_node_token p)
  unfolding end_of_node_token reset_event set_parse_error
  end_of_node-Lowers p h k l =
      if-Lowers (node_cannot_end_here p.state) _ _ (λ _. tt)
        (λ _.
          let p' = reset_event p in
          apply_slashdash-Lowers
            (record p' {
              state = parser_outside_node;
              depth = p.depth - 1;
              child_block_at_depth = forget_block p.child_block_at_depth (p.depth - 1);
              event = record p'.event { kind = end_node; commented = false };
            })
            (h, k, omega (arith, l)))

  waiting_argument-Lowers :
      (p : Parser D)
      → p.tokenizer.document ≡ d
      → p.tokenizer.reads ≡ rs
      → waiting_weight p.next_token + 2 < m
      → Lowers d rs m (waiting_argument p)
  waiting_argument-Lowers p h k l =
      with_state-Lowers
        (record parser_in_node {
          whitespace_required = not p.state.contextually_illegal_whitespace;
        })
        (record p {
          event = record p.event {
            kind = argument;
            commented = false;
            value = Value.string (borrow_str p.waiting_prop_name);
          };
          waiting_prop_name = none;
        })
        (h, k, l)

  -- The token that ends a property name waits for the next round.
  pub emit_waiting-Lowers :
      (token : Token) (p : Parser D)
      → From d rs p
      → token_weight token.type + 2 < m
      → Lowers d rs m (emit_waiting token p)
  unfolding emit_waiting set_parse_error
  emit_waiting-Lowers token p h l =
      let p' = record p { next_token = some token } in
      let q = set_version-input version_2 p' in
      if-Lowers p.state.bare_property_name _ _
        (λ _.
          if-Lowers (v1_only p.opt) _ _ (λ _. tt)
            (λ _. waiting_argument-Lowers (set_version version_2 p') (q.0 ∙ h.0) (q.1 ∙ h.1) l))
        (λ _. waiting_argument-Lowers p' h.0 h.1 l)

module _ {D : Type 0} (d : Bytes) (rs : List Bytes) (m : ℕ) (low : 8 ≤ m) where
  pub silent-Lowers : (p : Parser D) → From d rs p → Lowers d rs m (silent p)
  silent-Lowers p h = (h.0, h.1, small m low p.next_token p.state h.2)

  pub open_type-Lowers : (p : Parser D) → From d rs p → Lowers d rs m (open_type p)
  unfolding open_type set_parse_error
  open_type-Lowers p h = elim (Option-cases p.event.type_annotation) [
    | inl e ↦ rw e (silent-Lowers (on_state (λ s. record s { type_annotation_start = true }) p) h)
    | inr e ↦ rw (e.1) tt
  ]

  pub close_type-Lowers :
      (type : TokenType) (p : Parser D) → From d rs p → Lowers d rs m (close_type type p)
  unfolding close_type set_parse_error
  close_type-Lowers end_type p h =
      silent-Lowers
        (on_state (λ s. record s { type_annotation_end = false; type_annotation_ended = true }) p) h
  close_type-Lowers _ p h = tt

  pub end_child_block-Lowers : (p : Parser D) → From d rs p → Lowers d rs m (end_child_block p)
  unfolding end_child_block reset_event set_parse_error
  end_child_block-Lowers p h =
      if-Lowers d rs m (p.depth == 0) _ _ (λ _. tt)
        (λ _. (
          h.0,
          h.1,
          small m low p.next_token
              (after_children p.slashdash_depth p.child_block_at_depth (p.depth - 1)) h.2,
        ))

  pub open_children-Lowers : (p : Parser D) → From d rs p → Lowers d rs m (open_children p)
  unfolding open_children reset_event
  open_children-Lowers p h = (h.0, h.1, small m low p.next_token parser_outside_node h.2)

  pub take_equals-Lowers : (p : Parser D) → From d rs p → Lowers d rs m (take_equals p)
  unfolding take_equals set_parse_error
  take_equals-Lowers p h =
      let p' = on_state (λ s. record s { maybe_in_property = false; in_property = true }) p in
      let p'' = on_state (λ s. record s { contextually_illegal_whitespace = false }) p' in
      if-Lowers d rs m p.state.contextually_illegal_whitespace _ _
        (λ _.
          if-Lowers d rs m (v1_only p.opt) _ _ (λ _. tt)
            (λ _.
              silent-Lowers (set_version version_2 p'') (set_version-From d rs m version_2 p'' h)))
        (λ _. silent-Lowers p' h)

  pub comment_event-Lowers :
      (token : Token) (p : Parser D) → From d rs p → Lowers d rs m (comment_event token p)
  unfolding set_comment_event
  comment_event-Lowers token p h =
      if-Lowers d rs m p.opt.emit_comments _ _ (λ _. silent-Lowers p h) (λ _. silent-Lowers p h)

  pub start_slashdash-Lowers : (p : Parser D) → From d rs p → Lowers d rs m (start_slashdash p)
  unfolding start_slashdash
  start_slashdash-Lowers p h =
      (h.0, h.1, small m low p.next_token (record p.state { newlines_are_whitespace = true }) h.2)
