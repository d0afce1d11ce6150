-- ===== src/Parser/Balance.antt =====
-- src/parser.c: the depth of the parser and the nodes that its events have opened and not ended.
pub mod Loop
pub mod Events
use ckdl.Prelude.{
  ℕ, ◌+◌, ◌-◌, ◌/◌, ◌%◌, ◌≡◌, refl, arith, Bool, true, false, Option, none, some, if◌then◌else◌,
  Bytes,
}
use ckdl.Number.{Floats}
use ckdl.Tokenizer.{Token, TokenType}
use ckdl.Parser.{
  Version, version_1, version_2, State, Value, EventKind, eof, start_node, end_node, Parser, Reply,
  emitted, silent, set_version, reset_event, set_parse_error, set_comment_event,
}
use ckdl.Parser.Words.{parse_value}
use ckdl.Parser.Versions.{Versioned, same, fixed, parse_value-Versioned}
use ckdl.Parser.Node.{
  apply_slashdash, with_state, on_state, open_type, close_type, end_child_block, read_type,
  take_type, read_name, take_name, blank_line, node_token, next_node,
}
use ckdl.Parser.InNode.{
  pass_space, take_equals, emit_waiting, end_of_node_token, open_children, read_argument,
  take_argument, entry_token, in_node_token, node_event, next_event_in_node,
}
use ckdl.Parser.Next.{comment_event, start_slashdash}

-- Each node and each child block adds one to the depth, so that it is odd in a node and even outside.
abbrev pub open_nodes : ℕ → ℕ
open_nodes depth = (depth + 1) / 2

abbrev pub parity : State → ℕ
parity s = if s.in_node then 1 else 0

-- What an event of this kind does to the number of open nodes; at the end of the file there are none.
abbrev pub Counts : EventKind → ℕ → ℕ → Type 0
Counts start_node n m = m ≡ n + 1
Counts end_node n m = m + 1 ≡ n
Counts eof n m = (m ≡ n) × (m ≡ 0)
Counts _ n m = m ≡ n

module _ {D : Type 0} where
  -- A parser that emits what slashdashes comment out, with `n` nodes open.
  abbrev pub At : ℕ → Parser D → Type 0
  At n p = (p.depth % 2 ≡ parity p.state) × (open_nodes p.depth ≡ n) × (p.opt.emit_comments ≡ true)

  -- What a reply does to the number of open nodes.
  abbrev pub Counted : ℕ → Reply D → Type 0
  Counted n (emitted p) =
      (p.depth % 2 ≡ parity p.state)
      × Counts p.event.kind n (open_nodes p.depth)
      × (p.opt.emit_comments ≡ true)
  Counted n (silent p) = At n p

  pub error-Counted :
      (n : ℕ) (message : Bytes) (p : Parser D) → At n p → Counted n (set_parse_error message p)
  unfolding set_parse_error
  error-Counted n message p h = h

  pub set_version-At : (n : ℕ) (v : Version) (p : Parser D) → At n p → At n (set_version v p)
  unfolding set_version
  set_version-At n version_1 p h = h
  set_version-At n version_2 p h = h

  pub open_type-Counted : (n : ℕ) (p : Parser D) → At n p → Counted n (open_type p)
  unfolding open_type
  open_type-Counted n p h = ground arith

  pub close_type-Counted :
      (n : ℕ) (type : TokenType) (p : Parser D) → At n p → Counted n (close_type type p)
  unfolding close_type
  close_type-Counted n type p h = ground arith

  pub end_child_block-Counted :
      (n : ℕ) (p : Parser D) → At n p → p.state.in_node ≡ false → Counted n (end_child_block p)
  unfolding end_child_block
  end_child_block-Counted n p h k = ground arith

  pub Versioned-At :
      (n : ℕ) {p : Parser D} {r : Option (Value D) × Parser D} → Versioned p r → At n p → At n r.1
  Versioned-At n same h = h
  Versioned-At n (fixed v e) h = set_version-At n v _ h

  -- Fixing the version leaves the state alone.
  pub Versioned-state :
      {p : Parser D} {r : Option (Value D) × Parser D} → Versioned p r → r.1.state ≡ p.state
  unfolding set_version
  Versioned-state same = refl
  Versioned-state (fixed v e) = refl

  pub on_state-At :
      (n : ℕ) (f : State → State) (p : Parser D)
      → (f p.state).in_node ≡ p.state.in_node
      → At n p
      → At n (on_state f p)
  on_state-At n f p e h = rw e h

  pub apply_slashdash-Counted :
      (n : ℕ) (p : Parser D) → Counted n (emitted p) → Counted n (apply_slashdash p)
  unfolding apply_slashdash
  apply_slashdash-Counted n p h = ground arith

  pub with_state-Counted :
      (n : ℕ) (s : State) (p : Parser D)
      → s.in_node ≡ p.state.in_node
      → Counted n (apply_slashdash p)
      → Counted n (with_state s (apply_slashdash p))
  unfolding apply_slashdash
  with_state-Counted n s p e h = ground arith

  pub end_of_node_token-Counted :
      (n : ℕ) (p : Parser D) → At n p → p.state.in_node ≡ true → Counted n (end_of_node_token p)
  unfolding end_of_node_token
  end_of_node_token-Counted n p h k = ground arith

  pub open_children-Counted :
      (n : ℕ) (p : Parser D) → At n p → p.state.in_node ≡ true → Counted n (open_children p)
  unfolding open_children
  open_children-Counted n p h k = ground arith

  pub take_equals-Counted : (n : ℕ) (p : Parser D) → At n p → Counted n (take_equals p)
  unfolding take_equals
  take_equals-Counted n p h = ground arith

  pub emit_waiting-Counted :
      (n : ℕ) (token : Token) (p : Parser D)
      → At n p
      → p.state.in_node ≡ true
      → Counted n (emit_waiting token p)
  unfolding emit_waiting
  emit_waiting-Counted n token p h k = ground arith

  -- Whitespace, where what follows keeps the count.
  pub pass_space-Counted :
      (n : ℕ) (message : Bytes) (k : Parser D → Reply D) (p : Parser D)
      → ((p' : Parser D) → p'.state.in_node ≡ p.state.in_node → At n p' → Counted n (k p'))
      → At n p
      → Counted n (pass_space message k p)
  unfolding pass_space
  pass_space-Counted n message k p keep h =
      let p' = on_state (λ s. record s { whitespace_required = false }) p in
      ground (
        arith,
        keep p' refl,
        keep (set_version version_2 p') refl,
        keep (on_state (λ s. record s { contextually_illegal_whitespace = true }) p') refl,
      )

  pub start_slashdash-Counted : (n : ℕ) (p : Parser D) → At n p → Counted n (start_slashdash p)
  unfolding start_slashdash
  start_slashdash-Counted n p h = h

  pub comment_event-Counted :
      (n : ℕ) (token : Token) (p : Parser D) → At n p → Counted n (comment_event token p)
  unfolding set_comment_event
  comment_event-Counted n token p h = ground arith

module _ (F : Floats) where
  open F use {Double}

  pub read_type-Counted :
      (n : ℕ) (v : Option (Value Double)) (p : Parser Double)
      → At n p
      → Counted n (read_type F (v, p))
  unfolding set_parse_error
  read_type-Counted n none p h = h
  read_type-Counted n (some (Value.string s)) p h = h
  read_type-Counted n (some _) p h = h

  pub read_name-Counted :
      (n : ℕ) (v : Option (Value Double)) (p : Parser Double)
      → At n p
      → p.state.in_node ≡ false
      → Counted n (read_name F (v, p))
  unfolding set_parse_error apply_slashdash
  read_name-Counted n none p h k = h
  read_name-Counted n (some (Value.string s)) p h k = ground arith
  read_name-Counted n (some _) p h k = h

  pub read_argument-Counted :
      (n : ℕ) (bare : Bool) (v : Option (Value Double)) (p : Parser Double)
      → At n p
      → p.state.in_node ≡ true
      → Counted n (read_argument F bare (v, p))
  unfolding set_parse_error apply_slashdash set_version
  read_argument-Counted n bare none p h k = h
  read_argument-Counted n bare (some (Value.string s)) p h k = ground arith
  read_argument-Counted n bare (some _) p h k = ground arith

  pub blank_line-Counted : (n : ℕ) (p : Parser Double) → At n p → Counted n (blank_line F p)
  unfolding blank_line
  blank_line-Counted n p h = ground arith
