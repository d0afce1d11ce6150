-- ===== src/Kdlpp/Returns.antt =====
-- src/bindings/cpp/src/kdlpp.cpp: `parse` ends.
use ckdl.Prelude.{
  ℕ, zero, suc, ◌*◌, ◌<◌, ◌≡◌, refl, arith, Bool, true, false, Option, none, some, [], Bytes,
  length, All,
}
use ckdl.Grammar.{version_1, version_2}
use ckdl.Number.{Floats}
use ckdl.Tokenizer.Input.{tokenizer_set_character_set}
use ckdl.Tokenizer.Stream.{NonEmpty}
use ckdl.Tokenizer.Progress.Create.{create_string_tokenizer-Ahead}
use ckdl.Parser.{
  ParseOption, EventKind, eof, parse_error, start_node, end_node, argument, property, comment,
  Event, Parser, create_string_parser, init_parser,
}
use ckdl.Parser.Next.{next_event}
use ckdl.Parser.Ending.{After, After-map}
use ckdl.Parser.Ending.Calls.{measure, next_event-Onward}
use ckdl.Options.{read_version}
use ckdl.Kdlpp.{
  ReadState, Result, document, throws_parse_error, throws_logic_error, undefined_behaviour, no_node,
  or_undefined, read_event, read_loop, read_from,
}
use ckdl.Kdlpp.Parse.{KdlVersion, kdl_1, kdl_2, any, parse_version, or_catch, parse}

module _ {D : Type 0} where
  abbrev Returns : Option (Result D) → Type 0
  Returns o = (r : Result D) × (o ≡ some r)

  or_undefined-Returns :
      (s : Option (ReadState D)) (again : ReadState D → Option (Result D))
      → ((s' : ReadState D) → Returns (again s'))
      → Returns (or_undefined s again)
  or_undefined-Returns none again h = (_, refl)
  or_undefined-Returns (some s) again h = h s

  read_event-Returns :
      (kind : EventKind) (ev : Event D) (again : ReadState D → Option (Result D)) (s : ReadState D)
      → After kind ((s' : ReadState D) → Returns (again s'))
      → Returns (read_event kind ev again s)
  unfolding read_event
  read_event-Returns eof ev again s h = (_, refl)
  read_event-Returns parse_error ev again s h = (_, refl)
  read_event-Returns start_node ev again s h = h _
  read_event-Returns end_node ev again s h = or_undefined-Returns _ again h
  read_event-Returns argument ev again s h = or_undefined-Returns _ again h
  read_event-Returns property ev again s h = or_undefined-Returns _ again h
  read_event-Returns comment ev again s h = (_, refl)

  commented-Returns :
      (b : Bool) (o : Option (Result D))
      → Returns o
      → Returns (elim b [ true ↦ some throws_logic_error | false ↦ o ])
  commented-Returns true o h = (_, refl)
  commented-Returns false o h = h

module _ (F : Floats) (fuel : ℕ) where
  open F use {Double}

  read_loop-Returns :
      (n : ℕ) (p : Parser Double) (s : ReadState Double)
      → All NonEmpty p.tokenizer.reads
      → measure p < fuel
      → measure p < n
      → Returns (read_loop (next_event F fuel) n p s)
  unfolding read_loop
  read_loop-Returns zero p s h b c = absurd (omega arith)
  read_loop-Returns (suc n) p s h b c =
      let x = next_event-Onward F fuel p h b in
      let ev = x.0.0 in
      rw (read_loop, x.1)
        (commented-Returns ev.commented _ (
          read_event-Returns ev.kind ev (read_loop (next_event F fuel) n x.0.1) s (
            After-map ev.kind
              (λ y s'.
                let low = y.1 in read_loop-Returns n x.0.1 s' y.0 (omega arith) (omega arith))
              x.2)))

  parse_version-Returns :
      (opts : ParseOption) (text : Bytes)
      → 16 * length text < fuel
      → Returns (parse_version F fuel opts text)
  unfolding parse_version read_from create_string_parser init_parser tokenizer_set_character_set
  parse_version-Returns opts text h =
      let ahead = create_string_tokenizer-Ahead text in
      let bound = ahead.1 in
      read_loop-Returns fuel (create_string_parser text opts)
        (record { stack = []; node_list = no_node }) ahead.0 (omega arith) (omega arith)

  or_catch-Returns :
      (o o' : Option (Result Double)) → Returns o → Returns o' → Returns (or_catch F fuel o o')
  or_catch-Returns (some (throws_parse_error m)) o' h k = k
  or_catch-Returns (some (document v)) o' h k = (_, refl)
  or_catch-Returns (some throws_logic_error) o' h k = (_, refl)
  or_catch-Returns (some undefined_behaviour) o' h k = (_, refl)
  or_catch-Returns none o' h k = h

  -- `parse` of any text, in every version, ends: with a document, an exception, or what the model gives as
  -- undefined behaviour; 16 rounds for each byte are enough.
  pub parse-Returns :
      (text : Bytes) (version : KdlVersion)
      → 16 * length text < fuel
      → (r : Result Double) × (parse F fuel text version ≡ some r)
  unfolding parse
  parse-Returns text kdl_1 h = parse_version-Returns (read_version version_1) text h
  parse-Returns text kdl_2 h = parse_version-Returns (read_version version_2) text h
  parse-Returns text any h =
      or_catch-Returns _ _ (parse_version-Returns (read_version version_2) text h)
        (parse_version-Returns (read_version version_1) text h)
