-- ===== src/Tokenize.antt =====
-- src/utils/ckdl-tokenize.c: the tool that lists the tokens of a document as nodes. The streams that it
-- opens are the reads of the tokenizer and the sink of the emitter.
use ckdl.Prelude.{
  ℕ, zero, suc, ◌<◌, ◌≡◌, refl, arith, Bool, true, false, Option, none, some, List, Bytes, codes,
  length, All,
}
use ckdl.Grammar.{version_2}
use ckdl.Parser.{Value}
use ckdl.Tokenizer.{
  TokenType, start_type, end_type, word, string, multiline_string, raw_string_v1, raw_string_v2,
  raw_multiline_string, single_line_comment, slashdash, multi_line_comment, equals, start_children,
  end_children, newline, semicolon, line_continuation, whitespace, Token, Tokenizer, whole,
}
use ckdl.Tokenizer.Input.{create_stream_tokenizer}
use ckdl.Tokenizer.Stream.{NonEmpty}
use ckdl.Tokenizer.Tokens.{PopResult, popped, end_of_file, error, stuck, pop_token}
use ckdl.Tokenizer.Progress.PopToken.{Answers, pop_token-Answers}
use ckdl.Emitter.{Emitter, WriteFunc, default_emitter_options, create_stream_emitter}
use ckdl.Emitter.Float.{PrintFloats}
use ckdl.Emitter.Nodes.{emit_node, emit_arg, emit_end}

-- The switch over the type of the token.
unfoldable token_type_name : TokenType → Bytes
token_type_name start_type = codes "KDL_TOKEN_START_TYPE"
token_type_name end_type = codes "KDL_TOKEN_END_TYPE"
token_type_name word = codes "KDL_TOKEN_WORD"
token_type_name string = codes "KDL_TOKEN_STRING"
token_type_name multiline_string = codes "KDL_TOKEN_MULTILINE_STRING"
token_type_name raw_string_v1 = codes "KDL_TOKEN_RAW_STRING_V1"
token_type_name raw_string_v2 = codes "KDL_TOKEN_RAW_STRING_V2"
token_type_name raw_multiline_string = codes "KDL_TOKEN_RAW_MULTILINE_STRING"
token_type_name single_line_comment = codes "KDL_TOKEN_SINGLE_LINE_COMMENT"
token_type_name slashdash = codes "KDL_TOKEN_SLASHDASH"
token_type_name multi_line_comment = codes "KDL_TOKEN_MULTI_LINE_COMMENT"
token_type_name equals = codes "KDL_TOKEN_EQUALS"
token_type_name start_children = codes "KDL_TOKEN_START_CHILDREN"
token_type_name end_children = codes "KDL_TOKEN_END_CHILDREN"
token_type_name newline = codes "KDL_TOKEN_NEWLINE"
token_type_name semicolon = codes "KDL_TOKEN_SEMICOLON"
token_type_name line_continuation = codes "KDL_TOKEN_LINE_CONTINUATION"
token_type_name whitespace = codes "KDL_TOKEN_WHITESPACE"

module _ {W : Type 0} (write_func : WriteFunc W) {D : Type 0} (F : PrintFloats D) (digits : ℕ) where
  -- The node of a token, with its text as an argument. What the calls answer is not looked at.
  unfoldable pub print_token : Token → Emitter W → Emitter W
  unfolding token_type_name emit_node emit_arg
  print_token token e =
      (emit_arg write_func F digits none (Value.string token.value)
        (emit_node write_func (token_type_name token.type) e).0).0

  -- The loop of `main`, with `have_error` as its result.
  unfoldable pub tokenize_loop : ℕ → Tokenizer → Emitter W → Option (Bool × Emitter W)
  unfolding pop_token print_token emit_end
  tokenize_loop zero t e = none
  tokenize_loop (suc fuel) t e = elim (pop_token t) [
    | popped token t' ↦ tokenize_loop fuel t' (print_token token e)
    | end_of_file t' ↦ some (false, e)
    | error t' ↦ some (true, (emit_end write_func e).0)
    | stuck ↦ none
  ]

  -- `main`, less the arguments and files: the loop, and the end of the emitter.
  unfoldable pub tokenize : ℕ → List Bytes → W → Option (Bool × Emitter W)
  unfolding tokenize_loop create_stream_tokenizer create_stream_emitter
  tokenize fuel reads sink =
      elim (tokenize_loop fuel (create_stream_tokenizer reads)
        (create_stream_emitter sink (record default_emitter_options { version = version_2 }))) [
          | none ↦ none
          | some r ↦ some (r.0, (emit_end write_func r.1).0)
        ]

  popped-Returns :
      (fuel : ℕ) (t : Tokenizer) (e : Emitter W) (p : PopResult)
      → ((t' : Tokenizer) (e' : Emitter W)
          → All NonEmpty t'.reads
          → length (whole t') < fuel
          → (r : Bool × Emitter W) × (tokenize_loop fuel t' e' ≡ some r))
      → Answers t p
      → length (whole t) < suc fuel
      → (r : Bool × Emitter W) × (elim p [
        | popped token t' ↦ tokenize_loop fuel t' (print_token token e)
        | end_of_file t' ↦ some (false, e)
        | error t' ↦ some (true, (emit_end write_func e).0)
        | stuck ↦ none
      ]
          ≡ some r)
  popped-Returns fuel t e (popped token t') again a h =
      let shorter = a.0 in again t' (print_token token e) a.1 (omega arith)
  popped-Returns fuel t e (end_of_file t') again a h = (_, refl)
  popped-Returns fuel t e (error t') again a h = (_, refl)
  popped-Returns fuel t e stuck again a h = elim a [ ]

  -- The loop ends on every input whose reads are not empty, within one more round than there are bytes.
  pub tokenize_loop-Returns :
      (fuel : ℕ) (t : Tokenizer) (e : Emitter W)
      → All NonEmpty t.reads
      → length (whole t) < fuel
      → (r : Bool × Emitter W) × (tokenize_loop fuel t e ≡ some r)
  unfolding tokenize_loop
  tokenize_loop-Returns zero t e n h = absurd (omega arith)
  tokenize_loop-Returns (suc fuel) t e n h =
      popped-Returns fuel t e (pop_token t) (tokenize_loop-Returns fuel) (pop_token-Answers t n) h
