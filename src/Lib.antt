-- ===== src/Lib.antt =====
-- Verification of ckdl, a reader and writer for the KDL Document Language in C.
--
-- The program. A tokenizer (src/tokenizer.c) cuts a UTF-8 document, which it has as a string or reads
-- piece by piece from a callback, into tokens; a parser (src/parser.c) turns tokens into events, and
-- their words into numbers and strings; an emitter (src/emitter.c) writes nodes and values. All of
-- them decode and encode UTF-8 with src/utf8.c, build and unescape strings with src/str.c, and the
-- parser reads integers of any size with src/bigint.c.
--
-- Which file models which part.
--   Utf8       src/utf8.c: _kdl_pop_codepoint as pop_codepoint, whose result joins kdl_utf8_status,
--              the code point and the rest of the string; _kdl_push_codepoint as push_codepoint.
--   Bits       the bit tests and shifts that the source makes on one byte, as arithmetic.
--   Text       a string as the code points that a loop over _kdl_pop_codepoint sees.
--   Grammar    the character classes, _kdl_is_whitespace and the others of src/tokenizer.c.
--   BigInt     src/bigint.c: _kdl_ubigint as the list of its base 2^32 digits, least first, and each
--              operation as ubigint_... under its own name; the carry is a 64-bit number.
--   Number     _parse_number and the formats below it in src/parser.c, each under its own name; the
--              result is kdl_number of include/kdl/value.h. false is none. Spelling says, apart from
--              the code, which texts spell a number and what number it is.
--   Str        src/str.c: the write buffer with its allocation (Buffer), the escape functions
--              (Escape, Hex), kdl_unescape_v1, kdl_unescape_v2_single_line and, with the dedentation
--              of multi-line strings, kdl_unescape_v2_multi_line (Multiline). The byte loop of
--              kdl_unescape_v1 keeps its place behind a backslash as a state, and so do the loops of
--              version 2 that pop characters ahead.
--   Tokenizer  src/tokenizer.c: struct _kdl_tokenizer as the bytes read and not yet taken, the
--              character set, and what the calls of read_func still to come deliver. Input has
--              _tok_get_char with _refill_tokenizer; Scan has the loops over characters, each as the
--              variables it changes and a step on them; Tokens has kdl_pop_token, _pop_word,
--              _pop_comment and _pop_string. Pointers are offsets from the start of the document.
--   Parser     src/parser.c: struct _kdl_parser with its state word as a record of flags. Words has
--              _parse_value, Node has _apply_slashdash and _next_node, InNode has _next_event_in_node,
--              and Next has kdl_parser_next_event. A function that returns NULL to go on answers
--              silent, one that returns the event answers emitted.
--   Emitter    src/emitter.c: struct _kdl_emitter with the sink of write_func in place of
--              write_user_data. Values and Nodes have the functions under their own names without
--              kdl_; Digits and Float have _float_to_string. Texts and Document say what a document
--              is and how it is laid out.
--   Tokenize   src/utils/ckdl-tokenize.c: the loop of main over kdl_pop_token, which writes each token
--              with the emitter.
--   Cat        src/utils/ckdl-cat.c: the list of properties with its merge sort; Loop has kdl_cat_impl
--              over events and what runs it, Main is src/utils/ckdl-cat-main.c. Document says what the
--              events of a document are.
--   ParseEvents src/utils/ckdl-parse-events.c: the loop of main over kdl_parser_next_event.
--   Options    how these two tools read their arguments.
--   Kdlpp      bindings/cpp/src/kdlpp.cpp: documents in C++ and read_from; Parse has parse and
--              Value::from_string, Emission has emit_nodes and to_string.
--              The pointers of read_from are a stack of open nodes, each with the nodes in front of it;
--              Documents says what document a tree becomes, and what tree a document is.
--   Prelude    shared names, lemmas on lists, orders and integers, and the rulesets of the tactics.
--   Tests      runs on concrete inputs.
-- The parts meet where the source calls: Number stands on BigInt, Str and Tokenizer stand on Utf8
-- and Grammar, the parser takes its tokens from pop_token, its numbers from parse_number and its strings
-- from the unescape functions, and the tokenizer relies on Utf8/Prefix, which says what decoding part of a string
-- tells of the whole.
--
-- Numbers and bounds. A byte and a code point are natural numbers; theorems that need a byte to be
-- below 256 say so. 32-bit wrap-around is written out where the source can reach it, in the digits of
-- \u{...} escapes and in the arithmetic of big integers. Sizes (size_t) and the counters of quotes,
-- hashes and comment depth are natural numbers, as the inputs that overflow them do not fit in
-- memory. Memory allocation is taken to succeed, and freeing has no effect on values.
--
-- Fuel. The sequence of code points of a string has the length of the string as its fuel, since a code
-- point takes a byte at least. A loop of the tokenizer has one more than the bytes still to come. The
-- decimal print of a big integer has room for ten digits for each base 2^32 digit, which is also the
-- buffer that the source allocates. A call of kdl_parser_next_event has its
-- rounds as fuel: a round takes a token that waits or a byte at least, or leaves a state in which less
-- is open, so that 16 rounds for each byte to come and 14 more are enough. An event that more can follow
-- lowers the same measure, so that the loops over events, of the tools and of read_from, have it as their
-- fuel too. The digits of
-- _float_to_string have fuel as an argument, since their end depends on the arithmetic on double; where
-- it runs out, the emitter is marked as one without an answer, and the functions that take an emitter from
-- its creation to its end answer none, as no answer of the source.
--
-- Arithmetic on double is the C library's: its operations are records of functions that
-- _parse_decimal_float and _float_to_string take as parameters.
--
-- Not modelled: the buffer behind the document of a tokenizer, which _refill_tokenizer moves and
-- grows, since the unread bytes that it keeps are all that the tokens depend on; the allocation
-- shim src/compat.c; the constructors, accessors and casts of bindings/cpp/include/kdlpp.h, which only
-- carry values; the binding for Python, which is another program over this library.
pub mod BigInt
pub mod Bits
pub mod Cat
pub mod Emitter
pub mod Grammar
pub mod Kdlpp
pub mod Number
pub mod Options
pub mod ParseEvents
pub mod Parser
pub mod Prelude
pub mod Str
pub mod Tests
pub mod Text
pub mod Tokenize
pub mod Tokenizer
pub mod Utf8
