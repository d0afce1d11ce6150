-- ===== src/Emitter/Digits.antt =====
-- src/emitter.c: how `_float_to_string` queues the digits behind the decimal point.
use ckdl.Prelude.{
  ℕ, zero, suc, ◌+◌, Bool, true, false, not, ◌||◌, Option, none, some, [], ◌∷◌, ◌++◌, ◌==◌,
  if◌then◌else◌, Bytes,
}

-- The variables of the loop that hold digits: the text of the buffer, `written_point`, the counts of
-- zeros and nines, and `queued_digit`, which is `none` for -1.
pub record Queue : Type 0 where
  pub text : Bytes
  pub written_point : Bool
  pub zeros : ℕ
  pub nines : ℕ
  pub queued_digit : Option ℕ

abbrev pub replicate : ℕ → ℕ → Bytes
replicate zero c = []
replicate (suc n) c = c ∷ replicate n c

abbrev pub is_queued : Option ℕ → Bool
is_queued none = false
is_queued (some d) = true

abbrev pub queued_text : Option ℕ → Bytes
queued_text none = []
queued_text (some d) = (b'0' + d) ∷ []

-- `if (!written_point)`
abbrev pub point : Bool → Bytes
point written_point = if written_point then [] else b'.' ∷ []

-- "write the queued digit", "queue this one".
unfoldable pub flush : ℕ → Queue → Queue
flush digit q =
    if is_queued q.queued_digit || not (q.zeros == 0) || not (q.nines == 0)
    then record {
      text =
          q.text
          ++ (point q.written_point
              ++ (queued_text q.queued_digit
                  ++ (replicate q.zeros b'0' ++ replicate q.nines b'9')));
      written_point = true;
      zeros = 0;
      nines = 0;
      queued_digit = some digit;
    }
    else record q { queued_digit = some digit }

-- A digit from 0 to 9. (One above 9 is only warned about.)
unfoldable pub push_digit : ℕ → Queue → Queue
unfolding flush
push_digit digit q =
    if digit == 0
    then record q { zeros = q.zeros + 1 }
    else if digit == 9
    then record q { nines = q.nines + 1 }
    else flush digit q

-- "Write the queued digit (if any)".
unfoldable pub finish_digits : Queue → Queue
finish_digits q = elim (q.queued_digit) [
  | none ↦ q
  | some d ↦ record q {
    text = q.text ++ (point q.written_point ++ ((b'0' + (if q.nines == 0 then d else suc d)) ∷ []));
    written_point = true;
  }
]
