-- ===== src/MsgId.antt =====
-- src/common/msg_id_utils.cc: the message ids of a thread. An id is a text of 20 decimal digits that
-- starts at random and counts up.
pub mod Counting
use tiny_rpc.Base.{
  ℕ, zero, suc, ◌+◌, ◌-◌, ◌*◌, ◌%◌, ◌^◌, List, [], ◌∷◌, ◌++◌, map, Option, none, some, Bool, true,
  false, ◌||◌, ◌==◌, ltb, if◌then◌else◌, Outcome, ok, err, out_of_bounds, length, replicate, same,
}

abbrev pub g_msg_id_length : ℕ
g_msg_id_length = 20

pub record MsgIds : Type 0 where
  pub t_cur_msg_id_number : List ℕ
  pub t_max_msg_id_number : List ℕ

-- Where the search from the end stops: at the last digit that is not 9, or at -1 (`none`).
unfoldable pub last_non_nine : List ℕ → Option ℕ
last_non_nine [] = none
last_non_nine (c ∷ cs) = elim (last_non_nine cs) [
  | some i ↦ some (suc i)
  | none ↦ if c == b'9' then none else some 0
]

-- Digit `i` counts up, and those behind it are reset.
unfoldable pub count_up : ℕ → List ℕ → List ℕ
count_up i [] = []
count_up zero (c ∷ cs) = (c + 1) ∷ replicate (length cs) b'0'
count_up (suc i) (c ∷ cs) = c ∷ count_up i cs

abbrev pub digit_of : ℕ → ℕ
digit_of byte = byte % 10 + b'0'

-- The id, and the state after the call. `random` is what the first branch reads from /dev/urandom,
-- `none` unless it is 20 bytes. The reset runs to the length of `t_max_msg_id_number`.
unfoldable pub gen_msg_id : Option (List ℕ) → MsgIds → Outcome (List ℕ × MsgIds)
unfolding last_non_nine count_up
gen_msg_id random s =
    let cur = s.t_cur_msg_id_number in
    let max = s.t_max_msg_id_number in
    if (length cur == 0) || same cur max
    then (elim random [
      | none ↦ ok ([], s)
      | some bytes ↦ ok (
        map digit_of bytes,
        record {
          t_cur_msg_id_number = map digit_of bytes;
          t_max_msg_id_number = max ++ replicate g_msg_id_length b'9';
        },
      )
    ])
    else (elim (last_non_nine cur) [
      | none ↦ ok (cur, s)
      | some i ↦
          if ltb (length cur) (length max)
          then err out_of_bounds
          else ok (count_up i cur, record s { t_cur_msg_id_number = count_up i cur })
    ])
