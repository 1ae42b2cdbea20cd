-- ===== src/MsgId/Counting.antt =====
-- The ids count up by one, until a new random start.
use tiny_rpc.Base.{
  ℕ, zero, suc, ◌+◌, ◌-◌, ◌*◌, ◌^◌, ◌≤◌, ◌≡◌, ◌≢◌, refl, ◌∙◌, sym, ap, inl, inr, List, [], ◌∷◌,
  ◌++◌, map, Option, none, some, arith, All, ok, err, out_of_bounds, length, replicate, same_iff,
  ne→same_false, le→ltb_false, lt→ltb, length-map, Option-cases, length-replicate, length-append,
  ne→==_false,
}
use tiny_rpc.MsgId.{MsgIds, last_non_nine, count_up, gen_msg_id, digit_of, g_msg_id_length}

abbrev pub IsDigit : ℕ → Type 0
IsDigit c = (b'0' ≤ c) × (c ≤ b'9')

-- The number that a text of digits stands for.
abbrev pub value : List ℕ → ℕ
value [] = 0
value (c ∷ cs) = (c - b'0') * 10 ^ length cs + value cs

value_zeros : (n : ℕ) → value (replicate n b'0') ≡ 0
value_zeros zero = refl
value_zeros (suc n) = omega (arith, value_zeros n)

value_nines : (cs : List ℕ) → last_non_nine cs ≡ none → value cs + 1 ≡ 10 ^ length cs
unfolding last_non_nine
value_nines [] e = refl
value_nines (c ∷ cs) e = elim (Option-cases (last_non_nine cs)) [
  | inl f ↦ ground (arith, value_nines cs)
  | inr (j, f) ↦ absurd (ground arith)
]

stops_here :
    (c i : ℕ) (cs : List ℕ)
    → last_non_nine cs ≡ none
    → last_non_nine (c ∷ cs) ≡ some i
    → (i ≡ 0) × (c ≢ b'9')
unfolding last_non_nine
stops_here c i cs f e = ground arith

stops_later :
    (c i j : ℕ) (cs : List ℕ)
    → last_non_nine cs ≡ some j
    → last_non_nine (c ∷ cs) ≡ some i
    → i ≡ suc j
unfolding last_non_nine
stops_later c i j cs f e = ground arith

zeros-IsDigit : (n : ℕ) → All IsDigit (replicate n b'0')
zeros-IsDigit zero = tt
zeros-IsDigit (suc n) = ((omega arith, omega arith), zeros-IsDigit n)

carry :
    (c : ℕ) (cs : List ℕ) (p : ℕ)
    → b'0' ≤ c
    → value cs + 1 ≡ p
    → (c + 1 - b'0') * p + 0 ≡ (c - b'0') * p + value cs + 1
carry c cs p h e = let f : c + 1 - b'0' ≡ suc (c - b'0') = omega arith in rw f (omega arith)

-- The digits behind the one that counts up are all 9.
count_up_lem :
    (cs : List ℕ) (i : ℕ)
    → All IsDigit cs
    → last_non_nine cs ≡ some i
    → (value (count_up i cs) ≡ value cs + 1)
      × All IsDigit (count_up i cs)
      × (length (count_up i cs) ≡ length cs)
unfolding last_non_nine count_up
count_up_lem [] i d e = absurd (ground arith)
count_up_lem (c ∷ cs) i d e = elim (Option-cases (last_non_nine cs)) [
  | inl f ↦
      let (z, n) = stops_here c i cs f e in
      rw z (
        rw (length-replicate {A = ℕ} (length cs) b'0', value_zeros (length cs))
            (carry c cs (10 ^ length cs) d.0.0 (value_nines cs f)),
        ((omega (arith, d.0), omega (arith, d.0, n)), zeros-IsDigit (length cs)),
        ap suc (length-replicate {A = ℕ} (length cs) b'0'),
      )
  | inr (j, f) ↦
      let z = stops_later c i j cs f e in
      let (v, ds, l) = count_up_lem cs j d.1 f in
      rw z (rw (l, v) (omega arith), (d.0, ds), ap suc l)
]

-- What holds between two calls: an id of 20 digits, and 20 nines for the largest one.
pub record IsCounting (s : MsgIds) : Type 0 where
  pub digits : All IsDigit s.t_cur_msg_id_number
  pub cur_length : length s.t_cur_msg_id_number ≡ g_msg_id_length
  pub max_nines : s.t_max_msg_id_number ≡ replicate g_msg_id_length b'9'

all_nines : (cs : List ℕ) → last_non_nine cs ≡ none → cs ≡ replicate (length cs) b'9'
unfolding last_non_nine
all_nines [] e = refl
all_nines (c ∷ cs) e = elim (Option-cases (last_non_nine cs)) [
  | inl f ↦ let h : c ≡ b'9' = ground arith in rw h (ap (◌∷◌ b'9') (all_nines cs f))
  | inr (j, f) ↦ absurd (ground arith)
]

-- From a state with an id of 20 digits that is not the largest one, gen_msg_id returns the id
-- whose number is one more, stores it, reads no random bytes, and keeps the state well formed.
pub gen_msg_id_counts :
    (random : Option (List ℕ)) {s : MsgIds}
    → IsCounting s
    → s.t_cur_msg_id_number ≢ s.t_max_msg_id_number
    → (id : List ℕ) × (s' : MsgIds) × (gen_msg_id random s ≡ ok (id, s'))
      × (value id ≡ value s.t_cur_msg_id_number + 1)
      × (s'.t_cur_msg_id_number ≡ id)
      × IsCounting s'
unfolding gen_msg_id
gen_msg_id_counts random {s} c n = elim (Option-cases (last_non_nine s.t_cur_msg_id_number)) [
  | inl f ↦ absurd (
      n (
        all_nines s.t_cur_msg_id_number f
        ∙ ap (λ k. replicate k b'9') c.cur_length
        ∙ sym c.max_nines))
  | inr (i, f) ↦
      let cur = s.t_cur_msg_id_number in
      let max = s.t_max_msg_id_number in
      let id = count_up i cur in
      let (v, d, l) = count_up_lem cur i c.digits f in
      let full : length max ≡ g_msg_id_length =
        ap length c.max_nines ∙ length-replicate {A = ℕ} g_msg_id_length b'9' in
      (
        id,
        record s { t_cur_msg_id_number = id },
        rw (
          ne→==_false (length cur) 0 (omega (arith, c.cur_length)),
          ne→same_false cur max n,
          f,
          le→ltb_false (length cur) (length max) (omega (arith, c.cur_length, full)),
        ),
        v,
        refl,
        record { digits = d; cur_length = l ∙ c.cur_length; max_nines = c.max_nines },
      )
]

last_digit : (cs : List ℕ) → last_non_nine cs ≢ none → (i : ℕ) × (last_non_nine cs ≡ some i)
last_digit cs n = elim (Option-cases (last_non_nine cs)) [ inl e ↦ absurd (n e) | inr s ↦ s ]

-- When the largest id has been reached, the call that starts anew at random leaves a largest id
-- of 40 nines, and if a digit of the new id is not 9 the call after it writes outside the id.
gen_msg_id_overflow :
    (random : Option (List ℕ)) {s : MsgIds} (bytes : List ℕ)
    → IsCounting s
    → s.t_cur_msg_id_number ≡ s.t_max_msg_id_number
    → length bytes ≡ g_msg_id_length
    → last_non_nine (map digit_of bytes) ≢ none
    → (s' : MsgIds) × (gen_msg_id (some bytes) s ≡ ok (map digit_of bytes, s'))
      × (gen_msg_id random s' ≡ err out_of_bounds)
unfolding gen_msg_id
gen_msg_id_overflow random {s} bytes c e l n =
    let cur = s.t_cur_msg_id_number in
    let max = s.t_max_msg_id_number in
    let id = map digit_of bytes in
    let max' = max ++ replicate g_msg_id_length b'9' in
    let id_length : length id ≡ g_msg_id_length = length-map digit_of bytes ∙ l in
    let full : length max' ≡ 40 =
      length-append max (replicate g_msg_id_length b'9')
      ∙ ap (λ k. k + g_msg_id_length) (ap length (sym e) ∙ c.cur_length) in
    let apart : id ≢ max' = λ q. absurd (omega (arith, ap length q, id_length, full)) in
    let (i, f) = last_digit id n in
    (
      record s { t_cur_msg_id_number = id; t_max_msg_id_number = max' },
      rw (ne→==_false (length cur) 0 (omega (arith, c.cur_length)), (same_iff cur max).1 e),
      rw (
        ne→==_false (length id) 0 (omega (arith, id_length)),
        ne→same_false id max' apart,
        f,
        lt→ltb (length id) (length max') (omega (arith, id_length, full)),
      ),
    )
