-- ===== src/Base/Decimal.antt =====
-- Decimal numbers as texts: `atoi`, and what `fmt` prints for an unsigned integer.
use Prim.Native.Nat.{ℕ, zero, suc, ◌+◌, ◌-◌, ◌*◌, ◌/◌, ◌%◌, ◌≤◌, ◌<◌}
use mathlib.Core.Path.{◌≡◌, sym, ap, ◌∙◌}
use mathlib.Core.Logic.{inl, inr}
use mathlib.Core.Bool.{Bool, true, false, ◌&&◌, ◌||◌}
use mathlib.Core.List.{List, [], ◌∷◌, ◌++◌, append_assoc, append-nil}
use native.Mathlib.Omega.{arith}
use tiny_rpc.Base.Tests.{ltb, leb, ◌==◌, if◌then◌else◌, Bool-cases}

abbrev pub is_digit : ℕ → Bool
is_digit c = leb b'0' c && leb c b'9'

-- `isspace` of the C locale.
abbrev pub is_space : ℕ → Bool
is_space c = (c == b' ') || (leb 9 c && leb c 13)

-- The digits in front, behind `n`.
unfoldable pub atoi_digits : ℕ → List ℕ → ℕ
atoi_digits n [] = n
atoi_digits n (c ∷ cs) =
    let rest = atoi_digits (n * 10 + (c - b'0')) cs in if is_digit c then rest else n

-- Whether the number is negative, and its magnitude.
unfoldable pub atoi_signed : List ℕ → Bool × ℕ
unfolding atoi_digits
atoi_signed [] = (false, 0)
atoi_signed (c ∷ cs) =
    if c == b'-'
    then (true, atoi_digits 0 cs)
    else if c == b'+'
    then (false, atoi_digits 0 cs)
    else (false, atoi_digits 0 (c ∷ cs))

unfoldable pub atoi : List ℕ → Bool × ℕ
unfolding atoi_signed
atoi [] = (false, 0)
atoi (c ∷ cs) = let rest = atoi cs in if is_space c then rest else atoi_signed (c ∷ cs)

unfoldable pub decimal_from : ℕ → ℕ → List ℕ
decimal_from zero n = []
decimal_from (suc fuel) n =
    let tens = decimal_from fuel (n / 10) in
    if ltb n 10 then (b'0' + n) ∷ [] else tens ++ (b'0' + n % 10) ∷ []

unfoldable pub decimal : ℕ → List ℕ
unfolding decimal_from
decimal n = decimal_from (suc n) n

-- The text starts with a digit.
decimal_head :
    (fuel n : ℕ)
    → n < fuel
    → (c : ℕ) × (cs : List ℕ) × (decimal_from fuel n ≡ c ∷ cs) × (b'0' ≤ c) × (c ≤ b'9')
unfolding decimal_from
decimal_head zero n h = absurd (omega arith)
decimal_head (suc fuel) n h = elim (Bool-cases (ltb n 10)) [
  | inl e ↦ (b'0' + n, [], rw e, omega arith, ground arith)
  | inr e ↦
      let (c, cs, f, lo, hi) = decimal_head fuel (n / 10) (ground arith) in
      (c, cs ++ (b'0' + n % 10) ∷ [], rw (e, f), lo, hi)
]

atoi_digits-step :
    (n d : ℕ) (t : List ℕ) → d < 10 → atoi_digits n ((b'0' + d) ∷ t) ≡ atoi_digits (n * 10 + d) t
unfolding atoi_digits
atoi_digits-step n d t h = ground arith

atoi_digits-decimal_from :
    (fuel n : ℕ) (t : List ℕ)
    → n < fuel
    → atoi_digits 0 (decimal_from fuel n ++ t) ≡ atoi_digits n t
unfolding decimal_from
atoi_digits-decimal_from zero n t h = absurd (omega arith)
atoi_digits-decimal_from (suc fuel) n t h = elim (Bool-cases (ltb n 10)) [
  | inl e ↦
      let z : 0 * 10 + n ≡ n = omega arith in
      rw e (atoi_digits-step 0 n t (ground arith) ∙ ap (λ k. atoi_digits k t) z)
  | inr e ↦
      let q : n / 10 * 10 + n % 10 ≡ n = omega arith in
      rw (e, append_assoc (decimal_from fuel (n / 10)) ((b'0' + n % 10) ∷ []) t)
        (atoi_digits-decimal_from fuel (n / 10) ((b'0' + n % 10) ∷ t) (ground arith)
          ∙ atoi_digits-step (n / 10) (n % 10) t (omega arith)
          ∙ ap (λ k. atoi_digits k t) q)
]

atoi_of_digit :
    (c : ℕ) (cs : List ℕ) → b'0' ≤ c → c ≤ b'9' → atoi (c ∷ cs) ≡ (false, atoi_digits 0 (c ∷ cs))
unfolding atoi atoi_signed
atoi_of_digit c cs lo hi = ground arith

-- `atoi` reads back what is printed.
pub atoi-decimal : (n : ℕ) → atoi (decimal n) ≡ (false, n)
unfolding decimal atoi_digits
atoi-decimal n =
    let (c, cs, e, lo, hi) = decimal_head (suc n) n (omega arith) in
    ap atoi e
    ∙ atoi_of_digit c cs lo hi
    ∙ ap (λ t. (false, atoi_digits 0 t)) (sym e ∙ sym (append-nil (decimal_from (suc n) n)))
    ∙ ap (λ k. (false, k)) (atoi_digits-decimal_from (suc n) n [] (omega arith))
