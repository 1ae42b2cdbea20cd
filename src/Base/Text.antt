-- ===== src/Base/Text.antt =====
-- Byte strings: literals, equality, and the first place of a byte.
use Prim.Native.Nat.{ℕ, zero, suc}
use Prim.Native.Char.{code}
use Prim.Native.String.{String}
use mathlib.Core.Path.{◌≡◌, refl, ap}
use mathlib.Core.Logic.{◌≢◌, ◌↔◌, inl, inr}
use mathlib.Core.Bool.{Bool, true, false, ◌&&◌}
use mathlib.Core.Option
use mathlib.Core.Option.{Option, none, some}
use mathlib.Core.List.{List, [], ◌∷◌, ◌++◌}
use native.Mathlib.Omega.{arith}
use tiny_rpc.Base.Tests.{Bool-cases, ◌==◌, if◌then◌else◌, ne→==_false}
use tiny_rpc.Base.Lists.{All, length, take, drop}

-- The bytes of an ASCII literal.
abbrev pub codes : String → List ℕ
codes String.[] = []
codes (String.◌∷◌ c s) = code c ∷ codes s

-- `==` of two strings.
unfoldable pub same : List ℕ → List ℕ → Bool
same [] [] = true
same [] (y ∷ ys) = false
same (x ∷ xs) [] = false
same (x ∷ xs) (y ∷ ys) = (x == y) && same xs ys

pub same_refl : (xs : List ℕ) → same xs xs ≡ true
unfolding same
same_refl [] = refl
same_refl (x ∷ xs) = ground (arith, same_refl xs)

pub eq_of_same : (xs ys : List ℕ) → same xs ys ≡ true → xs ≡ ys
unfolding same
eq_of_same [] [] h = refl
eq_of_same [] (y ∷ ys) h = cc
eq_of_same (x ∷ xs) [] h = cc
eq_of_same (x ∷ xs) (y ∷ ys) h = ground (arith, eq_of_same xs ys)

pub ne→same_false : (xs ys : List ℕ) → xs ≢ ys → same xs ys ≡ false
ne→same_false xs ys n = elim (Bool-cases (same xs ys)) [
  | inl e ↦ absurd (n (eq_of_same xs ys e))
  | inr e ↦ e
]

pub same_iff : (xs ys : List ℕ) → (same xs ys ≡ true) ↔ (xs ≡ ys)
same_iff xs ys = (eq_of_same xs ys, λ e. rw e (same_refl ys))

-- `find_first_of` for one byte.
unfoldable pub find_first_of : ℕ → List ℕ → Option ℕ
find_first_of c [] = none
find_first_of c (x ∷ xs) =
    let rest = Option.map suc (find_first_of c xs) in if x == c then some 0 else rest

pub find_first_of-append :
    (c : ℕ) (xs ys : List ℕ)
    → All (λ x. x ≢ c) xs
    → find_first_of c (xs ++ c ∷ ys) ≡ some (length xs)
unfolding find_first_of
find_first_of-append c [] ys h = ground arith
find_first_of-append c (x ∷ xs) ys h = rw (ne→==_false x c h.0, find_first_of-append c xs ys h.1)

pub find_first_of-none : (c : ℕ) (xs : List ℕ) → All (λ x. x ≢ c) xs → find_first_of c xs ≡ none
unfolding find_first_of
find_first_of-none c [] h = refl
find_first_of-none c (x ∷ xs) h = rw (ne→==_false x c h.0, find_first_of-none c xs h.1)

-- What stands before the place found has not the byte, and the byte stands there.
pub find_first_of-some :
    (c : ℕ) (xs : List ℕ) (n : ℕ)
    → find_first_of c xs ≡ some n
    → (xs ≡ take n xs ++ c ∷ drop (suc n) xs) × All (λ x. x ≢ c) (take n xs)
unfolding find_first_of
find_first_of-some c [] n h = cc
find_first_of-some c (x ∷ xs) zero h = ground (arith)
find_first_of-some c (x ∷ xs) (suc n) h = ground (arith, find_first_of-some c xs n)

-- The two parts of a text that is cut at a byte.
pub take_front : (s m : List ℕ) (c : ℕ) → take (length s) (s ++ c ∷ m) ≡ s
take_front [] m c = refl
take_front (x ∷ s) m c = ap (◌∷◌ x) (take_front s m c)

pub drop_past : (s m : List ℕ) (c : ℕ) → drop (suc (length s)) (s ++ c ∷ m) ≡ m
drop_past [] m c = refl
drop_past (x ∷ s) m c = drop_past s m c
