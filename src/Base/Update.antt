-- ===== src/Base/Update.antt =====
-- One element of a list set to another value.
use Prim.Native.Nat.{ℕ, zero, suc, ◌<◌}
use mathlib.Core.Path.{◌≡◌, refl, ap}
use mathlib.Core.Logic.{◌≢◌, ◌⊎◌, inl, inr}
use mathlib.Core.List.{List, [], ◌∷◌, map}
use mathlib.Core.Option.{some}
use native.Mathlib.Omega.{arith}
use tiny_rpc.Base.Lists.{length, get_elem?}

module _ {ℓ} {A : Type ℓ} where
  abbrev pub set_elem : List A → ℕ → A → List A
  set_elem [] i a = []
  set_elem (x ∷ xs) zero a = a ∷ xs
  set_elem (x ∷ xs) (suc i) a = x ∷ set_elem xs i a

  pub length-set_elem : (xs : List A) (i : ℕ) (a : A) → length (set_elem xs i a) ≡ length xs
  length-set_elem [] i a = refl
  length-set_elem (x ∷ xs) zero a = refl
  length-set_elem (x ∷ xs) (suc i) a = ap suc (length-set_elem xs i a)

  pub get_elem?-set_elem :
      (xs : List A) (i : ℕ) (a : A) → i < length xs → get_elem? (set_elem xs i a) i ≡ some a
  get_elem?-set_elem [] i a h = absurd (omega arith)
  get_elem?-set_elem (x ∷ xs) zero a h = refl
  get_elem?-set_elem (x ∷ xs) (suc i) a h = get_elem?-set_elem xs i a (omega arith)

  pub get_elem?-set_elem_ne :
      (xs : List A) (i j : ℕ) (a : A) → j ≢ i → get_elem? (set_elem xs i a) j ≡ get_elem? xs j
  get_elem?-set_elem_ne [] i j a n = refl
  get_elem?-set_elem_ne (x ∷ xs) zero zero a n = absurd (n refl)
  get_elem?-set_elem_ne (x ∷ xs) zero (suc j) a n = refl
  get_elem?-set_elem_ne (x ∷ xs) (suc i) zero a n = refl
  get_elem?-set_elem_ne (x ∷ xs) (suc i) (suc j) a n =
      get_elem?-set_elem_ne xs i j a (λ e. n (ap suc e))

  -- What stands in the list afterwards stood there before, or is the new value.
  pub set_elem-cases :
      (xs : List A) (i j : ℕ) (a : A) {b : A}
      → get_elem? (set_elem xs i a) j ≡ some b
      → (b ≡ a) ⊎ (get_elem? xs j ≡ some b)
  set_elem-cases [] i j a h = inr h
  set_elem-cases (x ∷ xs) zero zero a h = inl (cc h)
  set_elem-cases (x ∷ xs) zero (suc j) a h = inr h
  set_elem-cases (x ∷ xs) (suc i) zero a h = inr h
  set_elem-cases (x ∷ xs) (suc i) (suc j) a h = set_elem-cases xs i j a h

pub map-set_elem {ℓ κ} :
    {A : Type ℓ} {B : Type κ} (f : A → B) (xs : List A) (i : ℕ) (a : A)
    → map f (set_elem xs i a) ≡ set_elem (map f xs) i (f a)
map-set_elem f [] i a = refl
map-set_elem f (x ∷ xs) zero a = refl
map-set_elem f (x ∷ xs) (suc i) a = ap (λ ys. f x ∷ ys) (map-set_elem f xs i a)

pub get_elem?-map {ℓ κ} :
    {A : Type ℓ} {B : Type κ} (f : A → B) (xs : List A) (i : ℕ) {b : B}
    → get_elem? (map f xs) i ≡ some b
    → (a : A) × (get_elem? xs i ≡ some a) × (f a ≡ b)
get_elem?-map f [] i h = absurd (cc h)
get_elem?-map f (x ∷ xs) zero h = (x, refl, cc h)
get_elem?-map f (x ∷ xs) (suc i) h = get_elem?-map f xs i h

pub get_elem?-bound {ℓ} :
    {A : Type ℓ} (xs : List A) {a : A} (i : ℕ) → get_elem? xs i ≡ some a → i < length xs
get_elem?-bound [] i h = absurd (cc h)
get_elem?-bound (x ∷ xs) zero h = omega arith
get_elem?-bound (x ∷ xs) (suc i) h = omega (arith, get_elem?-bound xs i h)
