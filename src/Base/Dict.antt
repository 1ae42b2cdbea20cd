-- ===== src/Base/Dict.antt =====
-- `std::map` from strings: a list of pairs with the operations that the code uses.
use mathlib.Core.Path.{◌≡◌, refl}
use mathlib.Core.Option.{Option, none, some}
use mathlib.Core.List.{List, [], ◌∷◌}
use Prim.Native.Nat.{ℕ}
use native.Mathlib.Omega.{arith}
use tiny_rpc.Base.Tests.{if◌then◌else◌}
use tiny_rpc.Base.Text.{same, same_iff}

module _ {ℓ} {V : Type ℓ} where
  -- `find`.
  unfoldable pub lookup : List ℕ → List (List ℕ × V) → Option V
  lookup k [] = none
  lookup k ((j, v) ∷ m) = if same j k then some v else lookup k m

  -- `m[k] = v`: a value that is there is replaced.
  unfoldable pub assign : List ℕ → V → List (List ℕ × V) → List (List ℕ × V)
  assign k v [] = (k, v) ∷ []
  assign k v ((j, w) ∷ m) = if same j k then (k, v) ∷ m else (j, w) ∷ assign k v m

  -- `m.insert({k, v})`: a value that is there stays.
  unfoldable pub insert_new : List ℕ → V → List (List ℕ × V) → List (List ℕ × V)
  insert_new k v [] = (k, v) ∷ []
  insert_new k v ((j, w) ∷ m) = if same j k then (j, w) ∷ m else (j, w) ∷ insert_new k v m

  pub lookup-assign :
      (k j : List ℕ) (v : V) (m : List (List ℕ × V))
      → lookup j (assign k v m) ≡ (if same k j then some v else lookup j m)
  unfolding lookup assign
  lookup-assign k j v [] = refl
  lookup-assign k j v ((i, w) ∷ m) =
      ground (arith, same_iff k j, same_iff i k, same_iff i j, lookup-assign k j v m)

  pub lookup-insert_new :
      (k j : List ℕ) (v : V) (m : List (List ℕ × V))
      → lookup j (insert_new k v m)
        ≡ (elim (lookup j m) [ some w ↦ some w | none ↦ if same k j then some v else none ])
  unfolding lookup insert_new
  lookup-insert_new k j v [] = ground arith
  lookup-insert_new k j v ((i, w) ∷ m) =
      ground (arith, same_iff k j, same_iff i k, same_iff i j, lookup-insert_new k j v m)
