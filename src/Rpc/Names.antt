-- ===== src/Rpc/Names.antt =====
-- `parse_service_full_name`: the name is cut at its first dot.
use tiny_rpc.Base.{
  ℕ, suc, ◌≡◌, ◌≢◌, ◌↔◌, sym, ap₂, ◌∙◌, inl, inr, List, ◌∷◌, ◌++◌, Option, none, some, arith, ◌==◌,
  All, length, take, drop, length-append, find_first_of, find_first_of-append, find_first_of-none,
  find_first_of-some, take_front, drop_past, ne→==_false, Option-cases, Bool-cases,
}
use tiny_rpc.Rpc.Dispatcher.{parse_service_full_name}

abbrev pub NoDot : List ℕ → Type 0
NoDot = All (λ c. c ≢ b'.')

none-ne-some {ℓ} : {A : Type ℓ} {a : A} → none ≡ some a → ⊥
none-ne-some e = cc

pub parse_service_full_name-join :
    (s m : List ℕ) → NoDot s → parse_service_full_name (s ++ b'.' ∷ m) ≡ some (s, m)
unfolding parse_service_full_name
parse_service_full_name-join s m h = rw (
  ne→==_false (length (s ++ b'.' ∷ m)) 0 (omega (arith, length-append s (b'.' ∷ m))),
  find_first_of-append b'.' s m h,
  take_front s m b'.',
  drop_past s m b'.',
)

parse_service_full_name-some :
    (name s m : List ℕ)
    → parse_service_full_name name ≡ some (s, m)
    → (name ≡ s ++ b'.' ∷ m) × NoDot s
unfolding parse_service_full_name
parse_service_full_name-some name s m e = elim (Bool-cases (length name == 0)) [
  | inl z ↦ absurd (none-ne-some (sym (rw z) ∙ e))
  | inr z ↦ elim (Option-cases (find_first_of b'.' name)) [
    | inl f ↦ absurd (none-ne-some (sym (rw (z, f)) ∙ e))
    | inr (n, f) ↦
        let r : parse_service_full_name name ≡ some (take n name, drop (suc n) name) = rw (z, f) in
        let q : ◌≡◌ {A = Option (List ℕ × List ℕ)} (some (take n name, drop (suc n) name))
            (some (s, m)) =
          sym r ∙ e in
        let (at, clean) = find_first_of-some b'.' name n f in
        let q₀ : take n name ≡ s = cc in
        let q₁ : drop (suc n) name ≡ m = cc in
        (at ∙ ap₂ (λ a b. a ++ b'.' ∷ b) q₀ q₁, rw (← q₀) clean)
  ]
]

-- parse_service_full_name returns the names s and m exactly where the full name is s, a dot and
-- m, and s holds no dot.
pub parse_service_full_name_iff :
    (name s m : List ℕ)
    → (parse_service_full_name name ≡ some (s, m)) ↔ ((name ≡ s ++ b'.' ∷ m) × NoDot s)
parse_service_full_name_iff name s m =
    (parse_service_full_name-some name s m, λ h. rw (h.0) (parse_service_full_name-join s m h.1))

-- Without a dot, and only then, the name is refused.
pub parse_service_full_name-none :
    (name : List ℕ) → NoDot name → parse_service_full_name name ≡ none
unfolding parse_service_full_name
parse_service_full_name-none name h = rw (find_first_of-none b'.' name h) (ground arith)
