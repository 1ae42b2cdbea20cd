-- ===== src/Reactor/IoThreadGroup.antt =====
-- src/net/io_thread/io_thread_group.cc, `get_io_thread`: the thread that takes a new connection. The
-- threads are their indices, with the sizes of their task queues at the time of the call.
use native.Mathlib.Decide.{dec_lt}
use tiny_rpc.Base.{
  ℕ, zero, suc, ◌+◌, ◌≤◌, ◌<◌, ◌≡◌, refl, List, [], ◌∷◌, some, arith, ltb, if◌then◌else◌, length,
  get_elem?, Outcome, ok, err, out_of_bounds, inl, inr, ap, ◌++◌, append-nil, append_assoc,
  length-append, lt→ltb, le→ltb_false, ◌⊎◌,
}

-- The `for` loop from index `i` on, with `ans_idx` and `number_fd`.
unfoldable pub least_from : ℕ → ℕ → ℕ → List ℕ → ℕ
least_from i ans_idx number_fd [] = ans_idx
least_from i ans_idx number_fd (size ∷ sizes) =
    let better = ltb size number_fd in
    least_from (i + 1) (if better then i else ans_idx) (if better then size else number_fd) sizes

-- `m_io_thread_groups[0]` is read first, also when the group is empty.
unfoldable pub get_io_thread : List ℕ → Outcome ℕ
get_io_thread [] = err out_of_bounds
get_io_thread (size ∷ sizes) = ok (least_from 1 0 size sizes)

-- `k` is the first place of the least size, `n`.
pub record IsLeast (sizes : List ℕ) (k n : ℕ) : Type 0 where
  pub place : get_elem? sizes k ≡ some n
  pub least : (j m : ℕ) → get_elem? sizes j ≡ some m → n ≤ m
  pub first : (j m : ℕ) → get_elem? sizes j ≡ some m → j < k → n < m

get_elem?-snoc_old :
    (xs : List ℕ) (x k n : ℕ) → get_elem? xs k ≡ some n → get_elem? (xs ++ x ∷ []) k ≡ some n
get_elem?-snoc_old [] x k n h = cc
get_elem?-snoc_old (y ∷ xs) x zero n h = h
get_elem?-snoc_old (y ∷ xs) x (suc k) n h = get_elem?-snoc_old xs x k n h

get_elem?-snoc_new : (xs : List ℕ) (x : ℕ) → get_elem? (xs ++ x ∷ []) (length xs) ≡ some x
get_elem?-snoc_new [] x = refl
get_elem?-snoc_new (y ∷ xs) x = get_elem?-snoc_new xs x

get_elem?-snoc :
    (xs : List ℕ) (x j m : ℕ)
    → get_elem? (xs ++ x ∷ []) j ≡ some m
    → ((get_elem? xs j ≡ some m) × (j < length xs)) ⊎ ((j ≡ length xs) × (m ≡ x))
get_elem?-snoc [] x zero m h = inr (refl, ground arith)
get_elem?-snoc [] x (suc j) m h = cc
get_elem?-snoc (y ∷ xs) x zero m h = inl (h, omega arith)
get_elem?-snoc (y ∷ xs) x (suc j) m h = elim (get_elem?-snoc xs x j m h) [
  | inl (e, lt) ↦ inl (e, omega arith)
  | inr (e, f) ↦ inr (ap suc e, f)
]

module _ (xs : List ℕ) (x k n : ℕ) (h : IsLeast xs k n) where
  snoc_kept : n ≤ x → k < length xs → IsLeast (xs ++ x ∷ []) k n
  snoc_kept le lt = record {
    place = get_elem?-snoc_old xs x k n h.place;
    least = λ j m e. elim (get_elem?-snoc xs x j m e) [
      | inl (f, _) ↦ h.least j m f
      | inr (_, f) ↦ omega arith
    ];
    first = λ j m e before. elim (get_elem?-snoc xs x j m e) [
      | inl (f, _) ↦ h.first j m f before
      | inr (f, _) ↦ absurd (omega arith)
    ];
  }

  snoc_taken : x < n → IsLeast (xs ++ x ∷ []) (length xs) x
  snoc_taken lt = record {
    place = get_elem?-snoc_new xs x;
    least = λ j m e. elim (get_elem?-snoc xs x j m e) [
      | inl (f, _) ↦ omega (arith, h.least j m f)
      | inr (_, f) ↦ omega arith
    ];
    first = λ j m e before. elim (get_elem?-snoc xs x j m e) [
      | inl (f, _) ↦ omega (arith, h.least j m f)
      | inr (f, _) ↦ absurd (omega arith)
    ];
  }

least_from-IsLeast :
    (xs sizes : List ℕ) (k n : ℕ)
    → IsLeast xs k n
    → k < length xs
    → (m : ℕ) × IsLeast (xs ++ sizes) (least_from (length xs) k n sizes) m
unfolding least_from
least_from-IsLeast xs [] k n h lt = (n, rw append-nil h)
least_from-IsLeast xs (x ∷ sizes) k n h lt =
    let grown : length xs + 1 ≡ length (xs ++ x ∷ []) = omega (arith, length-append xs (x ∷ [])) in
    rw (grown, ← append_assoc xs (x ∷ []) sizes)
      (elim (dec_lt x n) [
        | yes p ↦ rw (lt→ltb x n p) (
            least_from-IsLeast (xs ++ x ∷ []) sizes (length xs) x (snoc_taken xs x k n h p)
              (omega arith))
        | no p ↦ rw (le→ltb_false x n (omega arith)) (
            least_from-IsLeast (xs ++ x ∷ []) sizes k n (snoc_kept xs x k n h (omega arith) lt)
              (omega arith))
      ])

only_one : (size j m : ℕ) → get_elem? (size ∷ []) j ≡ some m → size ≤ m
only_one size zero m e = ground arith
only_one size (suc j) m e = cc

-- get_io_thread on a group that is not empty returns the first of the threads with the fewest
-- pending tasks.
pub get_io_thread_lem :
    (size : ℕ) (sizes : List ℕ)
    → (k n : ℕ) × (get_io_thread (size ∷ sizes) ≡ ok k) × IsLeast (size ∷ sizes) k n
unfolding get_io_thread
get_io_thread_lem size sizes =
    let (n, h) = least_from-IsLeast (size ∷ []) sizes 0 size alone (omega arith) in
    (least_from 1 0 size sizes, n, refl, h)
  where
    alone : IsLeast (size ∷ []) 0 size
    alone = record {
      place = refl;
      least = λ j m e. only_one size j m e;
      first = λ j m e before. absurd (omega arith);
    }
