-- ===== src/Reactor/WakeUp.antt =====
-- src/net/wakeup_fd_event.cc, and the callback of src/net/eventloop.cc that empties the descriptor
-- again. The eventfd is a parameter: its counter, and the calls on it.
use tiny_rpc.Base.{
  ℕ, zero, suc, ◌+◌, ◌*◌, ◌^◌, ◌-◌, ◌<◌, ◌≡◌, refl, List, [], ◌∷◌, Bool, true, false, Option, none,
  some, Outcome, ok, stuck, arith, if◌then◌else◌, length, Bool-cases, inl, inr, ap, ◌∙◌, if-either,
}

-- The errors of `read` that the code tells apart.
pub data Errno : Type 0 where
  eagain other_errno : Errno

unfoldable pub is_eagain : Errno → Bool
is_eagain eagain = true
is_eagain other_errno = false

-- `is_ready` is what `epoll_wait` sees; `read` returns `none` when it has read 8 bytes, and the error
-- where it returns -1.
pub record EventFd (C : Type 0) : Type 0 where
  pub is_ready : C → Bool
  pub write : List ℕ → C → C
  pub read : C → Option Errno × C

abbrev pub little_endian : List ℕ → ℕ
little_endian [] = 0
little_endian (b ∷ bs) = b + 256 * little_endian bs

-- What eventfd(2) and timerfd_create(2) document: the descriptor is readable while its counter is
-- above 0; a read sets the counter to 0, or fails with EAGAIN where it is 0.
pub record IsCounter {C : Type 0} (k : EventFd C) : Type 0 where
  pub read_ready :
      (c : C) → k.is_ready c ≡ true → (c' : C) × (k.read c ≡ (none, c')) × (k.is_ready c' ≡ false)
  pub read_empty : (c : C) → k.is_ready c ≡ false → k.read c ≡ (some eagain, c)

-- What eventfd(2) documents of writing: 8 bytes other than 0 and the largest number leave the counter
-- above 0.
pub record IsEventFd {C : Type 0} (k : EventFd C) : Type 0 where
  pub counter : IsCounter k
  pub write_ready :
      (bytes : List ℕ) (c : C)
      → length bytes ≡ 8
      → 0 < little_endian bytes
      → little_endian bytes < 2 ^ 64 - 1
      → k.is_ready (k.write bytes c) ≡ true

-- `char buf[8] = { 'a' }`.
abbrev pub wake_up_bytes : List ℕ
wake_up_bytes = b'a' ∷ 0 ∷ 0 ∷ 0 ∷ 0 ∷ 0 ∷ 0 ∷ 0 ∷ []

unfoldable pub wakeup : {C : Type 0} → EventFd C → C → C
wakeup k c = k.write wake_up_bytes c

-- The condition of the loop, on what a read returns; `rest` is where it holds.
unfoldable pub after_read : {C : Type 0} → Errno → Option Errno × C → Outcome C → Outcome C
after_read errno (some e, c) rest = ok c
after_read errno (none, c) rest = if is_eagain errno then ok c else rest

-- The `while` loop of the callback, on fuel. `errno` is what the variable holds at the beginning; a
-- read that succeeds leaves it alone.
unfoldable pub deal : {C : Type 0} → EventFd C → ℕ → Errno → C → Outcome C
unfolding after_read
deal k zero errno c = stuck
deal k (suc fuel) errno c =
    let rest = deal k fuel errno (k.read c).1 in after_read errno (k.read c) rest

module _ {C : Type 0} {k : EventFd C} (law : IsEventFd k) where
  pub wakeup_ready : (c : C) → k.is_ready (wakeup k c) ≡ true
  unfolding wakeup
  wakeup_ready c = law.write_ready wake_up_bytes c refl (omega arith) (omega arith)

  deal_empty :
      (fuel : ℕ) (errno : Errno) (c : C) → k.is_ready c ≡ false → deal k (suc fuel) errno c ≡ ok c
  unfolding deal after_read
  deal_empty fuel errno c e =
      ap (λ r. after_read errno r (deal k fuel errno r.1)) (law.counter.read_empty c e)

  deal_ready :
      (fuel : ℕ) (errno : Errno) (c : C)
      → k.is_ready c ≡ true
      → (c' : C) × (deal k (suc (suc fuel)) errno c ≡ ok c') × (k.is_ready c' ≡ false)
  unfolding deal after_read
  deal_ready fuel errno c e =
      let (c', r, empty) = law.counter.read_ready c e in
      (
        c',
        ap (λ r. after_read errno r (deal k (suc fuel) errno r.1)) r
            ∙ ap (λ rest. after_read errno (none, c') rest) (deal_empty fuel errno c' empty)
            ∙ if-either (λ o. o ≡ ok c') (is_eagain errno) refl refl,
        empty,
      )

  -- The callback that empties the wake-up descriptor returns after two reads at most, whatever
  -- errno holds before, and leaves the descriptor not readable. The descriptor does what
  -- eventfd documents.
  deal_ends :
      (fuel : ℕ) (errno : Errno) (c : C)
      → (c' : C) × (deal k (suc (suc fuel)) errno c ≡ ok c') × (k.is_ready c' ≡ false)
  deal_ends fuel errno c = elim (Bool-cases (k.is_ready c)) [
    | inl e ↦ deal_ready fuel errno c e
    | inr e ↦ (c, deal_empty (suc fuel) errno c e, e)
  ]
