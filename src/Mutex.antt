-- ===== src/Mutex.antt =====
-- src/include/common/mutex.h: the lock that a scope holds. A mutex is the thread that holds it, if any;
-- a thread that has to wait makes no step.
use tiny_rpc.Base.{
  ℕ, ◌≡◌, ◌≢◌, refl, ap, Bool, true, false, Option, none, some, Outcome, ok, err, deadlock_error,
  not_owner, ◌>>=◌, ◌==◌, if◌then◌else◌, ne→==_false, ==_iff,
}

abbrev pub Mutex : Type 0
Mutex = Option ℕ

-- `pthread_mutex_lock` of a mutex that is free or the thread's own, and `pthread_mutex_unlock`.
unfoldable pub lock : ℕ → Mutex → Outcome Mutex
lock thread none = ok (some thread)
lock thread (some owner) = err deadlock_error

unfoldable pub unlock : ℕ → Mutex → Outcome Mutex
unlock thread none = err not_owner
unlock thread (some owner) = if owner == thread then ok none else err not_owner

-- `ScopeMutex`, with the mutex that it refers to.
pub record ScopeMutex : Type 0 where
  pub m_mutex : Mutex
  pub m_is_lock : Bool

unfoldable pub new_scope : ℕ → Mutex → Outcome ScopeMutex
unfolding lock
new_scope thread mutex = do
  mutex' ← lock thread mutex
  ok (record { m_mutex = mutex'; m_is_lock = true })

unfoldable pub end_scope : ℕ → ScopeMutex → Outcome ScopeMutex
unfolding unlock
end_scope thread scope = do
  mutex' ← unlock thread scope.m_mutex
  ok (record { m_mutex = mutex'; m_is_lock = false })

unfoldable pub scope_lock : ℕ → ScopeMutex → Outcome ScopeMutex
unfolding lock
scope_lock thread scope =
    if scope.m_is_lock
    then ok scope
    else (lock thread scope.m_mutex >>= λ mutex'. ok (record scope { m_mutex = mutex' }))

unfoldable pub scope_unlock : ℕ → ScopeMutex → Outcome ScopeMutex
unfolding unlock
scope_unlock thread scope =
    if scope.m_is_lock
    then (unlock thread scope.m_mutex >>= λ mutex'. ok (record scope { m_mutex = mutex' }))
    else ok scope

-- What `AsyncLogger::push_log_buffer` does with its lock: the scope is unlocked before it ends. By its
-- end another thread, `holder`, may have locked the mutex.
unfoldable pub early_unlock : ℕ → Option ℕ → Outcome ScopeMutex
unfolding new_scope scope_unlock end_scope lock
early_unlock thread holder = do
  scope ← new_scope thread none
  scope' ← scope_unlock thread scope
  mutex ← elim holder [ none ↦ ok scope'.m_mutex | some other ↦ lock other scope'.m_mutex ]
  end_scope thread (record scope' { m_mutex = mutex })

-- A scope that is unlocked before it ends, as in push_log_buffer, unlocks at its end a mutex
-- that its thread does not hold, whether the mutex is free then or another thread has locked
-- it.
early_unlock_faults :
    (thread : ℕ) (holder : Option ℕ)
    → holder ≢ some thread
    → early_unlock thread holder ≡ err not_owner
unfolding early_unlock new_scope scope_unlock end_scope lock unlock
early_unlock_faults thread none n = rw ((==_iff thread thread).1 refl) refl
early_unlock_faults thread (some other) n =
    rw ((==_iff thread thread).1 refl, ne→==_false other thread (λ e. n (ap some e))) refl

-- A scope that is left alone takes a free mutex and leaves it free.
whole_scope :
    (thread : ℕ)
    → (new_scope thread none >>= end_scope thread)
      ≡ ok (record { m_mutex = none; m_is_lock = false })
unfolding new_scope end_scope lock unlock
whole_scope thread = rw ((==_iff thread thread).1 refl) refl
