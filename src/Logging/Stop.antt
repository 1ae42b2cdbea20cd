-- ===== src/Logging/Stop.antt =====
-- src/common/log.cc: the log thread (`AsyncLogger::Loop`) beside `push_log_buffer` and `stop`. `m_mutex`
-- is free where the thread sleeps in `pthread_cond_wait` and where it writes; a wait can also end
-- without a signal. What the thread does with a vector is one step.
use tiny_rpc.Base.{
  ℕ, ◌+◌, ◌≤◌, ◌≡◌, ◌≢◌, refl, sym, ap, ◌∙◌, List, [], ◌∷◌, ◌++◌, Bool, true, false, arith,
}

-- Where the thread stands: at the flag, at the test of the queue, in the wait, behind the queue.
pub data LogAt : Type 0 where
  tests_flag tests_queue sleeps writes returned : LogAt

-- `pushes` counts the calls of `push_log_buffer`; `taken` are the vectors that are written.
pub record LogThread : Type 0 where
  pub m_buffer : List (List (List ℕ))
  pub m_stop_flag : Bool
  pub place : LogAt
  pub pushes : ℕ
  pub taken : List (List (List ℕ))

-- The thread does not hold `m_mutex`.
abbrev pub leaves_mutex : LogAt → Bool
leaves_mutex tests_queue = false
leaves_mutex _ = true

pub data LogStep : LogThread → LogThread → Type 0 where
  end_thread :
      (t : LogThread)
      → t.place ≡ tests_flag
      → t.m_stop_flag ≡ true
      → LogStep t (record t { place = returned })
  take_mutex :
      (t : LogThread)
      → t.place ≡ tests_flag
      → t.m_stop_flag ≡ false
      → LogStep t (record t { place = tests_queue })
  sleep :
      (t : LogThread)
      → t.place ≡ tests_queue
      → t.m_buffer ≡ []
      → LogStep t (record t { place = sleeps })
  wake_thread : (t : LogThread) → t.place ≡ sleeps → LogStep t (record t { place = tests_queue })
  end_woken :
      (t : LogThread) (vec : List (List ℕ)) (rest : List (List (List ℕ)))
      → t.place ≡ tests_queue
      → t.m_buffer ≡ vec ∷ rest
      → t.m_stop_flag ≡ true
      → LogStep t (record t { place = returned })
  take_vector :
      (t : LogThread) (vec : List (List ℕ)) (rest : List (List (List ℕ)))
      → t.place ≡ tests_queue
      → t.m_buffer ≡ vec ∷ rest
      → t.m_stop_flag ≡ false
      → LogStep t (record t { m_buffer = rest; taken = t.taken ++ vec ∷ []; place = writes })
  end_written : (t : LogThread) → t.place ≡ writes → LogStep t (record t { place = tests_flag })
  push_vector :
      (t : LogThread) (vec : List (List ℕ))
      → leaves_mutex t.place ≡ true
      → LogStep t (record t { m_buffer = t.m_buffer ++ vec ∷ []; pushes = t.pushes + 1 })
  set_flag : (t : LogThread) → LogStep t (record t { m_stop_flag = true })

pub data LogReach (s : LogThread) : LogThread → Type 0 where
  begins : LogReach s s
  continues : {t u : LogThread} → LogReach s t → LogStep t u → LogReach s u

-- In the wait, or on its way to it.
abbrev idles : LogAt → Bool
idles tests_queue = true
idles sleeps = true
idles _ = false

-- The thread is stopped; it writes nothing more than at `s`, and as long as no vector is pushed it idles.
record IsAsleep (s u : LogThread) : Type 0 where
  flag : u.m_stop_flag ≡ true
  written : u.taken ≡ s.taken
  place : u.place ≢ writes
  count : s.pushes ≤ u.pushes
  idle : u.pushes ≡ s.pushes → (idles u.place ≡ true) × (u.m_buffer ≡ [])

differ : true ≡ false → ⊥
differ e = cc

LogStep-IsAsleep : {s t u : LogThread} → LogStep t u → IsAsleep s t → IsAsleep s u
LogStep-IsAsleep (end_thread t e f) h = record {
  flag = h.flag;
  written = h.written;
  place = λ q. absurd cc;
  count = h.count;
  idle = λ same. absurd (differ (sym (h.idle same).0 ∙ ap idles e));
}
LogStep-IsAsleep (take_mutex t e f) h = absurd (differ (sym h.flag ∙ f))
LogStep-IsAsleep (sleep t e f) h = record {
  flag = h.flag;
  written = h.written;
  place = λ q. absurd cc;
  count = h.count;
  idle = λ same. (refl, (h.idle same).1);
}
LogStep-IsAsleep (wake_thread t e) h = record {
  flag = h.flag;
  written = h.written;
  place = λ q. absurd cc;
  count = h.count;
  idle = λ same. (refl, (h.idle same).1);
}
LogStep-IsAsleep (end_woken t vec rest e f g) h = record {
  flag = h.flag;
  written = h.written;
  place = λ q. absurd cc;
  count = h.count;
  idle = λ same. absurd (not_empty (sym f ∙ (h.idle same).1));
}
  where
    not_empty : vec ∷ rest ≡ [] → ⊥
    not_empty q = cc
LogStep-IsAsleep (take_vector t vec rest e f g) h = absurd (differ (sym h.flag ∙ g))
LogStep-IsAsleep (end_written t e) h = absurd (h.place e)
LogStep-IsAsleep (push_vector t vec free) h = record {
  flag = h.flag;
  written = h.written;
  place = h.place;
  count = omega (arith, h.count);
  idle = λ same. absurd (omega (arith, h.count, same));
}
LogStep-IsAsleep (set_flag t) h = record {
  flag = refl;
  written = h.written;
  place = h.place;
  count = h.count;
  idle = h.idle;
}

LogReach-IsAsleep : {s u : LogThread} → LogReach s u → IsAsleep s s → IsAsleep s u
LogReach-IsAsleep begins h = h
LogReach-IsAsleep (continues r step) h = LogStep-IsAsleep step (LogReach-IsAsleep r h)

-- A log thread that waits for lines with an empty queue does not see that it is stopped:
-- however its own steps, further pushes and stops fall from there on, it writes no vector any
-- more, and as long as no vector is pushed it does not return.
pub stop_not_seen :
    {s u : LogThread}
    → s.place ≡ sleeps
    → s.m_buffer ≡ []
    → s.m_stop_flag ≡ true
    → LogReach s u
    → (u.taken ≡ s.taken) × (u.pushes ≡ s.pushes → u.place ≢ returned)
stop_not_seen {s} {u} e f g r =
    let h = LogReach-IsAsleep r (record {
      flag = g;
      written = refl;
      place = λ q. absurd (cc (e, q));
      count = omega arith;
      idle = λ same. (ap idles e, f);
    }) in
    (h.written, λ same q. differ (sym (h.idle same).0 ∙ ap idles q))
