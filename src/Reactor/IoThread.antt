-- ===== src/Reactor/IoThread.antt =====
-- src/net/io_thread/io_thread.cc: a thread with a loop. The thread that makes it and the new thread
-- take their steps in any order; `sem_wait` is a step only where the semaphore is above 0.
use tiny_rpc.Base.{ℕ, ◌+◌, ◌-◌, ◌≤◌, ◌<◌, ◌≡◌, ◌≢◌, refl, ap, ◌∙◌, Option, none, some, arith}

-- Where `Main` stands, and where the constructor does.
pub data MainAt : Type 0 where
  makes_loop sets_id posts_init waits_start loops returned : MainAt

pub data MakerAt : Type 0 where
  waits_init constructed : MakerAt

-- The loop and the thread are numbers. `starts` counts the calls of `start`.
pub record IoThread : Type 0 where
  pub m_thread_id : Option ℕ
  pub m_event_loop : Option ℕ
  pub m_init_semphore : ℕ
  pub m_start_semphore : ℕ
  pub main : MainAt
  pub maker : MakerAt
  pub starts : ℕ

-- After `pthread_create`.
abbrev pub new_thread : IoThread
new_thread = record {
  m_thread_id = none;
  m_event_loop = none;
  m_init_semphore = 0;
  m_start_semphore = 0;
  main = makes_loop;
  maker = waits_init;
  starts = 0;
}

pub data Step : IoThread → IoThread → Type 0 where
  make_loop :
      (t : IoThread) (loop : ℕ)
      → t.main ≡ makes_loop
      → Step t (record t { m_event_loop = some loop; main = sets_id })
  set_id :
      (t : IoThread) (id : ℕ)
      → t.main ≡ sets_id
      → Step t (record t { m_thread_id = some id; main = posts_init })
  post_init :
      (t : IoThread)
      → t.main ≡ posts_init
      → Step t (record t { m_init_semphore = t.m_init_semphore + 1; main = waits_start })
  begin_loop :
      (t : IoThread)
      → t.main ≡ waits_start
      → 0 < t.m_start_semphore
      → Step t (record t { m_start_semphore = t.m_start_semphore - 1; main = loops })
  end_loop : (t : IoThread) → t.main ≡ loops → Step t (record t { main = returned })
  end_constructor :
      (t : IoThread)
      → t.maker ≡ waits_init
      → 0 < t.m_init_semphore
      → Step t (record t { m_init_semphore = t.m_init_semphore - 1; maker = constructed })
  start :
      (t : IoThread)
      → t.maker ≡ constructed
      → Step t (record t { m_start_semphore = t.m_start_semphore + 1; starts = t.starts + 1 })

pub data Reach : IoThread → Type 0 where
  here : Reach new_thread
  next : {t u : IoThread} → Reach t → Step t u → Reach u

-- How often each side has done its part, by where it stands.
abbrev made : MainAt → ℕ
made makes_loop = 0
made _ = 1

abbrev identified : MainAt → ℕ
identified makes_loop = 0
identified sets_id = 0
identified _ = 1

abbrev posted : MainAt → ℕ
posted makes_loop = 0
posted sets_id = 0
posted posts_init = 0
posted _ = 1

abbrev pub begun : MainAt → ℕ
begun loops = 1
begun returned = 1
begun _ = 0

abbrev waited : MakerAt → ℕ
waited waits_init = 0
waited constructed = 1

abbrev there : Option ℕ → ℕ
there none = 0
there (some n) = 1

record IsSound (t : IoThread) : Type 0 where
  loop : there t.m_event_loop ≡ made t.main
  id : there t.m_thread_id ≡ identified t.main
  init : t.m_init_semphore + waited t.maker ≡ posted t.main
  start : t.m_start_semphore + begun t.main ≡ t.starts

Step-IsSound : {t u : IoThread} → Step t u → IsSound t → IsSound u
Step-IsSound (make_loop t loop e) s = record {
  loop = refl;
  id = s.id ∙ ap identified e;
  init = s.init ∙ ap posted e;
  start = omega (arith, ap begun e, s.start);
}
Step-IsSound (set_id t id e) s = record {
  loop = s.loop ∙ ap made e;
  id = refl;
  init = s.init ∙ ap posted e;
  start = omega (arith, ap begun e, s.start);
}
Step-IsSound (post_init t e) s = record {
  loop = s.loop ∙ ap made e;
  id = s.id ∙ ap identified e;
  init = omega (arith, ap posted e, s.init);
  start = omega (arith, ap begun e, s.start);
}
Step-IsSound (begin_loop t e p) s = record {
  loop = s.loop ∙ ap made e;
  id = s.id ∙ ap identified e;
  init = s.init ∙ ap posted e;
  start = omega (arith, ap begun e, s.start);
}
Step-IsSound (end_loop t e) s = record {
  loop = s.loop ∙ ap made e;
  id = s.id ∙ ap identified e;
  init = s.init ∙ ap posted e;
  start = omega (arith, ap begun e, s.start);
}
Step-IsSound (end_constructor t e p) s = record {
  loop = s.loop;
  id = s.id;
  init = omega (arith, ap waited e, s.init);
  start = s.start;
}
Step-IsSound (start t e) s = record {
  loop = s.loop;
  id = s.id;
  init = s.init;
  start = omega (arith, s.start);
}

Reach-IsSound : {t : IoThread} → Reach t → IsSound t
Reach-IsSound here = record { loop = refl; id = refl; init = refl; start = refl }
Reach-IsSound (next r step) = Step-IsSound step (Reach-IsSound r)

is_there : (o : Option ℕ) → there o ≡ 1 → (n : ℕ) × (o ≡ some n)
is_there none e = absurd (omega (arith, e))
is_there (some n) e = (n, refl)

posted_after : (at : MainAt) → posted at ≡ 1 → (made at ≡ 1) × (identified at ≡ 1)
posted_after makes_loop e = absurd (omega (arith, e))
posted_after sets_id e = absurd (omega (arith, e))
posted_after posts_init e = absurd (omega (arith, e))
posted_after waits_start e = (refl, refl)
posted_after loops e = (refl, refl)
posted_after returned e = (refl, refl)

-- Where `Main` waits, the other thread can go on.
maker_goes_on :
    (t : IoThread) (at : MakerAt)
    → t.maker ≡ at
    → IsSound t
    → t.main ≡ waits_start
    → (u : IoThread) × Step t u
maker_goes_on t waits_init m s e =
    (_, end_constructor t m (omega (arith, ap waited m, ap posted e, s.init)))
maker_goes_on t constructed m s e = (_, start t m)

goes_on :
    (t : IoThread) (at : MainAt)
    → t.main ≡ at
    → at ≢ returned
    → IsSound t
    → (u : IoThread) × Step t u
goes_on t makes_loop e n s = (_, make_loop t 0 e)
goes_on t sets_id e n s = (_, set_id t 0 e)
goes_on t posts_init e n s = (_, post_init t e)
goes_on t waits_start e n s = maker_goes_on t t.maker refl s e
goes_on t loops e n s = (_, end_loop t e)
goes_on t returned e n s = absurd (n refl)

-- What holds of a thread, however the steps of the two sides fall.
pub record IsInOrder (t : IoThread) : Type 0 where
  pub loop_there : t.maker ≡ constructed → (loop : ℕ) × (t.m_event_loop ≡ some loop)
  pub id_there : t.maker ≡ constructed → (id : ℕ) × (t.m_thread_id ≡ some id)
  pub started : begun t.main ≤ t.starts
  pub no_deadlock : t.main ≢ returned → (u : IoThread) × Step t u

-- However the steps of the thread that makes an IO thread and of the new thread fall: when the
-- constructor has ended, the loop and the thread id are there; the loop does not run before
-- start is called; and until Main has returned some side can take a step, where the call of
-- start is one.
pub Reach-IsInOrder : {t : IoThread} → Reach t → IsInOrder t
Reach-IsInOrder {t} r =
    let s = Reach-IsSound r in
    record {
      loop_there = λ m.
          is_there t.m_event_loop (
            s.loop
            ∙ (posted_after t.main (omega (arith, ap waited m, s.init, posted_le t.main))).0);
      id_there = λ m.
          is_there t.m_thread_id
            (s.id ∙ (posted_after t.main (omega (arith, ap waited m, s.init, posted_le t.main))).1);
      started = omega (arith, s.start);
      no_deadlock = λ n. goes_on t t.main refl n s;
    }
  where
    posted_le : (at : MainAt) → posted at ≤ 1
    posted_le makes_loop = omega arith
    posted_le sets_id = omega arith
    posted_le posts_init = omega arith
    posted_le waits_start = omega arith
    posted_le loops = omega arith
    posted_le returned = omega arith
