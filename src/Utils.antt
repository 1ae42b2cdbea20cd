-- ===== src/Utils.antt =====
-- src/common/utils.cc: the process, the thread and the time. What `getpid`, `gettid` and `gettimeofday`
-- return is a parameter. `get_int32_from_netbyte` is in Coder/Protocol.antt.
use tiny_rpc.Base.{
  ℕ, ◌+◌, ◌*◌, ◌/◌, ◌≤◌, ◌<◌, ◌≡◌, refl, ap, Option, none, some, arith, ◌==◌, if◌then◌else◌,
  ne→==_false, ◌≢◌,
}

-- A variable that holds the id, or -1 (`none`) before the first call.
unfoldable pub cached_id : Option ℕ → ℕ → ℕ × Option ℕ
cached_id (some id) system_id = (id, some id)
cached_id none system_id = (system_id, some system_id)

unfoldable pub get_pid : Option ℕ → ℕ → ℕ × Option ℕ
unfolding cached_id
get_pid g_pid system_id = cached_id g_pid system_id

-- `g_thread_id` is `thread_local`: one variable for each thread.
unfoldable pub get_thread_id : ℕ → (ℕ → Option ℕ) → ℕ → ℕ × (ℕ → Option ℕ)
unfolding cached_id
get_thread_id thread g_thread_id system_id =
    let (id, variable) = cached_id (g_thread_id thread) system_id in
    (id, λ t. if t == thread then variable else g_thread_id t)

-- Seconds and microseconds.
unfoldable pub get_now_ms : ℕ → ℕ → ℕ
get_now_ms tv_sec tv_usec = tv_sec * 1000 + tv_usec / 1000

-- The id of the first call is the id of each later one, whatever the system says then.
get_pid_stays :
    (g_pid : Option ℕ) (first second : ℕ)
    → let (id, g_pid') = get_pid g_pid first in (get_pid g_pid' second).0 ≡ id
unfolding get_pid cached_id
get_pid_stays none first second = refl
get_pid_stays (some id) first second = refl

-- A call on one thread leaves the variables of the others.
get_thread_id_local :
    (thread other : ℕ) (g_thread_id : ℕ → Option ℕ) (system_id : ℕ)
    → other ≢ thread
    → (get_thread_id thread g_thread_id system_id).1 other ≡ g_thread_id other
unfolding get_thread_id
get_thread_id_local thread other g_thread_id system_id n =
    ap (λ b. if b then (cached_id (g_thread_id thread) system_id).1 else g_thread_id other)
      (ne→==_false other thread n)

-- The milliseconds do not run backwards where the clock does not.
get_now_ms_monotone :
    (s u s' u' : ℕ)
    → u < 1000000
    → u' < 1000000
    → s * 1000000 + u ≤ s' * 1000000 + u'
    → get_now_ms s u ≤ get_now_ms s' u'
unfolding get_now_ms
get_now_ms_monotone s u s' u' h h' le = omega arith
