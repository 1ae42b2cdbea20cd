-- ===== src/Logging/Start.antt =====
-- src/common/log.cc: how the logger of the program is made, and its end.
use tiny_rpc.Base.{
  ℕ, zero, suc, ◌+◌, ◌≤◌, ◌<◌, ◌≡◌, ◌≢◌, refl, sym, ap, ◌∙◌, List, [], ◌∷◌, true, false, Option,
  none, some, arith,
}
use tiny_rpc.Logging.{AsyncLogger, Logger}
use tiny_rpc.Logging.Level.{LogLevel, string_to_loglevel}
use tiny_rpc.Reactor.NewLoop.{ThreadLoops, make_current, get_current_eventloop}
use tiny_rpc.Timer.{TimerEvent, new_event}

-- The threads of the process are not part of the model: the log thread has begun when the constructor
-- ends. The size is a number of the configuration that is not negative.
unfoldable pub new_async_logger : ℕ → AsyncLogger
new_async_logger file_max_size = record {
  m_buffer = [];
  m_file_max_size = file_max_size;
  m_date = [];
  m_file_handler = none;
  m_reopen_flag = false;
  m_number = 0;
  m_stop_flag = false;
  written = [];
}

unfoldable pub stop_async_logger : AsyncLogger → AsyncLogger
stop_async_logger a = record a { m_stop_flag = true }

unfoldable pub stop_logger : Logger → Logger
unfolding stop_async_logger
stop_logger l = record l { m_async_logger = stop_async_logger l.m_async_logger }

-- The callback of the timer event, `sync_loop`.
abbrev pub sync_loop_callback : ℕ
sync_loop_callback = 5

-- `global_logger_ptr`, with the fields that `Logger` does not hold.
pub record GlobalLogger : Type 0 where
  pub m_set_level : LogLevel
  pub logger : Logger
  pub m_timer_evnet : TimerEvent

-- The loops of the thread, the timer events that were added to the timer of a loop, and the loops that
-- are destroyed.
pub record LoopTimers : Type 0 where
  pub loops : ThreadLoops
  pub timer_events : List (ℕ × TimerEvent)
  pub destroyed : List ℕ

-- `EventLoop::Get_Current_Eventloop()->add_timer_event(event)`: the `unique_ptr` is a temporary, which
-- destroys its loop at the end of the statement.
unfoldable pub add_to_temporary : TimerEvent → Option ℕ × ThreadLoops → LoopTimers → LoopTimers
add_to_temporary event (none, loops) p = record p { loops = loops }
add_to_temporary event (some loop, loops) p = record {
  loops = loops;
  timer_events = (loop, event) ∷ p.timer_events;
  destroyed = loop ∷ p.destroyed;
}

-- `Logger::init`, with the reading of the clock for the timer event.
unfoldable pub init_logger : LogLevel → ℕ → ℕ → ℕ → LoopTimers → GlobalLogger × LoopTimers
unfolding new_async_logger new_event add_to_temporary
init_logger level file_max_size interval now p =
    let event = new_event now interval true (some sync_loop_callback) in
    (
      record {
        m_set_level = level;
        logger = record { m_buffer = []; m_async_logger = new_async_logger file_max_size };
        m_timer_evnet = event;
      },
      add_to_temporary event (get_current_eventloop p.loops) p,
    )

unfoldable pub init_global_logger : List ℕ → ℕ → ℕ → ℕ → LoopTimers → GlobalLogger × LoopTimers
unfolding init_logger
init_global_logger log_level file_max_size interval now p =
    init_logger (string_to_loglevel log_level) file_max_size interval now p

-- What the `n`-th of the next calls of `Get_Current_Eventloop` returns, counted from 0.
abbrev pub nth_loop : ℕ → ThreadLoops → Option ℕ
nth_loop zero s = (get_current_eventloop s).0
nth_loop (suc n) s = nth_loop n (get_current_eventloop s).1

-- The loops that are returned from here on are new ones.
later_loops :
    (n : ℕ) (made loop : ℕ)
    → nth_loop n (record { thread_current_eventloop = none; made = made }) ≡ some loop
    → made ≤ loop
unfolding get_current_eventloop make_current
later_loops zero made loop e = ground arith
later_loops (suc n) made loop e = omega (arith, later_loops n (made + 1) loop e)

-- A loop that was made, and the variable is empty.
first_call :
    (current : Option ℕ) (made : ℕ)
    → ((loop : ℕ) → current ≡ some loop → loop < made)
    → (loop : ℕ) × (made' : ℕ) × (get_current_eventloop
          (record { thread_current_eventloop = current; made = made })
        ≡ (some loop, record { thread_current_eventloop = none; made = made' }))
      × (loop < made')
unfolding get_current_eventloop make_current
first_call none made h = (made, made + 1, refl, omega arith)
first_call (some loop) made h = (loop, made, refl, h loop refl)

-- INIT_GLOBAL_LOGGER adds the timer event of the logger to the timer of a loop that it
-- destroys, and no later call of Get_Current_Eventloop on the thread returns that loop. The
-- loop that the thread variable holds before, if any, is one that the thread has made.
pub sync_timer_lost :
    (log_level : List ℕ) (file_max_size interval now : ℕ) (p : LoopTimers)
    → ((loop : ℕ) → p.loops.thread_current_eventloop ≡ some loop → loop < p.loops.made)
    → let (g, p') = init_global_logger log_level file_max_size interval now p in
      (loop : ℕ) × (p'.timer_events ≡ (loop, g.m_timer_evnet) ∷ p.timer_events)
      × (p'.destroyed ≡ loop ∷ p.destroyed)
      × ((n later : ℕ) → nth_loop n p'.loops ≡ some later → later ≢ loop)
unfolding init_global_logger init_logger add_to_temporary
sync_timer_lost log_level file_max_size interval now p h =
    let (loop, made', e, lt) = first_call p.loops.thread_current_eventloop p.loops.made h in
    let event = new_event now interval true (some sync_loop_callback) in
    let added = λ (r : Option ℕ × ThreadLoops). add_to_temporary event r p in
    (
      loop,
      ap (λ r. (added r).timer_events) e,
      ap (λ r. (added r).destroyed) e,
      λ n later f same_loop.
          omega
            (arith, later_loops n made' later (ap (λ r. nth_loop n (added r).loops) (sym e) ∙ f)),
    )
