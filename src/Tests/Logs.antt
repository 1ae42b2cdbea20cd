-- ===== src/Tests/Logs.antt =====
-- The logger.
use tiny_rpc.Base.{ℕ, ◌≡◌, ◌≢◌, refl, [], ◌∷◌, map, false, true, none, some, codes}
use tiny_rpc.Logging.{AsyncLogger, Logger, push_log, push_log_buffer, hand_over, log, write_rounds}
use tiny_rpc.Logging.Level.{LogLevel, debug, info, error}
use tiny_rpc.Logging.LogEvent.{
  Tm, LogCall, line_of, log_call, log_calls, with_newline, logged_lines_written,
}
use tiny_rpc.Logging.Stop.{
  LogThread, sleeps, returned, wake_thread, sleep, begins, continues, stop_not_seen,
}
use tiny_rpc.Logging.Start.{LoopTimers, init_global_logger, nth_loop, sync_timer_lost}

abbrev writing : AsyncLogger
writing = record {
  m_buffer = (codes "a" ∷ codes "b" ∷ []) ∷ (codes "c" ∷ []) ∷ [];
  m_file_max_size = 100;
  m_date = codes "20240315";
  m_file_handler = some (codes "20240315", 0);
  m_reopen_flag = false;
  m_number = 0;
  m_stop_flag = false;
  written = [];
}

abbrev logger : Logger
logger = record { m_buffer = codes "d" ∷ []; m_async_logger = writing }

abbrev noon : Tm
noon = record { tm_year = 124; tm_mon = 2; tm_mday = 15; tm_hour = 12; tm_min = 0; tm_sec = 5 }

abbrev use_of : LogLevel → LogCall
use_of level = record {
  level = level;
  file = codes "main.cc";
  line = 10;
  pid = 77;
  thread_id = 78;
  now = noon;
  message = codes "ok";
}

-- Of the two uses the logger of level Info takes the second.
logged_lines_written_example :
    let a = (log (log_calls info (use_of debug ∷ use_of error ∷ []) logger)).m_async_logger in
    map
      (λ w. w.1)
      (write_rounds
        ((codes "20240315", 3) ∷ (codes "20240315", 3) ∷ (codes "20240316", 0) ∷ [])
        a).written
    ≡ map with_newline (codes "a" ∷ codes "b" ∷ codes "c" ∷ codes "d" ∷ line_of (use_of error) ∷ [])
unfolding log log_calls log_call push_log hand_over push_log_buffer
logged_lines_written_example =
    logged_lines_written info (use_of debug ∷ use_of error ∷ []) logger
      ((codes "20240315", 3) ∷ (codes "20240315", 3) ∷ (codes "20240316", 0) ∷ []) refl refl

abbrev one_loop : LoopTimers
one_loop = record {
  loops = record { thread_current_eventloop = none; made = 2 };
  timer_events = [];
  destroyed = [];
}

sync_timer_lost_example :
    let (g, p) = init_global_logger (codes "Info") 1000 500 10 one_loop in
    (loop : ℕ) × (p.timer_events ≡ (loop, g.m_timer_evnet) ∷ [])
    × (p.destroyed ≡ loop ∷ [])
    × ((n later : ℕ) → nth_loop n p.loops ≡ some later → later ≢ loop)
sync_timer_lost_example = sync_timer_lost (codes "Info") 1000 500 10 one_loop (λ loop e. absurd cc)

-- The thread waits for lines and is stopped; a signal that is none wakes it, and it waits again.
abbrev asleep : LogThread
asleep = record { m_buffer = []; m_stop_flag = true; place = sleeps; pushes = 1; taken = [] }

stop_not_seen_example :
    (asleep.taken ≡ asleep.taken) × (asleep.pushes ≡ asleep.pushes → asleep.place ≢ returned)
stop_not_seen_example =
    stop_not_seen {s = asleep} refl refl refl
      (continues (continues begins (wake_thread asleep refl)) (sleep _ refl refl))
