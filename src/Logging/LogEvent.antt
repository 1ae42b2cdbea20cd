-- ===== src/Logging/LogEvent.antt =====
-- src/common/log.cc, `LogEvent`, and the macros of src/include/common/log.h: the text of a log line, from
-- the call of a macro to the log file. Texts are their UTF-8 bytes.
use tiny_rpc.Base.{
  ℕ, ◌+◌, ◌≡◌, refl, sym, ap, ◌∙◌, List, [], ◌∷◌, ◌++◌, map, Bool, true, false, if◌then◌else◌,
  codes, decimal, length, append-nil, append_assoc,
}
use tiny_rpc.Logging.{AsyncLogger, Logger, push_log, log, hand_over, write_rounds}
use tiny_rpc.Logging.Level.{LogLevel, loglevel_to_string, is_logged}
use tiny_rpc.Logging.Delivery.{concat, hand_over_lem, write_rounds_lem}

-- `struct tm`, as far as it is used. The fields are not negative.
pub record Tm : Type 0 where
  pub tm_year : ℕ
  pub tm_mon : ℕ
  pub tm_mday : ℕ
  pub tm_hour : ℕ
  pub tm_min : ℕ
  pub tm_sec : ℕ

pub record LogEvent : Type 0 where
  pub m_file_name : List ℕ
  pub m_file_line : ℕ
  pub m_time : ℕ
  pub m_pid : ℕ
  pub m_thread_pid : ℕ
  pub m_log_level : LogLevel

unfoldable pub new_log_event : LogLevel → LogEvent
new_log_event level = record {
  m_file_name = [];
  m_file_line = 0;
  m_time = 0;
  m_pid = 0;
  m_thread_pid = 0;
  m_log_level = level;
}

-- The words of the format.
abbrev year : List ℕ
year = 229 ∷ 185 ∷ 180 ∷ []

abbrev month : List ℕ
month = 230 ∷ 156 ∷ 136 ∷ []

abbrev day : List ℕ
day = 230 ∷ 151 ∷ 165 ∷ []

abbrev hour : List ℕ
hour = 230 ∷ 151 ∷ 182 ∷ []

abbrev minute : List ℕ
minute = 229 ∷ 136 ∷ 134 ∷ []

abbrev second : List ℕ
second = 231 ∷ 167 ∷ 146 ∷ []

abbrev file_name_word : List ℕ
file_name_word = 230 ∷ 150 ∷ 135 ∷ 228 ∷ 187 ∷ 182 ∷ 229 ∷ 144 ∷ 141 ∷ []

abbrev process_id_word : List ℕ
process_id_word = 232 ∷ 191 ∷ 155 ∷ 231 ∷ 168 ∷ 139 ∷ 229 ∷ 143 ∷ 183 ∷ []

abbrev thread_id_word : List ℕ
thread_id_word = 231 ∷ 186 ∷ 191 ∷ 231 ∷ 168 ∷ 139 ∷ 229 ∷ 143 ∷ 183 ∷ []

-- `fmt::format`, from the date on.
abbrev date_text : Tm → List ℕ
date_text now =
    decimal (now.tm_year + 1900)
    ++ (year
        ++ (decimal (now.tm_mon + 1)
            ++ (month
                ++ (decimal now.tm_mday
                    ++ (day
                        ++ (decimal now.tm_hour
                            ++ (hour
                                ++ (decimal now.tm_min
                                    ++ (minute ++ (decimal now.tm_sec ++ second))))))))))

abbrev place_text : LogEvent → List ℕ
place_text e =
    file_name_word
    ++ (codes " "
        ++ (e.m_file_name
            ++ (codes ":"
                ++ (decimal e.m_file_line
                    ++ (codes ", "
                        ++ (process_id_word
                            ++ (codes ": "
                                ++ (decimal e.m_pid
                                    ++ (codes " "
                                        ++ (thread_id_word
                                            ++ (codes ":" ++ decimal e.m_thread_pid)))))))))))

-- The ids and the local time are what the system returns.
unfoldable pub get_log : LogEvent → ℕ → ℕ → Tm → List ℕ → ℕ → LogEvent × List ℕ
unfolding loglevel_to_string
get_log event pid thread_id now file_name file_line =
    let e = record event {
      m_pid = pid;
      m_thread_pid = thread_id;
      m_file_name = file_name;
      m_file_line = file_line;
    } in
    (
      e,
      codes "["
          ++ (loglevel_to_string e.m_log_level
              ++ (codes "][" ++ (date_text now ++ (codes "][" ++ (place_text e ++ codes "]"))))),
    )

-- A use of DEBUG_LOG, INFO_LOG or ERROR_LOG, with what the system returns there.
pub record LogCall : Type 0 where
  pub level : LogLevel
  pub file : List ℕ
  pub line : ℕ
  pub pid : ℕ
  pub thread_id : ℕ
  pub now : Tm
  pub message : List ℕ

abbrev pub line_of : LogCall → List ℕ
line_of c =
    (get_log (new_log_event c.level) c.pid c.thread_id c.now c.file c.line).1
    ++ (codes " " ++ c.message)

-- The body of the macro; the first argument is the level of the logger.
unfoldable pub log_call : LogLevel → LogCall → Logger → Logger
unfolding push_log
log_call m_set_level c logger =
    if is_logged m_set_level c.level then push_log logger (line_of c) else logger

unfoldable pub log_calls : LogLevel → List LogCall → Logger → Logger
unfolding log_call
log_calls m_set_level [] logger = logger
log_calls m_set_level (c ∷ cs) logger = log_calls m_set_level cs (log_call m_set_level c logger)

-- The lines of the calls at or above the level of the logger.
abbrev pub lines_of : LogLevel → List LogCall → List (List ℕ)
lines_of m_set_level [] = []
lines_of m_set_level (c ∷ cs) =
    (if is_logged m_set_level c.level then line_of c ∷ [] else []) ++ lines_of m_set_level cs

log_call_lem :
    (set : LogLevel) (c : LogCall) (l : Logger)
    → let l' = log_call set c l in
      (l'.m_buffer ≡ l.m_buffer ++ (if is_logged set c.level then line_of c ∷ [] else []))
      × (l'.m_async_logger ≡ l.m_async_logger)
unfolding log_call push_log
log_call_lem set c l = by_test (is_logged set c.level)
  where
    by_test :
        (b : Bool)
        → let l' = if b then push_log l (line_of c) else l in
          (l'.m_buffer ≡ l.m_buffer ++ (if b then line_of c ∷ [] else []))
          × (l'.m_async_logger ≡ l.m_async_logger)
    by_test true = (refl, refl)
    by_test false = (sym (append-nil l.m_buffer), refl)

log_calls_lem :
    (set : LogLevel) (cs : List LogCall) (l : Logger)
    → let l' = log_calls set cs l in
      (l'.m_buffer ≡ l.m_buffer ++ lines_of set cs) × (l'.m_async_logger ≡ l.m_async_logger)
unfolding log_calls
log_calls_lem set [] l = (sym (append-nil l.m_buffer), refl)
log_calls_lem set (c ∷ cs) l =
    let (e, f) = log_call_lem set c l in
    let (e', f') = log_calls_lem set cs (log_call set c l) in
    (
      e'
          ∙ ap (λ xs. xs ++ lines_of set cs) e
          ∙ append_assoc l.m_buffer (if is_logged set c.level then line_of c ∷ [] else [])
              (lines_of set cs),
      f' ∙ f,
    )

hand_over_kept :
    (a : AsyncLogger) (vec : List (List ℕ))
    → let a' = hand_over a vec in (a'.written ≡ a.written) × (a'.m_stop_flag ≡ a.m_stop_flag)
unfolding hand_over
hand_over_kept a [] = (refl, refl)
hand_over_kept a (line ∷ lines) = (refl, refl)

abbrev pub with_newline : List ℕ → List ℕ
with_newline line = line ++ b'\n' ∷ []

-- After any uses of the log macros, a call of log, and as many rounds of the log thread as
-- there are vectors in its queue, the log thread has written, each with a newline, after what
-- it had written before, the lines that waited and then the lines of the uses at or above the
-- level of the logger, once and in order. The log thread is not stopped.
pub logged_lines_written :
    (set : LogLevel) (cs : List LogCall) (l : Logger) (rs : List (List ℕ × ℕ))
    → l.m_async_logger.m_stop_flag ≡ false
    → let a = (log (log_calls set cs l)).m_async_logger in
      length rs ≡ length a.m_buffer
      → (map (λ w. w.1) (write_rounds rs a).written
          ≡ map (λ w. w.1) l.m_async_logger.written
            ++ map with_newline
                (concat l.m_async_logger.m_buffer ++ (l.m_buffer ++ lines_of set cs)))
unfolding log
logged_lines_written set cs l rs s h =
    let (e, f) = log_calls_lem set cs l in
    let l' = log_calls set cs l in
    let a = hand_over l'.m_async_logger l'.m_buffer in
    let (w, k) = hand_over_kept l'.m_async_logger l'.m_buffer in
    let (all, _) = write_rounds_lem rs a (k ∙ ap (λ a. a.m_stop_flag) f ∙ s) h in
    all
    ∙ ap (λ xs. map (λ w. w.1) xs ++ map with_newline (concat a.m_buffer))
        (w ∙ ap (λ a. a.written) f)
    ∙ ap (λ xs. map (λ w. w.1) l.m_async_logger.written ++ map with_newline xs)
        (hand_over_lem l'.m_async_logger l'.m_buffer
          ∙ ap (λ a. concat a.m_buffer ++ l'.m_buffer) f
          ∙ ap (λ xs. concat l.m_async_logger.m_buffer ++ xs) e)
