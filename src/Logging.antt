-- ===== src/Logging.antt =====
-- src/common/log.cc: the logger of the program, and the thread that writes the log files.
pub mod Delivery
pub mod Level
pub mod LogEvent
pub mod Start
pub mod Stop
use tiny_rpc.Base.{
  ℕ, ◌+◌, List, [], ◌∷◌, ◌++◌, map, Bool, true, false, ◌||◌, not, Option, none, some, ltb,
  if◌then◌else◌, same,
}

-- `AsyncLogger`. A log file is named by the date and the number in its name; `written` holds the
-- lines in the order of the `fwrite` calls, each with the file that it goes to.
pub record AsyncLogger : Type 0 where
  pub m_buffer : List (List (List ℕ))
  pub m_file_max_size : ℕ
  pub m_date : List ℕ
  pub m_file_handler : Option (List ℕ × ℕ)
  pub m_reopen_flag : Bool
  pub m_number : ℕ
  pub m_stop_flag : Bool
  pub written : List ((List ℕ × ℕ) × List ℕ)

-- `Logger`, with the object that `m_async_logger` points to.
pub record Logger : Type 0 where
  pub m_buffer : List (List ℕ)
  pub m_async_logger : AsyncLogger

unfoldable pub push_log_buffer : AsyncLogger → List (List ℕ) → AsyncLogger
push_log_buffer a vec = record a { m_buffer = a.m_buffer ++ vec ∷ [] }

-- A vector is handed over unless it is empty.
unfoldable pub hand_over : AsyncLogger → List (List ℕ) → AsyncLogger
unfolding push_log_buffer
hand_over a [] = a
hand_over a (line ∷ lines) = push_log_buffer a (line ∷ lines)

unfoldable pub push_log : Logger → List ℕ → Logger
push_log l message = record l { m_buffer = l.m_buffer ++ message ∷ [] }

unfoldable pub log : Logger → Logger
unfolding hand_over
log l = record { m_buffer = []; m_async_logger = hand_over l.m_async_logger l.m_buffer }

-- `tmp_vec` is a copy of `m_buffer`, which is then swapped with it.
unfoldable pub sync_loop : Logger → Logger
unfolding hand_over
sync_loop l =
    let tmp_vec = l.m_buffer in
    record { m_buffer = tmp_vec; m_async_logger = hand_over l.m_async_logger l.m_buffer }

-- The first test of `Loop` behind the queue: a new date.
unfoldable pub turn_date : List ℕ → AsyncLogger → AsyncLogger
turn_date date a =
    if same date a.m_date then a else record a { m_number = 0; m_reopen_flag = true; m_date = date }

-- `fopen` of the file that the date and the number name. The model assumes that it succeeds.
abbrev pub reopen : AsyncLogger → AsyncLogger
reopen a = record a { m_file_handler = some (a.m_date, a.m_number); m_reopen_flag = false }

-- The file is opened where none is, and where the flag is set.
unfoldable pub open_unless : Option (List ℕ × ℕ) → AsyncLogger → AsyncLogger
open_unless none a = reopen a
open_unless (some file) a = if a.m_reopen_flag then reopen a else a

unfoldable pub open_file : AsyncLogger → AsyncLogger
unfolding open_unless
open_file a = open_unless a.m_file_handler a

-- `told` is what `ftell` returns. The new name is made before `m_number` counts up.
unfoldable pub rotate : ℕ → AsyncLogger → AsyncLogger
rotate told a =
    if ltb a.m_file_max_size told then record (reopen a) { m_number = a.m_number + 1 } else a

abbrev pub lines_to : Option (List ℕ × ℕ) → List (List ℕ) → List ((List ℕ × ℕ) × List ℕ)
lines_to none lines = []
lines_to (some file) lines = map (λ line. (file, line ++ b'\n' ∷ [])) lines

unfoldable pub write_lines : List (List ℕ) → AsyncLogger → AsyncLogger
write_lines tmp a = record a { written = a.written ++ lines_to a.m_file_handler tmp }

-- One round of `Loop` on a queue that is not empty, with the date and `told`.
unfoldable pub prepare : List ℕ → ℕ → AsyncLogger → AsyncLogger
unfolding turn_date open_file rotate
prepare date told a = rotate told (open_file (turn_date date a))

unfoldable pub write_batch : List ℕ → ℕ → AsyncLogger → List (List (List ℕ)) → AsyncLogger
unfolding prepare write_lines
write_batch date told a [] = a
write_batch date told a (tmp ∷ rest) =
    if a.m_stop_flag then a else write_lines tmp (prepare date told (record a { m_buffer = rest }))

unfoldable pub write_round : List ℕ → ℕ → AsyncLogger → AsyncLogger
unfolding write_batch
write_round date told a = write_batch date told a a.m_buffer

-- `Loop` as long as there are readings.
unfoldable pub write_rounds : List (List ℕ × ℕ) → AsyncLogger → AsyncLogger
unfolding write_round
write_rounds [] a = a
write_rounds ((date, told) ∷ rs) a = write_rounds rs (write_round date told a)
