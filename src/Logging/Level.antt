-- ===== src/Logging/Level.antt =====
-- src/include/common/log.h and src/common/log.cc: the levels of the log lines.
use tiny_rpc.Base.{ℕ, ◌≡◌, refl, List, Bool, leb, if◌then◌else◌, same, codes}

pub data LogLevel : Type 0 where
  unknown debug info error : LogLevel

-- The value of the enumerator, plus one: `Unknown` is -1.
abbrev pub rank : LogLevel → ℕ
rank unknown = 0
rank debug = 2
rank info = 3
rank error = 4

unfoldable pub loglevel_to_string : LogLevel → List ℕ
loglevel_to_string debug = codes "Debug"
loglevel_to_string info = codes "Info"
loglevel_to_string error = codes "Error"
loglevel_to_string unknown = codes "Unkown"

unfoldable pub string_to_loglevel : List ℕ → LogLevel
string_to_loglevel log_level =
    if same log_level (codes "Debug")
    then debug
    else if same log_level (codes "Info")
    then info
    else if same log_level (codes "Error")
    then error
    else unknown

-- The test of the macros DEBUG_LOG, INFO_LOG and ERROR_LOG, with the level of the logger.
abbrev pub is_logged : LogLevel → LogLevel → Bool
is_logged log_level level = leb (rank log_level) (rank level)

-- A level is what its text names.
string_to_loglevel-loglevel_to_string :
    (level : LogLevel) → string_to_loglevel (loglevel_to_string level) ≡ level
unfolding string_to_loglevel loglevel_to_string same
string_to_loglevel-loglevel_to_string unknown = refl
string_to_loglevel-loglevel_to_string debug = refl
string_to_loglevel-loglevel_to_string info = refl
string_to_loglevel-loglevel_to_string error = refl
