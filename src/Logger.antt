-- ===== src/Logger.antt =====
-- utils/Logger.h and utils/Logger.cpp: the logger, its lines and the tags of the call sites. What
-- `std::strftime` prints of the time is a parameter. The mutex makes a write one step: a thread
-- that writes is alone.
pub mod Once
pub mod Transcript
mod Tests
use tiny_cp.Base.{ℕ, List, [], ◌∷◌, ◌++◌, Bool, true, false, not, ◌&&◌, ◌||◌, ltb, if◌then◌else◌}
use tiny_cp.Text.{Bytes, codes, written}

pub data LogLevel : Type 0 where
  debug info warn error : LogLevel

-- The values of the enumeration.
unfoldable pub level_value : LogLevel → ℕ
level_value LogLevel.debug = 0
level_value LogLevel.info = 1
level_value LogLevel.warn = 2
level_value LogLevel.error = 3

unfoldable pub level_name : LogLevel → Bytes
level_name LogLevel.debug = codes "DEBUG"
level_name LogLevel.info = codes "INFO"
level_name LogLevel.warn = codes "WARN"
level_name LogLevel.error = codes "ERROR"

-- The logger: its threshold, and what it has printed to `std::cout`.
pub record Logger : Type 0 where
  pub level : LogLevel
  pub printed : Bytes

-- `Logger::instance()` at its first call
abbrev pub new_logger : Logger
new_logger = record { level = LogLevel.info; printed = [] }

unfoldable pub set_level : LogLevel → Logger → Logger
set_level level logger = record logger { level = level }

-- `Logger::Write`, at a time that is printed as `timestamp`.
unfoldable pub write : Bytes → LogLevel → Bytes → Logger → Logger
write timestamp level message logger =
    let line =
      codes "["
      ++ (timestamp
          ++ (codes "][" ++ (level_name level ++ (codes "] " ++ (message ++ codes "\n"))))) in
    if ltb (level_value level) (level_value logger.level)
    then logger
    else record logger { printed = logger.printed ++ line }

-- The class `Line`.
pub record Line : Type 0 where
  pub level : LogLevel
  pub stream : Bytes
  pub active : Bool

abbrev pub new_line : LogLevel → Line
new_line level = record { level = level; stream = []; active = true }

-- `operator<<` of a value that is printed as `text`, or of a manipulator that adds `text`.
unfoldable pub put : Bytes → Line → Line
put text line = record line { stream = line.stream ++ text }

-- The move constructor: the new line, and what is left of the old one. A stream that was moved
-- from has some contents, `left`.
unfoldable pub move : Bytes → Line → Line × Line
move left other = (other, record other { stream = left; active = false })

-- `~Line()`
unfoldable pub destroy : Bytes → Line → Logger → Logger
destroy timestamp line logger =
    if line.active then write timestamp line.level line.stream logger else logger

-- The line that `LogTag::operator<<` returns may be moved on the way out, each time with the old
-- one destroyed. `moves` lists what the old streams are left with.
unfoldable pub pass_out : Bytes → List Bytes → Line → Logger → Line × Logger
pass_out timestamp [] line logger = (line, logger)
pass_out timestamp (left ∷ moves) line logger =
    let moved = move left line in
    pass_out timestamp moves (moved.0) (destroy timestamp (moved.1) logger)

abbrev pub put_all : List Bytes → Line → Line
put_all [] line = line
put_all (text ∷ texts) line = put_all texts (put text line)

-- `#if defined(TCP_DEBUG_LOGGING) || ...`: whether the tags log at all.
abbrev pub Build : Type 0
Build = record {
  tcp_debug_logging : Bool;
  debug_logging : Bool;
  ndebug : Bool;
  disable_logging : Bool;
}

unfoldable pub tcp_logging_enabled : Build → Bool
tcp_logging_enabled b =
    b.tcp_debug_logging || b.debug_logging || (not b.ndebug && not b.disable_logging)

-- The statement `TAG << first << ... << last;`, with `first` printed by the tag and the others by
-- the line. A `NullLogTag` does nothing.
unfoldable pub log_statement :
    Build → Bytes → List Bytes → LogLevel → Bytes → List Bytes → Logger → Logger
log_statement build timestamp moves level first texts logger =
    let tagged = pass_out timestamp moves (put first (new_line level)) logger in
    if tcp_logging_enabled build
    then destroy timestamp (put_all texts (tagged.0)) (tagged.1)
    else logger
