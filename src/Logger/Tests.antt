-- ===== src/Logger/Tests.antt =====
-- The logger in a short run.
use tiny_cp.Base.{◌≡◌, refl, List, [], ◌∷◌, ◌++◌, true, false}
use tiny_cp.Text.{Bytes, codes, written}
use tiny_cp.Logger.{
  LogLevel, Logger, Build, new_logger, tcp_logging_enabled, log_statement, write, level_value,
}
use tiny_cp.Logger.Transcript.{Statement, Event, run, transcript, line_of, run-transcript}

abbrev debug_build : Build
debug_build = record {
  tcp_debug_logging = false;
  debug_logging = false;
  ndebug = false;
  disable_logging = false;
}

abbrev release_build : Build
release_build = record debug_build { ndebug = true }

abbrev statement : LogLevel → Bytes → Statement
statement level text = record {
  timestamp = codes "now";
  moves = codes "" ∷ [];
  level = level;
  first = text;
  texts = [];
}

abbrev events : List Event
events =
    Event.log (statement LogLevel.debug (codes "hidden"))
    ∷ Event.threshold LogLevel.debug
    ∷ Event.log (statement LogLevel.debug (codes "shown"))
    ∷ []

logs : tcp_logging_enabled debug_build ≡ true
unfolding tcp_logging_enabled
logs = refl

release_is_silent : tcp_logging_enabled release_build ≡ false
unfolding tcp_logging_enabled
release_is_silent = refl

run-transcript_example :
    (run debug_build events new_logger).printed ≡ [] ++ transcript LogLevel.info events
run-transcript_example = run-transcript debug_build events new_logger logs

one_line : transcript LogLevel.info events ≡ codes "[now][DEBUG] shown\n"
unfolding transcript line_of level_value tiny_cp.Logger.level_name written
one_line = refl
