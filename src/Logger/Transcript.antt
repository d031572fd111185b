-- ===== src/Logger/Transcript.antt =====
-- The output of a run: statements that log and changes of the threshold, in their order.
use mathlib.Core.List.{append_assoc, append-nil}
use tiny_cp.Base.{
  ◌≡◌, refl, sym, ap, ◌∙◌, List, [], ◌∷◌, ◌++◌, true, false, ltb, if◌then◌else◌, Bool-cases, inl,
  inr,
}
use tiny_cp.Text.{Bytes, codes, written}
use tiny_cp.Logger.{
  LogLevel, Logger, Build, write, set_level, log_statement, level_value, level_name,
  tcp_logging_enabled,
}
use tiny_cp.Logger.Once.{log_statement-write}

pub record Statement : Type 0 where
  pub timestamp : Bytes
  pub moves : List Bytes
  pub level : LogLevel
  pub first : Bytes
  pub texts : List Bytes

pub data Event : Type 0 where
  log : Statement → Event
  threshold : LogLevel → Event

pub run : Build → List Event → Logger → Logger
run build [] logger = logger
run build (Event.threshold level ∷ events) logger = run build events (set_level level logger)
run build (Event.log s ∷ events) logger =
    run build events (log_statement build s.timestamp s.moves s.level s.first s.texts logger)

-- A line of the output: time, level and message.
unfoldable pub line_of : Statement → Bytes
line_of s =
    codes "["
    ++ (s.timestamp
        ++ (codes "]["
            ++ (level_name s.level ++ (codes "] " ++ (written (s.first ∷ s.texts) ++ codes "\n")))))

-- The lines whose level is not below the threshold that holds where they stand.
unfoldable pub transcript : LogLevel → List Event → Bytes
transcript least [] = []
transcript least (Event.threshold level ∷ events) = transcript level events
transcript least (Event.log s ∷ events) =
    let rest = transcript least events in
    if ltb (level_value s.level) (level_value least) then rest else line_of s ++ rest

step : Build → Statement → Logger → Logger
step build s logger = log_statement build s.timestamp s.moves s.level s.first s.texts logger

dropped :
    (build : Build) (s : Statement) (logger : Logger)
    → tcp_logging_enabled build ≡ true
    → ltb (level_value s.level) (level_value logger.level) ≡ true
    → step build s logger ≡ logger
unfolding step write
dropped build s logger on below =
    log_statement-write build s.timestamp s.moves s.level s.first s.texts logger
    ∙ rw (on, below) refl

kept :
    (build : Build) (s : Statement) (logger : Logger)
    → tcp_logging_enabled build ≡ true
    → ltb (level_value s.level) (level_value logger.level) ≡ false
    → step build s logger ≡ record logger { printed = logger.printed ++ line_of s }
unfolding step write line_of
kept build s logger on above =
    log_statement-write build s.timestamp s.moves s.level s.first s.texts logger
    ∙ rw (on, above) refl

-- In a build that logs, a run prints the lines of its statements in their order, each once and
-- whole, and leaves out those below the threshold that holds then.
pub run-transcript :
    (build : Build) (events : List Event) (logger : Logger)
    → tcp_logging_enabled build ≡ true
    → (run build events logger).printed ≡ logger.printed ++ transcript logger.level events
unfolding run transcript set_level step
run-transcript build [] logger on = sym (append-nil logger.printed)
run-transcript build (Event.threshold level ∷ events) logger on =
    run-transcript build events (set_level level logger) on
run-transcript build (Event.log s ∷ events) logger on =
    let after = λ (l : Logger). (run build events l).printed in
    elim (Bool-cases (ltb (level_value s.level) (level_value logger.level))) [
      | inl h ↦
          rw h (ap after (dropped build s logger on h) ∙ run-transcript build events logger on)
      | inr h ↦ rw h (
          ap after (kept build s logger on h)
          ∙ run-transcript build events (record logger { printed = logger.printed ++ line_of s }) on
          ∙ append_assoc logger.printed (line_of s) (transcript logger.level events))
    ]
