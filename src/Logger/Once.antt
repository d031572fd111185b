-- ===== src/Logger/Once.antt =====
-- What a statement that logs adds to the output.
use mathlib.Core.List.{append_assoc, append-nil}
use tiny_cp.Base.{◌≡◌, refl, ◌∙◌, List, [], ◌∷◌, ◌++◌, if◌then◌else◌}
use tiny_cp.Text.{Bytes, written}
use tiny_cp.Logger.{
  LogLevel, Logger, Line, Build, new_line, put, put_all, move, destroy, pass_out, write,
  log_statement, tcp_logging_enabled,
}

stream-put_all :
    (texts : List Bytes) (line : Line)
    → put_all texts line
      ≡ record { level = line.level; stream = line.stream ++ written texts; active = line.active }
unfolding put written
stream-put_all [] line = rw (append-nil line.stream) refl
stream-put_all (text ∷ texts) line =
    stream-put_all texts (put text line) ∙ rw (append_assoc line.stream text (written texts)) refl

-- A line that is moved prints nothing where it was.
pass_out_lem :
    (timestamp : Bytes) (moves : List Bytes) (line : Line) (logger : Logger)
    → pass_out timestamp moves line logger ≡ (line, logger)
unfolding pass_out move destroy
pass_out_lem timestamp [] line logger = refl
pass_out_lem timestamp (left ∷ moves) line logger = pass_out_lem timestamp moves line logger

-- However often the line is moved on its way, the statement writes once: the concatenation of its
-- values, at its level.
pub log_statement-write :
    (build : Build) (timestamp : Bytes) (moves : List Bytes) (level : LogLevel) (first : Bytes)
    (texts : List Bytes) (logger : Logger)
    → log_statement build timestamp moves level first texts logger ≡ (
        if tcp_logging_enabled build
        then write timestamp level (written (first ∷ texts)) logger
        else logger)
unfolding log_statement
log_statement-write build timestamp moves level first texts logger =
    rw
      (
        pass_out_lem timestamp moves (put first (new_line level)) logger,
        stream-put_all texts (put first (new_line level)),
      )
      (unfold put destroy written in refl)
