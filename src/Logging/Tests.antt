-- ===== src/Logging/Tests.antt =====
-- A logger at concrete inputs.
use ladder.Prelude.{some, List, [], ◌∷◌}
use ladder.Prelude.Text.{codes}
use ladder.Logging.{log_debug, log_info, log_error, Event, logs, logs_fmt, turn, Fprintf}

-- It prints any text, which is what is relied on for those without percent signs.
abbrev prints_all : Fprintf
prints_all m = some m

abbrev calls : List Event
calls =
    logs log_info (codes "10:00") (codes "up")
    ∷ turn
    ∷ logs log_debug (codes "10:01") (codes "no")
    ∷ logs_fmt log_error (codes "10:02") (some (codes "fd = 5"))
    ∷ []
