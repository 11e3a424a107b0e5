-- ===== src/Connection/Run.antt =====
-- A whole run of a connection, from `Init` on: dispatches of the poller and uses by the program.
use ladder.Prelude.{ℕ, ◌+◌, List, [], ◌∷◌}
use ladder.Connection.{Connection, Answers, Event}
use ladder.Connection.Output.{Inv, calls_volume, pieces_volume, out_volume, in_volume}

-- What one dispatch may take in.
abbrev out_by_answers : Answers → ℕ
out_by_answers a = pieces_volume a.pieces_written + calls_volume a.calls_made

-- What a whole run can take in.
abbrev pub out_total : List Event → ℕ
out_total [] = 0
out_total (e ∷ es) = out_volume e + out_total es

abbrev pub in_total : List Event → ℕ
in_total [] = 0
in_total (e ∷ es) = in_volume e + in_total es
