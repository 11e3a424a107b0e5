-- ===== src/TlsConnection/Run.antt =====
-- A connection over its life: what the program sends, what the socket answers, and the calls of the
-- loop, in any order.
use ladder.Prelude.{ℕ, List, [], ◌∷◌, ◌++◌}
use ladder.Buffer.Io.{WriteReply, ReadReply}
use ladder.Connection.{Status, running}
use ladder.TlsConnection.{Engine, TlsConnection, send, read_buffer, write_buffer}
use ladder.TlsConnection.Documented.{Documented, IsWilling}

pub data Event : Type 0 where
  sends : List ℕ → Event
  reads : List ReadReply → Event
  writes : List WriteReply → Event

abbrev pub given_by : Event → List ℕ
given_by (sends buf) = buf
given_by (reads rs) = []
given_by (writes ws) = []

module _ {S : Type 0} (e : Engine S) where
  unfoldable pub step : ℕ → Event → TlsConnection S → TlsConnection S
  unfolding send read_buffer write_buffer
  step fuel (sends buf) t = send e fuel buf t
  step fuel (reads rs) t = (read_buffer e fuel rs t).1
  step fuel (writes ws) t = (write_buffer e fuel ws t).1

  -- Nothing follows the program's end.
  pub run : ℕ → List Event → TlsConnection S → TlsConnection S
  unfolding step
  run fuel [] t = t
  run fuel (ev ∷ evs) t = elim t.base.status [ running ↦ run fuel evs (step fuel ev t) | _ ↦ t ]

  -- The bytes given to `Send` until then.
  unfoldable pub given : ℕ → List Event → TlsConnection S → List ℕ
  unfolding step
  given fuel [] t = []
  given fuel (ev ∷ evs) t = elim t.base.status [
    | running ↦ given_by ev ++ given fuel evs (step fuel ev t)
    | _ ↦ []
  ]

module _ {S : Type 0} (e : Engine S) (d : Documented e) (willing : IsWilling e) where
  abbrev given_with : ℕ → Event → List Event → TlsConnection S → Status → List ℕ
  given_with fuel ev evs t status = elim status [
    | running ↦ given_by ev ++ given e fuel evs (step e fuel ev t)
    | _ ↦ []
  ]

  abbrev ran : ℕ → Event → List Event → TlsConnection S → Status → TlsConnection S
  ran fuel ev evs t status = elim status [ running ↦ run e fuel evs (step e fuel ev t) | _ ↦ t ]
