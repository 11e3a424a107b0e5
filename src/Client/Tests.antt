-- ===== src/Client/Tests.antt =====
-- A client that connects, one that is refused, and one that disconnects.
use ladder.Prelude.{◌+◌, ◌*◌, ◌<◌, ◌≤◌, ◌≡◌, refl, true, false, some, List, [], ◌∷◌, arith}
use ladder.Channel.{new_channel, no_flags}
use ladder.Client.{
  Client, einprogress, econnrefused, connecting, new_client, new_connector, retry, on_timer,
  disconnect, run, Event, connects, polls, expires,
}
use ladder.Client.Attempts.{attempts-run_le}
use ladder.Client.Waits.{after, timer-after, retry_stalls}
use ladder.Client.Stuck.{disconnect-final}

-- Refused twice: at once, and by a report.
abbrev refused : List Event
refused =
    connects 5 econnrefused
    ∷ expires einprogress
    ∷ polls (record no_flags { poll_hup = true }) true
    ∷ expires econnrefused
    ∷ []

attempts-run_le_example : (run refused (new_client 10 2)).attempts ≤ 3
attempts-run_le_example = attempts-run_le 10 2 refused

timer-after_example :
    let k = after 4 (new_connector 10) in
    (k.timer.seconds * 1000000000 + k.timer.nanoseconds ≡ 80 * 1000000)
    × (k.timer.nanoseconds < 1000000000)
    × (k.timer.pending ≡ true)
    × (k.retry_count ≡ 4)
timer-after_example = timer-after 10 3 (omega arith)

-- Ten retries, the default, from 128 milliseconds.
abbrev tenth : Client
tenth = record (new_client 128 10) { connector = some (after 9 (new_connector 128)) }

retry_stalls_example :
    (on_timer einprogress (retry tenth) ≡ retry tenth)
    × ((retry tenth).status ≡ tenth.status)
    × ((retry tenth).conn ≡ tenth.conn)
unfolding new_client
retry_stalls_example = retry_stalls 128 9 tenth einprogress (omega arith) refl refl (omega arith)

abbrev in_use : Client
in_use =
    run (connects 5 einprogress ∷ polls (record no_flags { poll_out = true }) false ∷ [])
      (new_client 10 10)

-- The connection closes, and the program connects again.
abbrev closed_again : List Event
closed_again = polls (record no_flags { poll_hup = true }) false ∷ connects 6 einprogress ∷ []

disconnect-final_example :
    ((run closed_again (disconnect in_use)).status ≡ connecting)
    × ((run closed_again (disconnect in_use)).attempts ≡ 1)
unfolding run new_client new_channel
disconnect-final_example =
    disconnect-final in_use closed_again refl
      (record { read_set = refl; write_set = refl; close_set = refl; error_set = refl }) refl
