-- ===== src/Connection/Tests.antt =====
-- A connection that answers a message: the answer goes out in two parts.
use ladder.Prelude.{refl, ◌≡◌, ◌≤◌, true, false, [], ◌∷◌, if◌then◌else◌}
use ladder.Prelude.Errno.{eagain, epipe}
use ladder.Buffer.{readable_bytes, write}
use ladder.Buffer.Io.{got, read_failed, wrote, write_failed, write_buffer_to_fd}
use ladder.Channel.{no_flags}
use ladder.Connection.{
  Connection, Event, polls, uses, sends, consumes, shuts, run, init, new_connection, with_callbacks,
  ended, send, on_close_callback, flush, put_out,
}
use ladder.Connection.Ends.{status-send}
use ladder.Connection.Closing.{close_calls-run_le}

abbrev message_comes : Event
message_comes =
    polls (record no_flags { poll_in = true })
      (record {
        replies_to_read = got (1 ∷ 2 ∷ []) ∷ read_failed eagain ∷ [];
        replies_to_write = [];
        calls_made = consumes 2 ∷ sends (7 ∷ 8 ∷ 9 ∷ []) (wrote 2 ∷ write_failed eagain ∷ []) ∷ [];
        pieces_written = [];
      })

abbrev room_comes : Event
room_comes =
    polls (record no_flags { poll_out = true })
      (record {
        replies_to_read = [];
        replies_to_write = wrote 1 ∷ [];
        calls_made = [];
        pieces_written = [];
      })

abbrev hang_up : Event
hang_up =
    polls (record no_flags { poll_hup = true })
      (record { replies_to_read = []; replies_to_write = []; calls_made = []; pieces_written = [] })

abbrev started : Connection
started = init (with_callbacks true false (new_connection 5))

abbrev half_out : Connection
half_out = run (message_comes ∷ []) started

abbrev whole_out : Connection
whole_out = run (message_comes ∷ room_comes ∷ []) started

abbrev closed : Connection
closed = run (message_comes ∷ uses shuts ∷ hang_up ∷ hang_up ∷ []) started

close_calls-run_le_example : closed.close_calls ≤ (if closed.registered then 0 else 1)
close_calls-run_le_example =
    close_calls-run_le 5 true false (message_comes ∷ uses shuts ∷ hang_up ∷ hang_up ∷ [])

status-send_example :
    (send (7 ∷ []) (write_failed epipe ∷ []) (on_close_callback (init (new_connection 5)))).status
    ≡ ended
unfolding flush put_out on_close_callback init new_connection write_buffer_to_fd write
    readable_bytes
status-send_example =
    status-send (7 ∷ []) (write_failed epipe ∷ []) (init (new_connection 5)) refl (λ e. cc)
