-- ===== src/Iocp/Tests.antt =====
-- Connections on Windows at concrete inputs.
use ladder.Prelude.{◌<◌, ◌≡◌, refl, true, false, List, [], ◌∷◌, length, arith}
use ladder.Buffer.Inv.{contents}
use ladder.Iocp.{posted, reset, Iocp, sends, Event, calls_it, read_done, write_done, run}
use ladder.Iocp.Flow.{Inv}
use ladder.Iocp.Unclosed.{close_calls-run}
use ladder.Iocp.Stranded.{sent-run}

-- An echo, its write, and the end of the stream.
abbrev echo : List Event
echo =
    read_done (8 ∷ 9 ∷ []) (sends (8 ∷ 9 ∷ []) posted ∷ []) posted
    ∷ write_done 1 ((5 ∷ []) ∷ []) posted
    ∷ calls_it (sends (6 ∷ []) posted)
    ∷ read_done [] [] posted
    ∷ []

-- Three bytes wait, and a write of two of them is under way.
abbrev two_of_three : Iocp
two_of_three = record {
  read_buffer = record { read_index = 0; write_index = 0; storage = [] };
  write_buffer = record { read_index = 0; write_index = 3; storage = 1 ∷ 2 ∷ 3 ∷ [] };
  write_wsa_buf = 1 ∷ 2 ∷ [];
  read_refs = 1;
  write_refs = 1;
  write_pending = true;
  shut_down = false;
  send_file = false;
  has_read_callback = true;
  has_write_callback = false;
  has_close_callback = true;
  reads_now = true;
  writes_now = true;
  accepted = 1 ∷ 2 ∷ 3 ∷ [];
  sent = [];
  close_calls = 0;
  ended = false;
}

close_calls-run_example :
    (run (read_done (9 ∷ []) [] reset ∷ write_done 2 [] posted ∷ []) two_of_three).close_calls ≡ 0
close_calls-run_example =
    close_calls-run 9 [] two_of_three (write_done 2 [] posted ∷ []) refl refl refl

sent-run_example :
    ((run (read_done [] [] posted ∷ write_done 2 [] posted ∷ echo) two_of_three).sent ≡ 1 ∷ 2 ∷ [])
    × (0
        < length (
            contents
              (run
                (read_done [] [] posted ∷ write_done 2 [] posted ∷ echo)
                two_of_three).write_buffer))
    × ((run (read_done [] [] posted ∷ write_done 2 [] posted ∷ echo) two_of_three).close_calls ≡ 0)
sent-run_example =
    sent-run 2 posted posted two_of_three echo refl refl refl refl (omega arith) (omega arith)
