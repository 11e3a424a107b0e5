-- ===== src/Buffer/Tests.antt =====
-- Runs of the buffer's operations, and its theorems at concrete buffers.
use ladder.Prelude.{◌≡◌, refl, List, [], ◌∷◌, true, false, arith}
use ladder.Prelude.Errno.{eagain}
use ladder.Buffer.{Buffer, read, write, have_read, peek, is_empty, read_all}
use ladder.Buffer.Inv.{IsValid, contents}
use ladder.Buffer.Io.{
  WriteReply, Keeps, got, read_failed, wrote, write_failed, failed, read_buffer_from_fd,
  write_buffer_to_fd, read_buffer_from_fd_lem, write_buffer_to_fd_lem,
}
use ladder.Buffer.Queue.{
  Call, writes, reads, peeks, drops, reads_all, asks_empty, bytes, done, answer, run, spec_run,
  run_refines,
}

-- Two bytes read, three left, stale ones behind.
abbrev half_read : Buffer
half_read = record { read_index = 2; write_index = 5; storage = 1 ∷ 2 ∷ 3 ∷ 4 ∷ 5 ∷ 9 ∷ [] }

half_read-IsValid : IsValid half_read
half_read-IsValid = omega arith

abbrev script : List Call
script =
    asks_empty ∷ writes (6 ∷ 7 ∷ []) ∷ peeks 2 ∷ reads 4 ∷ drops 9 ∷ asks_empty ∷ reads_all ∷ []

run-script :
    run script half_read
    ≡ answer false
      ∷ done
      ∷ bytes (3 ∷ 4 ∷ [])
      ∷ bytes (3 ∷ 4 ∷ 5 ∷ 6 ∷ [])
      ∷ done
      ∷ answer true
      ∷ bytes []
      ∷ []
unfolding run read write have_read peek is_empty read_all
run-script = refl

run_refines_example :
    run script half_read
    ≡ answer false
      ∷ done
      ∷ bytes (3 ∷ 4 ∷ [])
      ∷ bytes (3 ∷ 4 ∷ 5 ∷ 6 ∷ [])
      ∷ done
      ∷ answer true
      ∷ bytes []
      ∷ []
unfolding spec_run
run_refines_example = run_refines script half_read-IsValid (omega arith)

read_buffer_from_fd_example :
    (contents
        (read_buffer_from_fd (got (6 ∷ []) ∷ got (7 ∷ []) ∷ read_failed eagain ∷ []) half_read).1
      ≡ 3 ∷ 4 ∷ 5 ∷ 6 ∷ 7 ∷ [])
    × IsValid
        (read_buffer_from_fd (got (6 ∷ []) ∷ got (7 ∷ []) ∷ read_failed eagain ∷ []) half_read).1
read_buffer_from_fd_example =
    read_buffer_from_fd_lem (got (6 ∷ []) ∷ got (7 ∷ []) ∷ read_failed eagain ∷ [])
      half_read-IsValid (omega arith)

partial_write :
    write_buffer_to_fd (wrote 2 ∷ write_failed eagain ∷ []) half_read
    ≡ (failed eagain, 3 ∷ 4 ∷ [], record half_read { read_index = 4 })
unfolding write_buffer_to_fd peek have_read
partial_write = refl

abbrev draining : List WriteReply
draining = wrote 2 ∷ wrote 1 ∷ wrote 5 ∷ []

write_buffer_to_fd_example : Keeps half_read (write_buffer_to_fd draining half_read)
unfolding have_read
write_buffer_to_fd_example = write_buffer_to_fd_lem draining half_read-IsValid
