-- ===== src/FileBuffer/Tests.antt =====
-- A header and a file of three bytes, sent in two calls.
use ladder.Prelude.{ℕ, Option, some, List, [], ◌∷◌}
use ladder.Prelude.Errno.{eagain}
use ladder.Buffer.Io.{wrote}
use ladder.FileBuffer.{FileBuffer, new_file_buffer, Round, put, send_failed}

abbrev files : List ℕ → Option (List ℕ)
files name = some (4 ∷ 5 ∷ 6 ∷ [])

abbrev one_file : FileBuffer
one_file = record new_file_buffer {
  pending_files = record { header = 1 ∷ 2 ∷ []; filename = 97 ∷ [] } ∷ [];
}

abbrev rounds : List Round
rounds =
    record { writes = wrote 2 ∷ []; sends = put 2 }
    ∷ record { writes = []; sends = send_failed eagain }
    ∷ []
