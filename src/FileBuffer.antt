-- ===== src/FileBuffer.antt =====
-- ladder/src/FileBuffer.cpp on Linux: a queue of headers and files, and the loop that sends it.
-- The file system is a parameter: what `open` finds under a name. It gives no descriptor 0.
pub mod Order
mod Tests
use ladder.Prelude.{
  ℕ, ◌+◌, ◌-◌, min, Bool, true, false, Option, none, some, List, [], ◌∷◌, ◌++◌, length, take, drop,
  ◌==◌, if◌then◌else◌,
}
use ladder.Prelude.Errno.{Errno, eagain, epipe}
use ladder.Buffer.{Buffer, empty_buffer, write}
use ladder.Buffer.Io.{WriteReply, End, returned, failed, exited, waiting, write_buffer_to_fd}

pub record FileInfo : Type 0 where
  pub header : List ℕ
  pub filename : List ℕ

-- `fd` holds the contents of the file that is open; `none` is 0.
pub record FileBuffer : Type 0 where
  pub buffer : Buffer
  pub bytes_sent : ℕ
  pub bytes_pending : ℕ
  pub fd : Option (List ℕ)
  pub pending_files : List FileInfo

abbrev pub new_file_buffer : FileBuffer
new_file_buffer = record {
  buffer = empty_buffer;
  bytes_sent = 0;
  bytes_pending = 0;
  fd = none;
  pending_files = [];
}

pub add_file : List ℕ → List ℕ → FileBuffer → FileBuffer
add_file header filename b = record b {
  pending_files = b.pending_files ++ (record { header = header; filename = filename } ∷ []);
}

-- `Write` queues a header without a file.
pub write_header : List ℕ → FileBuffer → FileBuffer
unfolding add_file
write_header content b = add_file content [] b

pub is_empty : FileBuffer → Bool
is_empty b = elim b.pending_files [ [] ↦ true | _ ↦ false ]

-- What `sendfile` returns: a count, at most that of the bytes asked for, or -1 and `errno`.
pub data SendReply : Type 0 where
  put : ℕ → SendReply
  send_failed : Errno → SendReply

abbrev send_error : Errno → End
send_error eagain = failed eagain
send_error epipe = failed epipe
send_error e = exited e

-- The answers in one round of the loop.
pub record Round : Type 0 where
  pub writes : List WriteReply
  pub sends : SendReply

-- How a part ends (`none` goes on), the bytes that went out, and the buffer afterwards.
abbrev pub Outcome : Type 0
Outcome = Option End × List ℕ × FileBuffer

module _ (files : List ℕ → Option (List ℕ)) where
  abbrev pub opened : List ℕ → Option (List ℕ)
  opened [] = none
  opened (c ∷ cs) = files (c ∷ cs)

  -- The front of the queue, when no file is open: its header is written and its file opened.
  pub open_front : FileInfo → List FileInfo → FileBuffer → FileBuffer
  open_front info rest b = elim (opened info.filename) [
    | none ↦ record b { buffer = write info.header b.buffer; fd = none; pending_files = rest }
    | some content ↦ record b {
      buffer = write info.header b.buffer;
      fd = some content;
      bytes_pending = length content;
      bytes_sent = 0;
    }
  ]

  pub send_file : SendReply → List ℕ → List FileInfo → FileBuffer → Outcome
  send_file (send_failed e) content rest b = (some (send_error e), [], b)
  send_file (put n) content rest b =
      let ret = min n b.bytes_pending in
      let sent = take ret (drop b.bytes_sent content) in
      let b' = record b {
        bytes_sent = b.bytes_sent + ret;
        bytes_pending = b.bytes_pending - ret;
      } in
      if b.bytes_pending - ret == 0
      then (none, sent, record b' { fd = none; pending_files = rest })
      else (none, sent, b')

  pub flush : List WriteReply → FileBuffer → End × List ℕ × FileBuffer
  flush ws b =
      let (how, sent, buffer) = write_buffer_to_fd ws b.buffer in
      (how, sent, record b { buffer = buffer })

  -- After the header: the buffer first, then a part of the file.
  pub flush_and_send : Round → List FileInfo → FileBuffer → Outcome
  unfolding flush send_file
  flush_and_send r rest b =
      let (how, sent, b') = flush r.writes b in
      elim how [
        | returned ↦ elim b.fd [
          | none ↦ (none, sent, b')
          | some content ↦
              let (next, part, b'') = send_file r.sends content rest b' in (next, sent ++ part, b'')
        ]
        | e ↦ (some e, sent, b')
      ]

  pub one_round : Round → FileInfo → List FileInfo → FileBuffer → Outcome
  unfolding open_front flush_and_send
  one_round r info rest b = elim b.fd [
    | none ↦ flush_and_send r rest (open_front info rest b)
    | some content ↦ flush_and_send r rest b
  ]

  -- What one round sent goes before what the later ones send.
  abbrev pub go_on : Outcome → End × List ℕ × FileBuffer → End × List ℕ × FileBuffer
  go_on (none, sent, b) (how, more, b') = (how, sent ++ more, b')
  go_on (some e, sent, b) later = (e, sent, b)

  -- The loop over the queue.
  pub drain : List Round → FileBuffer → End × List ℕ × FileBuffer
  unfolding one_round
  drain [] b = elim b.pending_files [ [] ↦ (returned, [], b) | _ ↦ (waiting, [], b) ]
  drain (r ∷ rs) b = elim b.pending_files [
    | [] ↦ (returned, [], b)
    | info ∷ rest ↦ let o = one_round r info rest b in go_on o (drain rs o.2)
  ]

  -- `WriteBufferToFd`: the buffer first, then the queue.
  pub write_files_to_fd : List WriteReply → List Round → FileBuffer → End × List ℕ × FileBuffer
  unfolding flush drain
  write_files_to_fd ws rs b =
      let (how, sent, b') = flush ws b in
      elim how [ returned ↦ go_on (none, sent, b') (drain rs b') | e ↦ (e, sent, b') ]
