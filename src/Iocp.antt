-- ===== src/Iocp.antt =====
-- ladder/src/Connection.cpp on Windows, with the completions that ladder/src/EventLoop.cpp hands to
-- it: a connection over a port of completions, which has one write at a time under way.
pub mod Flow
pub mod Output
pub mod Order
pub mod Branches
pub mod Unclosed
pub mod Stranded
mod Tests
use ladder.Prelude.{
  ◌+◌, ◌-◌, ℕ, zero, suc, min, Bool, true, false, not, ◌&&◌, ◌||◌, List, [], ◌∷◌, ◌++◌, length,
  take, if◌then◌else◌, ◌==◌,
}
use ladder.Buffer.{Buffer, empty_buffer, peek, have_read, write, is_empty}

-- What WSARecv and WSASend return when the operation is asked for: it is under way or done, it fails
-- since the other end has gone, by WSAEINVAL, or otherwise.
pub data PostReply : Type 0 where
  posted reset invalid refused : PostReply

abbrev pub max_wsa_buf_size : ℕ
max_wsa_buf_size = 1024

-- `write_wsa_buf` holds the bytes up to its `len`; `read_refs` and `write_refs` are the counts of the
-- two statuses. From `reads_now` on the fields note what happens outside: which operations are
-- under way, what was put into the output and what has left, the calls of the close callback, and
-- whether the program has ended.
pub record Iocp : Type 0 where
  pub read_buffer : Buffer
  pub write_buffer : Buffer
  pub write_wsa_buf : List ℕ
  pub read_refs : ℕ
  pub write_refs : ℕ
  pub write_pending : Bool
  pub shut_down : Bool
  pub send_file : Bool
  pub has_read_callback : Bool
  pub has_write_callback : Bool
  pub has_close_callback : Bool
  pub reads_now : Bool
  pub writes_now : Bool
  pub accepted : List ℕ
  pub sent : List ℕ
  pub close_calls : ℕ
  pub ended : Bool

pub new_iocp : Bool → Bool → Bool → Bool → Iocp
new_iocp files reads writes closes = record {
  read_buffer = empty_buffer;
  write_buffer = empty_buffer;
  write_wsa_buf = [];
  read_refs = 0;
  write_refs = 0;
  write_pending = false;
  shut_down = false;
  send_file = files;
  has_read_callback = reads;
  has_write_callback = writes;
  has_close_callback = closes;
  reads_now = false;
  writes_now = false;
  accepted = [];
  sent = [];
  close_calls = 0;
  ended = false;
}

abbrev pub going : (Iocp → Iocp) → Iocp → Iocp
going f c = if c.ended then c else f c

-- What `socket::read` returned, which has counted the operation already.
abbrev pub read_asked : PostReply → Iocp → Iocp
read_asked posted c = record c { reads_now = true }
read_asked reset c = record c { shut_down = true }
read_asked invalid c = record c { ended = true }
read_asked refused c = record c { ended = true }

pub post_read : PostReply → Iocp → Iocp
post_read reply c =
    if c.shut_down then c else read_asked reply (record c { read_refs = suc c.read_refs })

abbrev pub write_asked : PostReply → Iocp → Iocp
write_asked posted c = record c { writes_now = true }
write_asked reset c = record c { shut_down = true }
write_asked invalid c = record c { shut_down = true }
write_asked refused c = record c { ended = true }

abbrev pub post_piece : PostReply → List ℕ → Iocp → Iocp
post_piece reply [] c = record c { write_wsa_buf = [] }
post_piece reply (b ∷ bs) c =
    write_asked reply
      (record c { write_wsa_buf = b ∷ bs; write_pending = true; write_refs = suc c.write_refs })

pub post_write : PostReply → Iocp → Iocp
post_write reply c =
    if c.shut_down || c.write_pending
    then c
    else post_piece reply (peek max_wsa_buf_size c.write_buffer).1 c

abbrev pub put_out : List ℕ → Iocp → Iocp
put_out s c = record c { write_buffer = write s c.write_buffer; accepted = c.accepted ++ s }

pub send : List ℕ → PostReply → Iocp → Iocp
unfolding post_write
send s reply c = if c.shut_down then c else post_write reply (put_out s c)

-- `SendFile`, with what `ReadFileAsString` gives.
pub send_file_of : List ℕ → List ℕ → PostReply → Iocp → Iocp
unfolding post_write
send_file_of header filebuf reply c =
    if c.shut_down || not c.send_file
    then c
    else post_write reply (put_out filebuf (put_out header c))

-- `OnCloseCallback` does not call back while a read counts as under way.
pub on_close_callback : Iocp → Iocp
on_close_callback c =
    if c.read_refs == 0 && c.has_close_callback
    then record c { close_calls = suc c.close_calls }
    else c

-- What the read callback may do.
pub data Call : Type 0 where
  sends : List ℕ → PostReply → Call
  sends_file : List ℕ → List ℕ → PostReply → Call
  consumes : ℕ → Call

pub call : Call → Iocp → Iocp
unfolding send send_file_of
call (sends s reply) c = send s reply c
call (sends_file header filebuf reply) c = send_file_of header filebuf reply c
call (consumes n) c = record c { read_buffer = have_read n c.read_buffer }

pub calls : List Call → Iocp → Iocp
unfolding call
calls [] c = c
calls (k ∷ ks) c = calls ks (going (call k) c)

pub close_or : (Iocp → Iocp) → Iocp → Iocp
unfolding on_close_callback
close_or f c = if c.shut_down && is_empty c.write_buffer then on_close_callback c else f c

abbrev pub read_in : List ℕ → Iocp → Iocp
read_in [] c = record c { shut_down = true }
read_in (b ∷ bs) c = record c { read_buffer = write (b ∷ bs) c.read_buffer }

abbrev pub stay : Iocp → Iocp
stay c = c

pub run_read_callback : List Call → Iocp → Iocp
unfolding calls
run_read_callback ks c =
    if c.has_read_callback && not (is_empty c.read_buffer) then calls ks c else c

-- `OnReadCallback` with the bytes read.
pub on_read_callback : List ℕ → List Call → PostReply → Iocp → Iocp
unfolding run_read_callback close_or post_read on_close_callback
on_read_callback bytes ks reply c =
    if c.shut_down
    then on_close_callback c
    else going (close_or (λ d. going (close_or stay) (post_read reply d)))
        (run_read_callback ks (read_in bytes c))

abbrev pub put_all : List (List ℕ) → Iocp → Iocp
put_all [] c = c
put_all (s ∷ ss) c = put_all ss (put_out s c)

-- `OnWriteCallback` with the count of the bytes written and what the write callback writes.
pub on_write_callback : ℕ → List (List ℕ) → PostReply → Iocp → Iocp
unfolding close_or post_write
on_write_callback n pieces reply c =
    let d = record c { write_pending = false; write_buffer = have_read n c.write_buffer } in
    close_or (λ e. going (close_or stay) (post_write reply e))
      (if c.has_write_callback then put_all pieces d else d)

-- `Init` with what came with the connection.
pub init : List ℕ → List Call → PostReply → Iocp → Iocp
unfolding run_read_callback post_read
init bytes ks reply c =
    going (post_read reply)
      (run_read_callback ks (record c { read_buffer = write bytes c.read_buffer }))

-- What happens to a connection: calls of the program, and completions, of which there are only those
-- of operations under way, with no more bytes than were asked to be written.
pub data Event : Type 0 where
  calls_it : Call → Event
  read_done : List ℕ → List Call → PostReply → Event
  write_done : ℕ → List (List ℕ) → PostReply → Event

-- The loop takes a completion off the count and calls the handler.
pub happens : Event → Iocp → Iocp
unfolding call on_read_callback on_write_callback
happens (calls_it k) c = call k c
happens (read_done bytes ks reply) c =
    if c.reads_now
    then on_read_callback bytes ks reply
        (record c { reads_now = false; read_refs = c.read_refs - 1 })
    else c
happens (write_done n pieces reply) c =
    let k = min n (length c.write_wsa_buf) in
    if c.writes_now
    then on_write_callback k pieces reply (record c {
      writes_now = false;
      write_refs = c.write_refs - 1;
      sent = c.sent ++ take k c.write_wsa_buf;
    })
    else c

pub step : Event → Iocp → Iocp
unfolding happens
step ev c = going (happens ev) c

pub run : List Event → Iocp → Iocp
unfolding step
run [] c = c
run (ev ∷ evs) c = run evs (step ev c)
