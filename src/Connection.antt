-- ===== src/Connection.antt =====
-- ladder/src/Connection.cpp on Linux, for a connection that sends no files: its two buffers, its
-- shutdown flag and its channel. What the kernel answers and what the user's callbacks do comes
-- with each event.
pub mod Output
pub mod Events
pub mod Run
pub mod Stage
pub mod Closing
pub mod Polling
pub mod Ends
mod Tests
use ladder.Prelude.{
  length, ℕ, suc, ◌+◌, ◌≡◌, Bool, true, false, not, ◌&&◌, Option, some, none, List, [], ◌∷◌, ◌++◌,
  if◌then◌else◌,
}
use ladder.Prelude.Errno.{Errno, econnreset}
use ladder.Buffer.{Buffer, empty_buffer, write, have_read, is_empty}
use ladder.Buffer.Io.{
  received, ReadReply, WriteReply, End, returned, failed, exited, waiting, read_buffer_from_fd,
  write_buffer_to_fd,
}
use ladder.Channel.{
  Channel, Flags, new_channel, set_revents, set_epoll_edge_triggered, enable_write, handle_events,
}

-- The member functions that `SetChannelCallbacks` binds.
pub data Handler : Type 0 where
  reads writes closes : Handler

-- `ended` is `EXIT`. `starved` is no state of the program: the replies given for a loop ran out.
pub data Status : Type 0 where
  running ended starved : Status

pub record Connection : Type 0 where
  pub channel : Channel Handler
  pub read_buffer : Buffer
  pub write_buffer : Buffer
  pub shut_down : Bool
  pub has_read_callback : Bool
  pub has_write_callback : Bool
  pub has_close_callback : Bool
  -- what the rest of the program and the peer see of it
  pub registered : Bool
  pub read_is_shut : Bool
  pub write_is_shut : Bool
  pub close_calls : ℕ
  pub accepted : List ℕ
  pub sent : List ℕ
  pub arrived : ℕ
  pub status : Status

unfoldable pub new_connection : ℕ → Connection
new_connection fd = record {
  channel = new_channel fd;
  read_buffer = empty_buffer;
  write_buffer = empty_buffer;
  shut_down = false;
  has_read_callback = false;
  has_write_callback = false;
  has_close_callback = false;
  registered = false;
  read_is_shut = false;
  write_is_shut = false;
  close_calls = 0;
  accepted = [];
  sent = [];
  arrived = 0;
  status = running;
}

-- `SetReadCallback`, `SetWriteCallback` and `SetCloseCallback`, the first two only if there is one.
abbrev pub with_callbacks : Bool → Bool → Connection → Connection
with_callbacks reading writing c = record c {
  has_read_callback = reading;
  has_write_callback = writing;
  has_close_callback = true;
}

-- Nothing runs after `EXIT`.
abbrev pub while_running : (Connection → Connection) → Connection → Connection
while_running f c = elim c.status [ running ↦ f c | _ ↦ c ]

unfoldable pub set_channel_callbacks : Connection → Connection
set_channel_callbacks c = record c {
  channel = record (c.channel) {
    read_callback = some reads;
    write_callback = some writes;
    close_callback = some closes;
    error_callback = some closes;
  };
}

-- Edge triggered, then `UpdateToLoop`, then the callbacks.
unfoldable pub init : Connection → Connection
unfolding set_channel_callbacks set_epoll_edge_triggered
init c =
    set_channel_callbacks
      (record c { channel = set_epoll_edge_triggered true c.channel; registered = true })

-- Both halves are shut down; the kernel then reports a hang-up.
pub close : Connection → Connection
close c = record c { read_is_shut = true; write_is_shut = true }

pub on_close_callback : Connection → Connection
on_close_callback c = record c {
  write_is_shut = true;
  registered = false;
  close_calls = if c.has_close_callback then suc c.close_calls else c.close_calls;
}

-- `WriteBuffer`: what the loop returns, and the connection afterwards.
unfoldable pub flush : List WriteReply → Connection → End × Connection
flush ws c =
    let (how, sent, b) = write_buffer_to_fd ws c.write_buffer in
    (how, record c { write_buffer = b; sent = c.sent ++ sent })

-- `EnableWrite(ret)`: polls for output exactly after a failed write. epoll_ctl fails for a descriptor
-- that is not registered, which ends the program.
abbrev updated : Connection → Status
updated c = if c.registered then c.status else ended

unfoldable pub enable_by : End → Connection → Connection
unfolding enable_write
enable_by returned c = record c { channel = enable_write false c.channel; status = updated c }
enable_by (failed e) c = record c { channel = enable_write true c.channel; status = updated c }
enable_by (exited e) c = record c { status = ended }
enable_by waiting c = record c { status = starved }

-- A write into the output buffer.
unfoldable pub put_out : List ℕ → Connection → Connection
put_out s c = record c { write_buffer = write s c.write_buffer; accepted = c.accepted ++ s }

pub send : List ℕ → List WriteReply → Connection → Connection
unfolding flush enable_by put_out
send s ws c = let (how, c') = flush ws (put_out s c) in if c.shut_down then c else enable_by how c'

-- What a user may do with the connection, inside a callback or outside.
pub data Call : Type 0 where
  sends : List ℕ → List WriteReply → Call
  consumes : ℕ → Call
  shuts : Call

pub call : Call → Connection → Connection
unfolding send close
call (sends s ws) c = send s ws c
call (consumes n) c = record c { read_buffer = have_read n c.read_buffer }
call shuts c = close c

pub calls : List Call → Connection → Connection
unfolding call
calls [] c = c
calls (k ∷ ks) c = calls ks (while_running (call k) c)

pub close_if_drained : Connection → Connection
unfolding close
close_if_drained c = if c.shut_down && is_empty c.write_buffer then close c else c

pub after_read : List Call → Connection → Connection
unfolding calls close_if_drained
after_read ks c =
    while_running close_if_drained
      (if c.has_read_callback && not (is_empty c.read_buffer) then calls ks c else c)

pub read_ended : End → List Call → Connection → Connection
unfolding after_read on_close_callback
read_ended returned ks c = after_read ks (record c { shut_down = true })
read_ended (failed econnreset) ks c = on_close_callback (record c { shut_down = true })
read_ended (failed e) ks c = after_read ks c
read_ended (exited e) ks c = record c { status = ended }
read_ended waiting ks c = record c { status = starved }

-- The calls are those of the read callback.
pub on_read_callback : List ReadReply → List Call → Connection → Connection
unfolding read_ended
on_read_callback rs ks c =
    let (how, b) = read_buffer_from_fd rs c.read_buffer in
    if c.shut_down
    then c
    else read_ended how ks
        (record c { read_buffer = b; arrived = c.arrived + length (received rs) })

-- The pieces are what the write callback writes into the output buffer.
pub put_all : List (List ℕ) → Connection → Connection
unfolding put_out
put_all [] c = c
put_all (s ∷ more) c = put_all more (put_out s c)

-- Closing once the input has ended and all is out, or polling on.
pub settle : End → Connection → Connection
unfolding enable_by on_close_callback
settle how c =
    if c.shut_down && is_empty c.write_buffer then on_close_callback c else enable_by how c

pub write_ended : End → List (List ℕ) → Connection → Connection
unfolding put_all settle
write_ended (exited e) more c = record c { status = ended }
write_ended waiting more c = record c { status = starved }
write_ended how more c = settle how (if c.has_write_callback then put_all more c else c)

pub on_write_callback : List WriteReply → List (List ℕ) → Connection → Connection
unfolding flush write_ended
on_write_callback ws more c = let (how, c') = flush ws c in write_ended how more c'

-- What the environment gives to one dispatch.
pub record Answers : Type 0 where
  pub replies_to_read : List ReadReply
  pub replies_to_write : List WriteReply
  pub calls_made : List Call
  pub pieces_written : List (List ℕ)

pub handle : Answers → Handler → Connection → Connection
unfolding on_read_callback on_write_callback on_close_callback
handle a reads c = on_read_callback a.replies_to_read a.calls_made c
handle a writes c = on_write_callback a.replies_to_write a.pieces_written c
handle a closes c = on_close_callback c

pub invoke : Answers → Handler → Connection → Connection
unfolding handle
invoke a h = while_running (handle a h)

-- One report of the poller: the flags are noted and handled. Nothing is reported of a descriptor
-- that has been removed.
pub polled : Flags → Answers → Connection → Connection
unfolding invoke handle_events set_revents
polled flags a c =
    if c.registered
    then handle_events (λ (d : Connection). d.channel)
        (λ (ch : Channel Handler) (d : Connection). record d { channel = ch }) (invoke a)
        (record c { channel = set_revents flags c.channel })
    else c

pub data Event : Type 0 where
  polls : Flags → Answers → Event
  uses : Call → Event

pub step : Event → Connection → Connection
unfolding polled call
step (polls flags a) = while_running (polled flags a)
step (uses k) = while_running (call k)

pub run : List Event → Connection → Connection
unfolding step
run [] c = c
run (e ∷ es) c = run es (step e c)
