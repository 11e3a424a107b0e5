-- ===== src/Connection/Output.antt =====
-- What the program sends is what the peer is sent: nothing is lost, repeated or reordered between
-- `Send` and the socket, and output that waits is always polled for.
use ladder.Prelude.{
  Option, some, if◌then◌else◌, Bool, true, false, [], refl, ℕ, ◌+◌, ◌≤◌, ◌<◌, ◌≡◌, sym, ap, ◌∙◌,
  ◌^◌, List, ◌++◌, length, append_assoc, length-append, arith,
}
use ladder.Buffer.Inv.{
  write_index-have_read_le, have_read-IsValid, IsValid, contents, write-IsValid, write_index-write,
}
use ladder.Buffer.Refine.{contents-write}
use ladder.Buffer.Io.{
  failed, received, WriteReply, End, returned, write_buffer_to_fd, write_buffer_to_fd_lem,
  write_index-write_buffer_to_fd_le,
}
use ladder.Channel.{Channel, enable_write}
use ladder.Connection.{
  Handler, reads, writes, closes, Bool, running, shuts, consumes, sends, close, consumes, uses,
  polls, sends, Status, Call, Event, ◌∷◌, calls, while_running, call, send, Buffer, Connection,
  flush, enable_by, put_out,
}

-- The callbacks of a channel are those of `SetChannelCallbacks`.
pub record Wired (on_read on_write on_close on_error : Option Handler) : Type 0 where
  pub read_set : on_read ≡ some reads
  pub write_set : on_write ≡ some writes
  pub close_set : on_close ≡ some closes
  pub error_set : on_error ≡ some closes

-- Both buffers are valid, the bytes accepted from the program are those sent and those waiting,
-- and the write indices count no more than what went in.
pub record Flow (r w : Buffer) (accepted sent : List ℕ) (arrived : ℕ) : Type 0 where
  pub reads_valid : IsValid r
  pub writes_valid : IsValid w
  pub kept : accepted ≡ sent ++ contents w
  pub in_le : r.write_index ≤ arrived
  pub out_le : w.write_index ≤ length accepted

abbrev pub IsWired : Channel Handler → Type 0
IsWired ch = Wired ch.read_callback ch.write_callback ch.close_callback ch.error_callback

abbrev pub Inv : Connection → Type 0
Inv c = Flow c.read_buffer c.write_buffer c.accepted c.sent c.arrived × IsWired c.channel

-- From `c` to `d` at most `k` bytes were accepted and `j` have arrived, and the invariant holds.
pub record Goes (k j : ℕ) (c d : Connection) : Type 0 where
  pub inv : Inv d
  pub out_by : length d.accepted ≤ length c.accepted + k
  pub in_by : d.arrived ≤ c.arrived + j

-- Room for `k` more bytes out and `j` more in.
abbrev pub Room : ℕ → ℕ → Connection → Type 0
Room k j c = (length c.accepted + k < 2 ^ 32) × (c.arrived + j < 2 ^ 32)

pub stays : (k j : ℕ) {c : Connection} → Inv c → Goes k j c c
stays k j v = record { inv = v; out_by = omega arith; in_by = omega arith }

pub put_out-Goes :
    (s : List ℕ) (j : ℕ) {c : Connection}
    → Inv c
    → Room (length s) j c
    → Goes (length s) 0 c (put_out s c)
unfolding put_out
put_out-Goes s j {c} v r =
    let small : c.write_buffer.write_index + length s < 2 ^ 32 = omega arith in
    record {
      inv = (
        record {
          reads_valid = v.0.reads_valid;
          writes_valid = write-IsValid s v.0.writes_valid small;
          kept =
              ap (λ (xs : List ℕ). xs ++ s) v.0.kept
              ∙ append_assoc c.sent (contents c.write_buffer) s
              ∙ ap (◌++◌ c.sent) (sym (contents-write s v.0.writes_valid small));
          in_le = v.0.in_le;
          out_le =
              omega (arith, write_index-write s c.write_buffer small, length-append c.accepted s);
        },
        v.1,
      );
      out_by = omega (arith, length-append c.accepted s);
      in_by = omega arith;
    }

pub flush-Inv : (ws : List WriteReply) (c : Connection) → Inv c → Inv (flush ws c).1
unfolding flush
flush-Inv ws c v =
    let keeps = write_buffer_to_fd_lem ws v.0.writes_valid in
    let r = write_buffer_to_fd ws c.write_buffer in
    (
      record {
        reads_valid = v.0.reads_valid;
        writes_valid = keeps.1;
        kept =
            v.0.kept
            ∙ ap (◌++◌ c.sent) (sym keeps.0)
            ∙ sym (append_assoc c.sent r.1 (contents r.2));
        in_le = v.0.in_le;
        out_le = omega (arith, write_index-write_buffer_to_fd_le ws c.write_buffer);
      },
      v.1,
    )

pub enable_by-Inv : (how : End) (c : Connection) → Inv c → Inv (enable_by how c)
unfolding enable_by enable_write
enable_by-Inv returned c v = (
  v.0,
  record {
    read_set = v.1.read_set;
    write_set = v.1.write_set;
    close_set = v.1.close_set;
    error_set = v.1.error_set;
  },
)
enable_by-Inv (failed e) c v = (
  v.0,
  record {
    read_set = v.1.read_set;
    write_set = v.1.write_set;
    close_set = v.1.close_set;
    error_set = v.1.error_set;
  },
)
enable_by-Inv _ c v = v

-- What `flush` and `enable_by` leave alone.
pub enable_by-same : (how : End) (c : Connection) → (enable_by how c).accepted ≡ c.accepted
unfolding enable_by
enable_by-same returned c = refl
enable_by-same _ c = refl

pub enable_by-arrived : (how : End) (c : Connection) → (enable_by how c).arrived ≡ c.arrived
unfolding enable_by
enable_by-arrived returned c = refl
enable_by-arrived _ c = refl

pub then_Goes :
    {k j : ℕ} {c d e : Connection} (l m : ℕ)
    → Goes k j c d
    → Goes l m d e
    → Goes (k + l) (j + m) c e
then_Goes l m g h = record {
  inv = h.inv;
  out_by = omega (arith, g.out_by, h.out_by);
  in_by = omega (arith, g.in_by, h.in_by);
}

pub branch_Goes :
    {k j : ℕ} {c d e : Connection} (b : Bool)
    → Goes k j c d
    → Goes k j c e
    → Goes k j c (if b then d else e)
branch_Goes true g h = g
branch_Goes false g h = h

pub widen : {k j : ℕ} {c d : Connection} (l m : ℕ) → k ≤ l → j ≤ m → Goes k j c d → Goes l m c d
widen l m p q g = record {
  inv = g.inv;
  out_by = omega (arith, g.out_by);
  in_by = omega (arith, g.in_by);
}

flush_by-Goes :
    (ws : List WriteReply) {c : Connection}
    → Inv c
    → Goes 0 0 c (enable_by (flush ws c).0 (flush ws c).1)
flush_by-Goes ws {c} v = record {
  inv = enable_by-Inv (flush ws c).0 (flush ws c).1 (flush-Inv ws c v);
  out_by = omega (arith, ap length (enable_by-same (flush ws c).0 (flush ws c).1), out);
  in_by = omega (arith, enable_by-arrived (flush ws c).0 (flush ws c).1, arr);
}
  where
    out : length (flush ws c).1.accepted ≡ length c.accepted
    out = unfold flush in refl

    arr : (flush ws c).1.arrived ≡ c.arrived
    arr = unfold flush in refl

send-Goes :
    (s : List ℕ) (ws : List WriteReply) (j : ℕ) {c : Connection}
    → Inv c
    → Room (length s) j c
    → Goes (length s) 0 c (send s ws c)
unfolding send
send-Goes s ws j {c} v r =
    let first = put_out-Goes s j v r in
    let both = then_Goes 0 0 first (flush_by-Goes ws first.inv) in
    branch_Goes c.shut_down (stays (length s) 0 v)
      (widen (length s) 0 (omega arith) (omega arith) both)

-- The bytes that a call, the calls of a callback or an event can bring in.
abbrev pub call_volume : Call → ℕ
call_volume (sends s ws) = length s
call_volume (consumes n) = 0
call_volume shuts = 0

abbrev pub calls_volume : List Call → ℕ
calls_volume [] = 0
calls_volume (k ∷ ks) = call_volume k + calls_volume ks

abbrev pub pieces_volume : List (List ℕ) → ℕ
pieces_volume [] = 0
pieces_volume (s ∷ more) = length s + pieces_volume more

abbrev pub out_volume : Event → ℕ
out_volume (polls flags a) = pieces_volume a.pieces_written + calls_volume a.calls_made
out_volume (uses k) = call_volume k

abbrev pub in_volume : Event → ℕ
in_volume (polls flags a) = length (received a.replies_to_read)
in_volume (uses k) = 0

pub call-Goes :
    (k : Call) (j : ℕ) {c : Connection}
    → Inv c
    → Room (call_volume k) j c
    → Goes (call_volume k) 0 c (call k c)
unfolding call
call-Goes (sends s ws) j {c} v r = send-Goes s ws j {c = c} v r
call-Goes (consumes n) j {c} v r = record {
  inv = (
    record {
      reads_valid = have_read-IsValid n v.0.reads_valid;
      writes_valid = v.0.writes_valid;
      kept = v.0.kept;
      in_le = omega (arith, write_index-have_read_le n c.read_buffer, v.0.in_le);
      out_le = v.0.out_le;
    },
    v.1,
  );
  out_by = omega arith;
  in_by = omega arith;
}
call-Goes shuts j v r =
    unfold close in record { inv = v; out_by = omega arith; in_by = omega arith }

-- A step that runs only while the program does.
pub while_running-Goes :
    (k j : ℕ) (f : Connection → Connection) {c : Connection}
    → Inv c
    → Goes k j c (f c)
    → Goes k j c (while_running f c)
while_running-Goes k j f {c} v g = go c.status
  where
    go : (s : Status) → Goes k j c (elim s [ running ↦ f c | _ ↦ c ])
    go running = g
    go _ = stays k j v

pub calls-Goes :
    (ks : List Call) (j : ℕ) {c : Connection}
    → Inv c
    → Room (calls_volume ks) j c
    → Goes (calls_volume ks) 0 c (calls ks c)
unfolding calls
calls-Goes [] j v r = stays 0 0 v
calls-Goes (k ∷ ks) j {c} v r =
    let one : Goes (call_volume k) 0 c (while_running (call k) c) =
      while_running-Goes (call_volume k) 0 (call k) v (call-Goes k j v (omega arith)) in
    then_Goes (calls_volume ks) 0 one
      (calls-Goes ks j one.inv (omega (arith, one.out_by, one.in_by)))
