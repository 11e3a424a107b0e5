-- ===== src/Connection/Events.antt =====
-- The flow of bytes through the event handlers, and over a whole run.
use ladder.Prelude.{
  ℕ, ◌+◌, ◌<◌, ◌≡◌, refl, ap, ◌^◌, true, not, ◌&&◌, List, [], ◌∷◌, length, if◌then◌else◌, arith,
}
use ladder.Prelude.Errno.{econnreset}
use ladder.Buffer.{is_empty}
use ladder.Buffer.Io.{
  write_index-read_buffer_from_fd_le, ReadReply, WriteReply, End, returned, failed, exited, waiting,
  read_buffer_from_fd, received, read_buffer_from_fd_lem,
}
use ladder.Connection.{
  Connection, close, on_close_callback, flush, put_out, Call, calls, settle, close_if_drained,
  after_read, read_ended, on_read_callback, put_all, write_ended, on_write_callback,
}
use ladder.Connection.Output.{
  branch_Goes, widen, Inv, Goes, Room, stays, put_out-Goes, flush-Inv, enable_by-Inv,
  enable_by-same, enable_by-arrived, then_Goes, while_running-Goes, calls-Goes, calls_volume,
  pieces_volume,
}

-- A step that takes in nothing and leaves the flow as it is.
pub quiet :
    (k j : ℕ) {c d : Connection}
    → Inv d
    → d.accepted ≡ c.accepted
    → d.arrived ≡ c.arrived
    → Goes k j c d
quiet k j v p q = record { inv = v; out_by = omega (arith, ap length p); in_by = omega (arith, q) }

close_if_drained-Goes : {c : Connection} → Inv c → Goes 0 0 c (close_if_drained c)
unfolding close_if_drained close
close_if_drained-Goes {c} v =
    branch_Goes (c.shut_down && is_empty c.write_buffer) (quiet 0 0 v refl refl) (stays 0 0 v)

after_read-Goes :
    (ks : List Call) (j : ℕ) {c : Connection}
    → Inv c
    → Room (calls_volume ks) j c
    → Goes (calls_volume ks) 0 c (after_read ks c)
unfolding after_read
after_read-Goes ks j {c} v r =
    let n = calls_volume ks in
    let called : Goes n 0 c
        (if c.has_read_callback && not (is_empty c.read_buffer) then calls ks c else c) =
      branch_Goes (c.has_read_callback && not (is_empty c.read_buffer)) (calls-Goes ks j v r)
        (stays n 0 v) in
    widen n 0 (omega arith) (omega arith) (
      then_Goes 0 0 called
        (while_running-Goes 0 0 close_if_drained called.inv (close_if_drained-Goes called.inv)))

read_ended-Goes :
    (how : End) (ks : List Call) (j : ℕ) {c : Connection}
    → Inv c
    → Room (calls_volume ks) j c
    → Goes (calls_volume ks) 0 c (read_ended how ks c)
unfolding read_ended on_close_callback
read_ended-Goes returned ks j {c} v r =
    let g = after_read-Goes ks j {c = record c { shut_down = true }} v r in
    record { inv = g.inv; out_by = g.out_by; in_by = g.in_by }
read_ended-Goes (failed econnreset) ks j v r = quiet (calls_volume ks) 0 v refl refl
read_ended-Goes (failed e) ks j v r = after_read-Goes ks j v r
read_ended-Goes (exited e) ks j v r = quiet (calls_volume ks) 0 v refl refl
read_ended-Goes waiting ks j v r = quiet (calls_volume ks) 0 v refl refl

pub on_read_callback-Goes :
    (rs : List ReadReply) (ks : List Call) {c : Connection}
    → Inv c
    → Room (calls_volume ks) (length (received rs)) c
    → Goes (calls_volume ks) (length (received rs)) c (on_read_callback rs ks c)
unfolding on_read_callback
on_read_callback-Goes rs ks {c} v r =
    let n = length (received rs) in
    let small : c.read_buffer.write_index + n < 2 ^ 32 = omega arith in
    let r1 = read_buffer_from_fd rs c.read_buffer in
    let g =
      read_ended-Goes r1.0 ks 0 {c = record c { read_buffer = r1.1; arrived = c.arrived + n }}
        (
          record {
            reads_valid = (read_buffer_from_fd_lem rs v.0.reads_valid small).1;
            writes_valid = v.0.writes_valid;
            kept = v.0.kept;
            in_le = omega (arith, write_index-read_buffer_from_fd_le rs c.read_buffer small);
            out_le = v.0.out_le;
          },
          v.1,
        )
        (omega arith) in
    branch_Goes c.shut_down (stays (calls_volume ks) n v)
      (record { inv = g.inv; out_by = g.out_by; in_by = omega (arith, g.in_by) })

put_all-Goes :
    (more : List (List ℕ)) (j : ℕ) {c : Connection}
    → Inv c
    → Room (pieces_volume more) j c
    → Goes (pieces_volume more) 0 c (put_all more c)
unfolding put_all
put_all-Goes [] j v r = stays 0 0 v
put_all-Goes (s ∷ more) j {c} v r =
    let one = put_out-Goes s j {c = c} v (omega arith) in
    then_Goes (pieces_volume more) 0 one
      (put_all-Goes more j {c = put_out s c} one.inv (omega (arith, one.out_by, one.in_by)))

settle-Goes : (how : End) {c : Connection} → Inv c → Goes 0 0 c (settle how c)
unfolding settle on_close_callback
settle-Goes how {c} v =
    branch_Goes (c.shut_down && is_empty c.write_buffer) (quiet 0 0 v refl refl)
      (quiet 0 0 (enable_by-Inv how c v) (enable_by-same how c) (enable_by-arrived how c))

put_and_settle-Goes :
    (how : End) (more : List (List ℕ)) (j : ℕ) {c : Connection}
    → Inv c
    → Room (pieces_volume more) j c
    → Goes
        (pieces_volume more)
        0
        c
        (settle how (if c.has_write_callback then put_all more c else c))
put_and_settle-Goes how more j {c} v r =
    let n = pieces_volume more in
    let written : Goes n 0 c (if c.has_write_callback then put_all more c else c) =
      branch_Goes c.has_write_callback (put_all-Goes more j v r) (stays n 0 v) in
    widen n 0 (omega arith) (omega arith) (then_Goes 0 0 written (settle-Goes how written.inv))

write_ended-Goes :
    (how : End) (more : List (List ℕ)) (j : ℕ) {c : Connection}
    → Inv c
    → Room (pieces_volume more) j c
    → Goes (pieces_volume more) 0 c (write_ended how more c)
unfolding write_ended
write_ended-Goes (exited e) more j v r = quiet (pieces_volume more) 0 v refl refl
write_ended-Goes waiting more j v r = quiet (pieces_volume more) 0 v refl refl
write_ended-Goes returned more j v r = put_and_settle-Goes returned more j v r
write_ended-Goes (failed e) more j v r = put_and_settle-Goes (failed e) more j v r

pub on_write_callback-Goes :
    (ws : List WriteReply) (more : List (List ℕ)) (j : ℕ) {c : Connection}
    → Inv c
    → Room (pieces_volume more) j c
    → Goes (pieces_volume more) 0 c (on_write_callback ws more c)
unfolding on_write_callback flush
on_write_callback-Goes ws more j {c} v r =
    let g = write_ended-Goes (flush ws c).0 more j {c = (flush ws c).1} (flush-Inv ws c v) r in
    record { inv = g.inv; out_by = g.out_by; in_by = g.in_by }
