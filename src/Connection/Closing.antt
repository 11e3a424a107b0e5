-- ===== src/Connection/Closing.antt =====
-- The end of a connection: the program is told of it once.
use ladder.Prelude.{
  branch, ◌⊎◌, ℕ, ◌+◌, ◌≤◌, ◌≡◌, refl, Bool, true, false, ◌&&◌, ◌||◌, Option, some, List, [], ◌∷◌,
  length, if◌then◌else◌, Bool-cases, inl, inr, arith,
}
use ladder.Prelude.Errno.{econnreset}
use ladder.Buffer.{is_empty}
use ladder.Buffer.Io.{
  ReadReply, WriteReply, End, returned, failed, exited, waiting, read_buffer_from_fd, received,
}
use ladder.Channel.{
  Flags, invoke_if_set, set_revents, set_epoll_edge_triggered, handle_events, no_flags,
}
use ladder.Connection.{
  with_callbacks, Connection, Handler, reads, writes, closes, Status, running, on_close_callback,
  flush, put_out, Call, call, new_connection, init, settle, read_ended, on_read_callback, put_all,
  write_ended, on_write_callback, Answers, handle, invoke, polled, Event, polls, uses, step, run,
  set_channel_callbacks,
}
use ladder.Connection.Stage.{
  Stage, while_running-Stage, again, enable_by-Stage, call-Stage, after_read-Stage,
  on_close_callback-Stage,
}

-- In the loop still, or out of it with the program told.
abbrev Told : Connection → Type 0
Told c = (here : Bool) × Stage here c

read_ended-Told :
    (how : End) (ks : List Call) (c : Connection) → Stage true c → Told (read_ended how ks c)
unfolding read_ended
read_ended-Told returned ks c p = (true, after_read-Stage true ks (record c { shut_down = true }) p)
read_ended-Told (failed econnreset) ks c p =
    (false, on_close_callback-Stage (record c { shut_down = true }) p)
read_ended-Told (failed e) ks c p = (true, after_read-Stage true ks c p)
read_ended-Told (exited e) ks c p = (true, p)
read_ended-Told waiting ks c p = (true, p)

on_read_callback-Told :
    (rs : List ReadReply) (ks : List Call) (c : Connection)
    → Stage true c
    → Told (on_read_callback rs ks c)
unfolding on_read_callback
on_read_callback-Told rs ks c p =
    let r = read_buffer_from_fd rs c.read_buffer in
    branch Told c.shut_down (true, p)
      (read_ended-Told r.0 ks
        (record c { read_buffer = r.1; arrived = c.arrived + length (received rs) }) p)

-- After the write callback: a connection that was closed there takes no more input.
abbrev Written : Connection → Type 0
Written c = Stage true c ⊎ (Stage false c × (c.shut_down ≡ true))

settle-Written : (how : End) (c : Connection) → Stage true c → Written (settle how c)
unfolding settle
settle-Written how c p = elim (Bool-cases c.shut_down) [
  | inl t ↦
      branch Written (c.shut_down && is_empty c.write_buffer)
        (inr (on_close_callback-Stage c p, (unfold on_close_callback in t)))
        (inl (enable_by-Stage true how c p))
  | inr f ↦ unfold settle in (simp f (inl (enable_by-Stage true how c p)))
]

put_all-Stage :
    (here : Bool) (more : List (List ℕ)) (c : Connection)
    → Stage here c
    → Stage here (put_all more c)
unfolding put_all put_out
put_all-Stage here [] c p = p
put_all-Stage here (s ∷ more) c p = put_all-Stage here more (put_out s c) p

on_write_callback-Written :
    (ws : List WriteReply) (more : List (List ℕ)) (c : Connection)
    → Stage true c
    → Written (on_write_callback ws more c)
unfolding on_write_callback flush write_ended
on_write_callback-Written ws more c p = ended_by (flush ws c).0 (flush ws c).1 p
  where
    ended_by : (how : End) (d : Connection) → Stage true d → Written (write_ended how more d)
    ended_by returned d q =
        settle-Written returned (if d.has_write_callback then put_all more d else d)
          (branch (Stage true) d.has_write_callback (put_all-Stage true more d q) q)
    ended_by (failed e) d q =
        settle-Written (failed e) (if d.has_write_callback then put_all more d else d)
          (branch (Stage true) d.has_write_callback (put_all-Stage true more d q) q)
    ended_by (exited e) d q = inl q
    ended_by waiting d q = inl q

-- One callback of the dispatch, whichever the channel holds in its place.
told_by :
    (a : Answers) (h : Handler) {s : Option Handler} (P : Connection → Type 0) (c : Connection)
    → s ≡ some h
    → P c
    → P (handle a h c)
    → P (invoke_if_set (invoke a) s c)
unfolding invoke
told_by a h P c p q r = rw p (go c.status)
  where
    go : (s : Status) → P (elim s [ running ↦ handle a h c | _ ↦ c ])
    go running = r
    go _ = q

closed-Told :
    (a : Answers) {s : Option Handler} (c : Connection)
    → s ≡ some closes
    → Stage true c
    → Told (invoke_if_set (invoke a) s c)
unfolding handle
closed-Told a c p q = told_by a closes Told c p (true, q) (false, on_close_callback-Stage c q)

input-Told :
    (a : Answers) (b : Bool) (c : Connection)
    → Written c
    → Told (if b then invoke_if_set (invoke a) c.channel.read_callback c else c)
unfolding handle
input-Told a b c (inl p) =
    branch Told b
      (told_by a reads Told c p.wired.read_set (true, p)
        (on_read_callback-Told a.replies_to_read a.calls_made c p))
      (true, p)
input-Told a b c (inr (p, shut)) =
    branch Told b
      (told_by a reads Told c p.wired.read_set (false, p)
        (unfold on_read_callback in (simp shut (false, p))))
      (false, p)

output-Written :
    (a : Answers) (b : Bool) (c : Connection)
    → Stage true c
    → Written (if b then invoke_if_set (invoke a) c.channel.write_callback c else c)
unfolding handle
output-Written a b c p =
    branch Written b
      (told_by a writes Written c p.wired.write_set (inl p)
        (on_write_callback-Written a.replies_to_write a.pieces_written c p))
      (inl p)

polled-Told :
    (flags : Flags) (a : Answers) (here : Bool) (c : Connection)
    → Stage here c
    → Told (polled flags a c)
unfolding polled handle_events set_revents
polled-Told flags a true c p =
    let evts = (set_revents flags c.channel).revents in
    let d = record c { channel = record (set_revents flags c.channel) { revents = no_flags } } in
    let q : Stage true d = again p in
    let e = if evts.poll_out then invoke_if_set (invoke a) d.channel.write_callback d else d in
    branch Told c.registered
      (branch Told evts.poll_hup (closed-Told a d q.wired.close_set q) (
        branch Told evts.poll_err (closed-Told a d q.wired.error_set q)
          (input-Told a (evts.poll_in || evts.poll_rd_hup) e (output-Written a evts.poll_out d q))))
      (true, p)
polled-Told flags a false c p = skipped _ p.now
  where
    skipped : {b : Bool} (x : Connection) → b ≡ false → Told (if b then x else c)
    skipped x q = simp q (false, p)

step-Told : (e : Event) (here : Bool) (c : Connection) → Stage here c → Told (step e c)
unfolding step
step-Told (polls flags a) here c p = go c.status
  where
    go : (s : Status) → Told (elim s [ running ↦ polled flags a c | _ ↦ c ])
    go running = polled-Told flags a here c p
    go _ = (here, p)
step-Told (uses k) here c p =
    (here, while_running-Stage here (call k) {c = c} p (call-Stage here k c p))

run-Told : (es : List Event) (here : Bool) (c : Connection) → Stage here c → Told (run es c)
unfolding run
run-Told [] here c p = (here, p)
run-Told (e ∷ es) here c p = let q = step-Told e here c p in run-Told es q.0 (step e c) q.1

init-Stage :
    (fd : ℕ) (reading writing : Bool)
    → Stage true (init (with_callbacks reading writing (new_connection fd)))
unfolding init new_connection set_channel_callbacks set_epoll_edge_triggered
init-Stage fd reading writing = record {
  now = refl;
  told = omega arith;
  wired = record { read_set = refl; write_set = refl; close_set = refl; error_set = refl };
}

-- However the polls, the system calls and the uses by the program fall out, the program's close
-- callback is called at most once, and not at all while the connection is in the loop.
pub close_calls-run_le :
    (fd : ℕ) (reading writing : Bool) (es : List Event)
    → let c = run es (init (with_callbacks reading writing (new_connection fd))) in
      c.close_calls ≤ (if c.registered then 0 else 1)
close_calls-run_le fd reading writing es =
    ended_with (run es start) (run-Told es true start (init-Stage fd reading writing))
  where
    start : Connection
    start = init (with_callbacks reading writing (new_connection fd))

    ended_with : (c : Connection) → Told c → c.close_calls ≤ (if c.registered then 0 else 1)
    ended_with c (here, p) = rw p.now p.told
