-- ===== src/Connection/Stage.antt =====
-- Whether a connection is in the loop, and the handlers that leave it there.
use ladder.Prelude.{
  branch, ℕ, ◌≤◌, ◌≡◌, refl, Bool, true, false, not, ◌&&◌, Option, List, [], ◌∷◌, if◌then◌else◌,
  arith,
}
use ladder.Buffer.{is_empty}
use ladder.Buffer.Io.{End, returned, failed, exited, waiting}
use ladder.Channel.{enable_write}
use ladder.Connection.{
  Connection, Handler, Status, running, while_running, close, on_close_callback, flush, enable_by,
  put_out, Call, sends, consumes, shuts, call, calls, send, close_if_drained, after_read,
}
use ladder.Connection.Output.{Wired}

-- The connection is in the loop or not, and was closed before if not.
pub record Life (here registered : Bool) (close_calls : ℕ)
    (on_read on_write on_close on_error : Option Handler) : Type 0 where
  pub now : registered ≡ here
  pub told : close_calls ≤ (if here then 0 else 1)
  pub wired : Wired on_read on_write on_close on_error

abbrev pub Stage : Bool → Connection → Type 0
Stage here c =
    Life here c.registered c.close_calls c.channel.read_callback c.channel.write_callback
      c.channel.close_callback c.channel.error_callback

pub while_running-Stage :
    (here : Bool) (f : Connection → Connection) {c : Connection}
    → Stage here c
    → Stage here (f c)
    → Stage here (while_running f c)
while_running-Stage here f {c} p q = go c.status
  where
    go : (s : Status) → Stage here (elim s [ running ↦ f c | _ ↦ c ])
    go running = q
    go _ = p

-- `wired` again, for a channel with other flags.
pub again :
    {here registered : Bool} {n : ℕ} {a b c d : Option Handler}
    → Life here registered n a b c d
    → Life here registered n a b c d
again p = record {
  now = p.now;
  told = p.told;
  wired = record {
    read_set = p.wired.read_set;
    write_set = p.wired.write_set;
    close_set = p.wired.close_set;
    error_set = p.wired.error_set;
  };
}

pub enable_by-Stage :
    (here : Bool) (how : End) (c : Connection) → Stage here c → Stage here (enable_by how c)
unfolding enable_by enable_write
enable_by-Stage here returned c p = again p
enable_by-Stage here (failed e) c p = again p
enable_by-Stage here (exited e) c p = p
enable_by-Stage here waiting c p = p

pub call-Stage : (here : Bool) (k : Call) (c : Connection) → Stage here c → Stage here (call k c)
unfolding call send close
call-Stage here (sends s ws) c p = branch (Stage here) c.shut_down p (
    enable_by-Stage here (flush ws (put_out s c)).0 (flush ws (put_out s c)).1
      (unfold flush put_out in p))
call-Stage here (consumes n) c p = p
call-Stage here shuts c p = p

calls-Stage :
    (here : Bool) (ks : List Call) (c : Connection) → Stage here c → Stage here (calls ks c)
unfolding calls
calls-Stage here [] c p = p
calls-Stage here (k ∷ ks) c p =
    calls-Stage here ks (while_running (call k) c)
      (while_running-Stage here (call k) {c = c} p (call-Stage here k c p))

pub after_read-Stage :
    (here : Bool) (ks : List Call) (c : Connection) → Stage here c → Stage here (after_read ks c)
unfolding after_read close_if_drained close
after_read-Stage here ks c p =
    let d = if c.has_read_callback && not (is_empty c.read_buffer) then calls ks c else c in
    let q : Stage here d =
      branch (Stage here) (c.has_read_callback && not (is_empty c.read_buffer))
        (calls-Stage here ks c p) p in
    while_running-Stage here close_if_drained {c = d} q
      (branch (Stage here) (d.shut_down && is_empty d.write_buffer) q q)

pub on_close_callback-Stage : (c : Connection) → Stage true c → Stage false (on_close_callback c)
unfolding on_close_callback
on_close_callback-Stage c p = record {
  now = refl;
  told =
      branch (λ (n : ℕ). n ≤ 1) c.has_close_callback (omega (arith, p.told))
        (omega (arith, p.told));
  wired = p.wired;
}
