-- ===== src/Client/Stuck.antt =====
-- What a client does after `Disconnect`.
use ladder.Prelude.{
  branch, ℕ, ◌≡◌, refl, Bool, false, ◌||◌, Option, none, some, List, [], ◌∷◌, if◌then◌else◌,
}
use ladder.Channel.{Channel, Flags, invoke_if_set, handle_events, set_revents, no_flags}
use ladder.Client.{
  Client, Connector, Status, Handler, disconnected, connecting, connected, Reply, prepared, run_out,
  start, conn_reads, conn_writes, conn_closes, connect, disconnect, handle, polled, on_timer, Event,
  connects, disconnects, polls, expires, step, run,
}

-- The channel calls the connection's own handlers.
pub record Wired (on_read on_write on_close on_error : Option Handler) : Type 0 where
  pub read_set : on_read ≡ some conn_reads
  pub write_set : on_write ≡ some conn_writes
  pub close_set : on_close ≡ some conn_closes
  pub error_set : on_error ≡ some conn_closes

abbrev pub IsWired : Channel Handler → Type 0
IsWired ch = Wired ch.read_callback ch.write_callback ch.close_callback ch.error_callback

abbrev pub IsIdle : Option Connector → Type 0
IsIdle none = Unit
IsIdle (some k) = k.timer.pending ≡ false

abbrev Stays : ℕ → Client → Type 0
Stays n c = (c.status ≡ connecting) × (c.attempts ≡ n) × IsWired c.channel × IsIdle c.connector

connect-Stays : (n fd : ℕ) (r : Reply) (c : Client) → Stays n c → Stays n (connect fd r c)
unfolding connect
connect-Stays n fd r c p = refused c.status p.0
  where
    refused :
        (s : Status)
        → s ≡ connecting
        → Stays n (elim s [ disconnected ↦ start r (prepared fd c) | _ ↦ c ])
    refused s q = rw q p

disconnect-Stays : (n : ℕ) (c : Client) → Stays n c → Stays n (disconnect c)
unfolding disconnect
disconnect-Stays n c p = refused c.status p.0
  where
    refused :
        (s : Status)
        → s ≡ connecting
        → Stays n (elim s [ connected ↦ record c { status = connecting } | _ ↦ c ])
    refused s q = rw q p

on_timer-Stays : (n : ℕ) (r : Reply) (c : Client) → Stays n c → Stays n (on_timer r c)
unfolding on_timer
on_timer-Stays n r c p = unset c.connector p.3
  where
    unset :
        (o : Option Connector)
        → IsIdle o
        → Stays n
            (elim o [ none ↦ c | some k ↦ if k.timer.pending then start r (run_out k c) else c ])
    unset none q = p
    unset (some k) q = rw q p

own :
    (n : ℕ) (failed : Bool) (s : Option Handler) (h : Handler) (c : Client)
    → s ≡ some h
    → handle failed h c ≡ c
    → Stays n c
    → Stays n (invoke_if_set (handle failed) s c)
own n failed s h c p q r = rw (p, q) r

polled-Stays :
    (n : ℕ) (flags : Flags) (failed : Bool) (c : Client)
    → Stays n c
    → Stays n (polled flags failed c)
unfolding polled handle_events set_revents handle
polled-Stays n flags failed c p = reported c.conn
  where
    evts : Flags
    evts = (set_revents flags c.channel).revents

    d : Client
    d = record c { channel = record (set_revents flags c.channel) { revents = no_flags } }

    q : Stays n d
    q = p

    e : Client
    e = if evts.poll_out then invoke_if_set (handle failed) d.channel.write_callback d else d

    written : Stays n e
    written =
        branch (Stays n) evts.poll_out
          (own n failed d.channel.write_callback conn_writes d q.2.write_set refl q) q

    reported :
        (conn : Option ℕ)
        → Stays n (elim conn [
          | none ↦ c
          | some fd ↦
              handle_events
                (λ (x : Client). x.channel)
                (λ (ch : Channel Handler) (x : Client). record x { channel = ch })
                (handle failed)
                (record c { channel = set_revents flags c.channel })
        ])
    reported none = p
    reported (some fd) =
        branch (Stays n) evts.poll_hup
          (own n failed d.channel.close_callback conn_closes d q.2.close_set refl q)
          (branch (Stays n) evts.poll_err
            (own n failed d.channel.error_callback conn_closes d q.2.error_set refl q)
            (branch (Stays n) (evts.poll_in || evts.poll_rd_hup)
              (own n failed e.channel.read_callback conn_reads e written.2.read_set refl written)
              written))

run-Stays : (n : ℕ) (es : List Event) (c : Client) → Stays n c → Stays n (run es c)
unfolding run step
run-Stays n [] c p = p
run-Stays n (connects fd r ∷ es) c p = run-Stays n es (connect fd r c) (connect-Stays n fd r c p)
run-Stays n (disconnects ∷ es) c p = run-Stays n es (disconnect c) (disconnect-Stays n c p)
run-Stays n (polls flags failed ∷ es) c p =
    run-Stays n es (polled flags failed c) (polled-Stays n flags failed c p)
run-Stays n (expires r ∷ es) c p = run-Stays n es (on_timer r c) (on_timer-Stays n r c p)

-- Once a connected client, whose timer is off and whose channel is the connection's, has called
-- `Disconnect`, its status is connecting whatever follows, also when the connection is closed and
-- when `Connect` is called again: it never attempts to connect again.
pub disconnect-final :
    (c : Client) (es : List Event)
    → c.status ≡ connected
    → IsWired c.channel
    → IsIdle c.connector
    → ((run es (disconnect c)).status ≡ connecting)
      × ((run es (disconnect c)).attempts ≡ c.attempts)
unfolding disconnect
disconnect-final c es s w i =
    let p = run-Stays c.attempts es (disconnect c) (left c.status s) in (p.0, p.1)
  where
    left :
        (x : Status)
        → x ≡ connected
        → Stays c.attempts (elim x [ connected ↦ record c { status = connecting } | _ ↦ c ])
    left x q = rw q (refl, refl, w, i)
