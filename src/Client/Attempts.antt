-- ===== src/Client/Attempts.antt =====
-- How often a client calls `connect`.
use ladder.Prelude.{
  branch, ap, ℕ, suc, ◌+◌, ◌≤◌, ◌≡◌, refl, Bool, true, false, ◌||◌, Option, none, some, List, [],
  ◌∷◌, leb, if◌then◌else◌, Bool-cases, inl, inr, arith,
}
use ladder.Channel.{Channel, Flags, invoke_if_set, handle_events, set_revents, no_flags}
use ladder.Client.{
  prepared, run_out, new_connector, set_channel_callbacks, Client, Connector, Status, Handler,
  disconnected, connecting, connected, Reply, accepted, zero_errno, einprogress, eintr, eisconn,
  handles_connect, retries, new_client, on_connection_failure_callback, wait_to_retry, retry_with,
  retry, started, start, connect, disconnect, on_connection_callback, handle_connect, handle,
  polled, on_timer, Event, connects, disconnects, polls, expires, step, run,
}

abbrev bit : Bool → ℕ
bit true = 1
bit false = 0

-- With the attempt that a running timer will bring, there are no more attempts than the retries
-- counted and the limit allow.
abbrev Within : ℕ → Option Connector → ℕ → Type 0
Within m none attempts = attempts ≡ 0
Within m (some k) attempts =
    (attempts + bit k.timer.pending ≤ suc k.retry_count) × (attempts + bit k.timer.pending ≤ suc m)

abbrev Inv : ℕ → Client → Type 0
Inv m c = (c.max_retry ≡ m) × Within m c.connector c.attempts

bit_le : (b : Bool) → bit b ≤ 1
bit_le true = omega arith
bit_le false = omega arith

on_connection_failure_callback-Inv :
    (m : ℕ) (c : Client) → Inv m c → Inv m (on_connection_failure_callback c)
unfolding on_connection_failure_callback
on_connection_failure_callback-Inv m c p = go c.conn
  where
    go :
        (conn : Option ℕ)
        → Inv m (elim conn [
          | none ↦ record c { broken = true }
          | some fd ↦ record c { conn = none; status = disconnected }
        ])
    go none = p
    go (some fd) = p

retry_with-Inv :
    (m : ℕ) (k : Connector) (c : Client)
    → c.max_retry ≡ m
    → c.attempts + bit k.timer.pending ≤ suc k.retry_count
    → c.attempts + bit k.timer.pending ≤ suc m
    → Inv m (retry_with k c)
unfolding retry_with
retry_with-Inv m k c p q r = elim (Bool-cases (leb (suc k.retry_count) c.max_retry)) [
  | inl t ↦
      let low : suc k.retry_count ≤ m = ground arith in
      let one = bit_le (wait_to_retry k).timer.pending in
      rw t (p, (counted (omega (arith, one)), omega (arith, one)))
  | inr f ↦ rw f (
      on_connection_failure_callback-Inv m
        (record c { connector = some (record k { retry_count = suc k.retry_count }) })
        (p, (omega arith, r)))
]
  where
    counted :
        c.attempts + bit (wait_to_retry k).timer.pending ≤ suc (suc k.retry_count)
        → c.attempts + bit (wait_to_retry k).timer.pending ≤ suc (wait_to_retry k).retry_count
    counted h = unfold wait_to_retry in h

retry-Inv : (m : ℕ) (c : Client) → Inv m c → Inv m (retry c)
unfolding retry
retry-Inv m c p = go c.connector p.1
  where
    go :
        (o : Option Connector)
        → Within m o c.attempts
        → Inv m (elim o [ none ↦ c | some k ↦ retry_with k c ])
    go none q = p
    go (some k) q = retry_with-Inv m k c p.0 q.0 q.1

started-Inv : (m : ℕ) (r : Reply) (c : Client) → Inv m c → Inv m (started r c)
unfolding started
started-Inv m accepted c p = p
started-Inv m zero_errno c p = p
started-Inv m einprogress c p = p
started-Inv m eintr c p = p
started-Inv m eisconn c p = p
started-Inv m _ c p = retry-Inv m c p

start-Inv :
    (m : ℕ) (r : Reply) (k : Connector) (c : Client)
    → c.max_retry ≡ m
    → c.connector ≡ some k
    → suc c.attempts + bit k.timer.pending ≤ suc k.retry_count
    → suc c.attempts + bit k.timer.pending ≤ suc m
    → Inv m (start r c)
unfolding start
start-Inv m r k c p e q s = started-Inv m r _ (p, rw e (q, s))

connect-Inv : (m fd : ℕ) (r : Reply) (c : Client) → Inv m c → Inv m (connect fd r c)
unfolding connect prepared new_connector
connect-Inv m fd r c p = go c.status
  where
    go : (s : Status) → Inv m (elim s [ disconnected ↦ start r (prepared fd c) | _ ↦ c ])
    go disconnected =
        start-Inv m r (new_connector c.retry_initial_timeout) (prepared fd c) p.0 refl (omega arith)
          (omega arith)
    go _ = p

disconnect-Inv : (m : ℕ) (c : Client) → Inv m c → Inv m (disconnect c)
unfolding disconnect
disconnect-Inv m c p = go c.status
  where
    go : (s : Status) → Inv m (elim s [ connected ↦ record c { status = connecting } | _ ↦ c ])
    go connected = p
    go _ = p

handle-Inv :
    (m : ℕ) (failed : Bool) (h : Handler) (c : Client) → Inv m c → Inv m (handle failed h c)
unfolding handle handle_connect on_connection_callback
handle-Inv m true handles_connect c p = retry-Inv m c p
handle-Inv m false handles_connect c p = go c.conn
  where
    go :
        (conn : Option ℕ)
        → Inv m (elim conn [
          | none ↦ record c { status = connected; broken = true }
          | some fd ↦ record c { status = connected; channel = set_channel_callbacks c.channel }
        ])
    go none = p
    go (some fd) = p
handle-Inv m failed retries c p = retry-Inv m c p
handle-Inv m failed _ c p = p

invoke_if_set-Inv :
    (m : ℕ) (failed : Bool) (s : Option Handler) (c : Client)
    → Inv m c
    → Inv m (invoke_if_set (handle failed) s c)
invoke_if_set-Inv m failed none c p = p
invoke_if_set-Inv m failed (some h) c p = handle-Inv m failed h c p

dispatched-Inv :
    (m : ℕ) (flags : Flags) (failed : Bool) (c : Client)
    → Inv m c
    → Inv m (
        handle_events
          (λ (d : Client). d.channel)
          (λ (ch : Channel Handler) (d : Client). record d { channel = ch })
          (handle failed)
          (record c { channel = set_revents flags c.channel }))
unfolding handle_events set_revents
dispatched-Inv m flags failed c p =
    let evts = (set_revents flags c.channel).revents in
    let d = record c { channel = record (set_revents flags c.channel) { revents = no_flags } } in
    let e = if evts.poll_out then invoke_if_set (handle failed) d.channel.write_callback d else d in
    let q : Inv m e =
      branch (Inv m) evts.poll_out (invoke_if_set-Inv m failed d.channel.write_callback d p) p in
    branch (Inv m) evts.poll_hup (invoke_if_set-Inv m failed d.channel.close_callback d p) (
      branch (Inv m) evts.poll_err (invoke_if_set-Inv m failed d.channel.error_callback d p) (
        branch (Inv m) (evts.poll_in || evts.poll_rd_hup)
          (invoke_if_set-Inv m failed e.channel.read_callback e q) q))

polled-Inv :
    (m : ℕ) (flags : Flags) (failed : Bool) (c : Client) → Inv m c → Inv m (polled flags failed c)
unfolding polled
polled-Inv m flags failed c p = go c.conn
  where
    go :
        (conn : Option ℕ)
        → Inv m (elim conn [
          | none ↦ c
          | some fd ↦
              handle_events
                (λ (d : Client). d.channel)
                (λ (ch : Channel Handler) (d : Client). record d { channel = ch })
                (handle failed)
                (record c { channel = set_revents flags c.channel })
        ])
    go none = p
    go (some fd) = dispatched-Inv m flags failed c p

run_out-Inv :
    (m : ℕ) (r : Reply) (k : Connector) (c : Client) (b : Bool)
    → k.timer.pending ≡ b
    → c.max_retry ≡ m
    → Within m (some k) c.attempts
    → Inv m c
    → Inv m (if b then start r (run_out k c) else c)
run_out-Inv m r k c true e p q i =
    start-Inv m r (record k { timer = record (k.timer) { pending = false } }) (run_out k c) p refl
      (omega (arith, q.0, ap bit e)) (omega (arith, q.1, ap bit e))
run_out-Inv m r k c false e p q i = i

on_timer-Inv : (m : ℕ) (r : Reply) (c : Client) → Inv m c → Inv m (on_timer r c)
unfolding on_timer
on_timer-Inv m r c p = go c.connector p.1
  where
    go :
        (o : Option Connector)
        → Within m o c.attempts
        → Inv m
            (elim o [ none ↦ c | some k ↦ if k.timer.pending then start r (run_out k c) else c ])
    go none q = p
    go (some k) q = run_out-Inv m r k c k.timer.pending refl p.0 q p

run-Inv : (m : ℕ) (es : List Event) (c : Client) → Inv m c → Inv m (run es c)
unfolding run step
run-Inv m [] c p = p
run-Inv m (connects fd r ∷ es) c p = run-Inv m es (connect fd r c) (connect-Inv m fd r c p)
run-Inv m (disconnects ∷ es) c p = run-Inv m es (disconnect c) (disconnect-Inv m c p)
run-Inv m (polls flags failed ∷ es) c p =
    run-Inv m es (polled flags failed c) (polled-Inv m flags failed c p)
run-Inv m (expires r ∷ es) c p = run-Inv m es (on_timer r c) (on_timer-Inv m r c p)

new_client-Inv : (t m : ℕ) → Inv m (new_client t m)
unfolding new_client
new_client-Inv t m = (refl, refl)

attempted : (m : ℕ) (o : Option Connector) (a : ℕ) → Within m o a → a ≤ suc m
attempted m none a p = omega (arith, p)
attempted m (some k) a p = omega (arith, p.1)

-- For each call of `Connect` that is taken up, `connect` is called at most once more often than the
-- limit on retries says, whatever the kernel answers, reports and when.
pub attempts-run_le :
    (retry_initial_timeout max_retry : ℕ) (es : List Event)
    → (run es (new_client retry_initial_timeout max_retry)).attempts ≤ suc max_retry
attempts-run_le t m es =
    let c = run es (new_client t m) in
    attempted m c.connector c.attempts (run-Inv m es (new_client t m) (new_client-Inv t m)).1
