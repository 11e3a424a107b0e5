-- ===== src/Client/Waits.antt =====
-- How long a client waits between its attempts.
use ladder.Prelude.{
  ℕ, zero, suc, ◌+◌, ◌*◌, ◌%◌, ◌^◌, ◌<◌, ◌≡◌, refl, max, Bool, true, false, not, ◌==◌, leb, Option,
  none, some, ap, ◌∙◌, arith,
}
use ladder.Client.{
  Client, Connector, Timer, Reply, new_connector, wait_to_retry, set_interval, retry, retry_with,
  on_timer, min_retry_initial_timeout,
}

-- A connector after that many retries.
abbrev pub after : ℕ → Connector → Connector
after zero k = k
after (suc n) k = wait_to_retry (after n k)

-- The first timeout, doubled that often in 16 bits.
abbrev pub wait : ℕ → ℕ → ℕ
wait t n = max t min_retry_initial_timeout * 2 ^ n % 2 ^ 16

doubled : (x y z : ℕ) → z ≡ y * 2 → x ≡ y % 2 ^ 16 → x * 2 % 2 ^ 16 ≡ z % 2 ^ 16
doubled x y z p q = omega arith

twice : (m n : ℕ) → m * 2 ^ suc n ≡ m * 2 ^ n * 2
twice m n = grind arith

retry_timeout-after : (t n : ℕ) → t < 2 ^ 16 → (after n (new_connector t)).retry_timeout ≡ wait t n
unfolding new_connector wait_to_retry
retry_timeout-after t zero h = omega arith
retry_timeout-after t (suc n) h =
    doubled (after n (new_connector t)).retry_timeout (max t 5 * 2 ^ n) (max t 5 * 2 ^ suc n)
      (twice (max t 5) n) (retry_timeout-after t n h)

retry_count-after : (t n : ℕ) → (after n (new_connector t)).retry_count ≡ n
unfolding new_connector wait_to_retry
retry_count-after t zero = refl
retry_count-after t (suc n) = ap suc (retry_count-after t n)

set_interval_lem :
    (i : ℕ) (p : Bool) (t : Timer)
    → ((set_interval i p t).seconds * 1000000000 + (set_interval i p t).nanoseconds ≡ i * 1000)
      × ((set_interval i p t).nanoseconds < 1000000000)
      × ((set_interval i p t).pending ≡ not (i == 0))
unfolding set_interval
set_interval_lem i p t = (omega arith, omega arith, ground arith)

-- The n-th retry of a connector, counted from zero, sets its timer to the first timeout, five
-- milliseconds at least, doubled n times in 16 bits. The timer does not run where that is zero.
pub timer-after :
    (t n : ℕ)
    → t < 2 ^ 16
    → let k = after (suc n) (new_connector t) in
      (k.timer.seconds * 1000000000 + k.timer.nanoseconds ≡ wait t n * 1000000)
      × (k.timer.nanoseconds < 1000000000)
      × (k.timer.pending ≡ not (wait t n == 0))
      × (k.retry_count ≡ suc n)
timer-after t n h = (
  set_to.0 ∙ ap (λ (w : ℕ). w * 1000 * 1000) now ∙ arith_of (wait t n),
  set_to.1,
  set_to.2 ∙ ap (λ (w : ℕ). not (w * 1000 == 0)) now ∙ zero_of (wait t n),
  retry_count-after t (suc n),
)
  where
    now : (after n (new_connector t)).retry_timeout ≡ wait t n
    now = retry_timeout-after t n h

    arith_of : (w : ℕ) → w * 1000 * 1000 ≡ w * 1000000
    arith_of w = omega arith

    zero_of : (w : ℕ) → not (w * 1000 == 0) ≡ not (w == 0)
    zero_of w = ground arith

    k : Connector
    k = after n (new_connector t)

    set_to :
        (((after (suc n) (new_connector t)).timer.seconds * 1000000000
            + (after (suc n) (new_connector t)).timer.nanoseconds)
          ≡ k.retry_timeout * 1000 * 1000)
        × ((after (suc n) (new_connector t)).timer.nanoseconds < 1000000000)
        × ((after (suc n) (new_connector t)).timer.pending ≡ not (k.retry_timeout * 1000 == 0))
    set_to = unfold wait_to_retry in set_interval_lem (k.retry_timeout * 1000) false k.timer

retry_waits :
    (k : Connector) (c : Client)
    → c.connector ≡ some k
    → k.retry_count < c.max_retry
    → retry c ≡ record c { connector = some (wait_to_retry k) }
unfolding retry retry_with
retry_waits k c e l = counted c.connector e
  where
    low : leb (suc k.retry_count) c.max_retry ≡ true
    low = ground arith

    counted :
        (o : Option Connector)
        → o ≡ some k
        → (elim o [ none ↦ c | some j ↦ retry_with j c ])
          ≡ record c { connector = some (wait_to_retry k) }
    counted o p = rw (p, low) refl

on_timer_idle :
    (k : Connector) (c : Client) (r : Reply)
    → k.timer.pending ≡ false
    → on_timer r (record c { connector = some k }) ≡ record c { connector = some k }
unfolding on_timer
on_timer_idle k c r p = rw p refl

-- A connector whose doubled timeout has wrapped to zero makes its client wait for ever: the retry
-- is counted, the client is told of no failure, and the timer that should bring the next attempt
-- is off.
pub retry_stalls :
    (t n : ℕ) (c : Client) (r : Reply)
    → t < 2 ^ 16
    → wait t n ≡ 0
    → c.connector ≡ some (after n (new_connector t))
    → n < c.max_retry
    → (on_timer r (retry c) ≡ retry c) × ((retry c).status ≡ c.status) × ((retry c).conn ≡ c.conn)
retry_stalls t n c r h z e l =
    rw (retry_waits k c e (omega (arith, retry_count-after t n)))
      (on_timer_idle (wait_to_retry k) c r off, refl, refl)
  where
    k : Connector
    k = after n (new_connector t)

    off : (wait_to_retry k).timer.pending ≡ false
    off = (timer-after t n h).2 ∙ ap (λ (w : ℕ). not (w == 0)) z
