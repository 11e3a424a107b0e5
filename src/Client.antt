-- ===== src/Client.antt =====
-- ladder_client/src: a client (TcpClient.cpp) that connects through a connector (Connector.cpp) with
-- a timer (Timer.cpp) between its attempts, on Linux. What the kernel answers comes with each event.
pub mod Attempts
pub mod Waits
pub mod Stuck
mod Tests
use ladder.Prelude.{
  ℕ, suc, ◌+◌, ◌*◌, ◌/◌, ◌%◌, ◌^◌, max, Bool, true, false, not, ◌&&◌, Option, none, some, List, [],
  ◌∷◌, leb, ◌==◌, if◌then◌else◌,
}
use ladder.Channel.{
  Channel, Flags, new_channel, set_revents, set_epoll_edge_triggered, enable_write, handle_events,
}

-- `TcpConnectionStatus`.
pub data Status : Type 0 where
  disconnected connecting connected dis_connecting : Status

-- The callbacks of the connection's channel: the connector's, or the connection's own.
pub data Handler : Type 0 where
  handles_connect retries conn_reads conn_writes conn_closes : Handler

-- What `connect` returns: at least 0, or -1 and `errno`.
pub data Reply : Type 0 where
  accepted zero_errno einprogress eintr eisconn eagain eaddrinuse eaddrnotavail econnrefused
        enetunreach other_errno :
      Reply

-- `it_value` as it was last set, in seconds and nanoseconds. `pending` is the kernel's side: a
-- timer that is set to zero is not running, and one that is not periodic expires once.
pub record Timer : Type 0 where
  pub interval : ℕ
  pub seconds : ℕ
  pub nanoseconds : ℕ
  pub periodic : Bool
  pub pending : Bool

abbrev pub new_timer : Timer
new_timer = record { interval = 0; seconds = 0; nanoseconds = 0; periodic = false; pending = false }

-- In microseconds.
pub set_interval : ℕ → Bool → Timer → Timer
set_interval interval periodic t =
    let seconds = interval / 1000000 in
    let nanoseconds = interval % 1000000 * 1000 in
    record t {
      interval = interval;
      seconds = seconds;
      nanoseconds = nanoseconds;
      periodic = periodic;
      pending = not ((seconds == 0) && (nanoseconds == 0));
    }

pub record Connector : Type 0 where
  pub retry_count : ℕ
  pub retry_timeout : ℕ
  pub timer : Timer

abbrev pub min_retry_initial_timeout : ℕ
min_retry_initial_timeout = 5

pub new_connector : ℕ → Connector
new_connector retry_initial_timeout = record {
  retry_count = 0;
  retry_timeout = max retry_initial_timeout min_retry_initial_timeout;
  timer = new_timer;
}

-- `max_retry` is the client's, which hands it to each connector. `attempts` counts the calls of
-- `connect` for the present connector, and `broken` notes the use of a null `conn_`.
pub record Client : Type 0 where
  pub max_retry : ℕ
  pub retry_initial_timeout : ℕ
  pub status : Status
  pub conn : Option ℕ
  pub channel : Channel Handler
  pub connector : Option Connector
  pub attempts : ℕ
  pub broken : Bool

pub new_client : ℕ → ℕ → Client
new_client retry_initial_timeout max_retry = record {
  max_retry = max_retry;
  retry_initial_timeout = retry_initial_timeout;
  status = disconnected;
  conn = none;
  channel = new_channel 0;
  connector = none;
  attempts = 0;
  broken = false;
}

-- The name of the descriptor is read from `conn_` before `conn_` is dropped.
pub on_connection_failure_callback : Client → Client
on_connection_failure_callback c = elim c.conn [
  | none ↦ record c { broken = true }
  | some fd ↦ record c { conn = none; status = disconnected }
]

-- A retry that is left: the timer is set, and the timeout doubles in 16 bits.
pub wait_to_retry : Connector → Connector
unfolding set_interval
wait_to_retry k = record k {
  retry_count = suc k.retry_count;
  timer = set_interval (k.retry_timeout * 1000) false k.timer;
  retry_timeout = k.retry_timeout * 2 % 2 ^ 16;
}

pub retry_with : Connector → Client → Client
unfolding wait_to_retry on_connection_failure_callback
retry_with k c =
    if leb (suc k.retry_count) c.max_retry
    then record c { connector = some (wait_to_retry k) }
    else on_connection_failure_callback
        (record c { connector = some (record k { retry_count = suc k.retry_count }) })

pub retry : Client → Client
unfolding retry_with
retry c = elim c.connector [ none ↦ c | some k ↦ retry_with k c ]

-- By the answer of `connect`.
pub started : Reply → Client → Client
unfolding retry
started accepted c = c
started zero_errno c = c
started einprogress c = c
started eintr c = c
started eisconn c = c
started _ c = retry c

pub start : Reply → Client → Client
unfolding started enable_write
start r c = started r (record c {
  attempts = suc c.attempts;
  channel = enable_write true (record (c.channel) {
    write_callback = some handles_connect;
    error_callback = some retries;
    close_callback = some retries;
    read_callback = none;
  });
})

-- `Connection::SetChannelCallbacks`.
abbrev pub set_channel_callbacks : Channel Handler → Channel Handler
set_channel_callbacks ch = record ch {
  read_callback = some conn_reads;
  write_callback = some conn_writes;
  close_callback = some conn_closes;
  error_callback = some conn_closes;
}

-- A new connection and a new connector, before the first attempt.
pub prepared : ℕ → Client → Client
unfolding new_connector set_epoll_edge_triggered
prepared fd c = record c {
  status = connecting;
  conn = some fd;
  connector = some (new_connector c.retry_initial_timeout);
  attempts = 0;
  channel = set_channel_callbacks (set_epoll_edge_triggered true (new_channel fd));
}

-- The number is the descriptor that `socket` gives.
pub connect : ℕ → Reply → Client → Client
unfolding prepared start
connect fd r c = elim c.status [ disconnected ↦ start r (prepared fd c) | _ ↦ c ]

pub disconnect : Client → Client
disconnect c = elim c.status [ connected ↦ record c { status = connecting } | _ ↦ c ]

pub on_connection_callback : Client → Client
on_connection_callback c = elim c.conn [
  | none ↦ record c { status = connected; broken = true }
  | some fd ↦ record c { status = connected; channel = set_channel_callbacks c.channel }
]

-- The first argument tells whether the socket has an error.
pub handle_connect : Bool → Client → Client
unfolding retry on_connection_callback
handle_connect failed c = if failed then retry c else on_connection_callback c

-- The connection's own handlers end in `OnCloseConnectionCallback`, which changes nothing here.
pub handle : Bool → Handler → Client → Client
unfolding handle_connect retry
handle failed handles_connect c = handle_connect failed c
handle failed retries c = retry c
handle failed _ c = c

-- The channel is reported while its descriptor is open, that is while `conn_` is.
pub polled : Flags → Bool → Client → Client
unfolding handle_events set_revents handle
polled flags failed c = elim c.conn [
  | none ↦ c
  | some fd ↦
      handle_events (λ (d : Client). d.channel)
        (λ (ch : Channel Handler) (d : Client). record d { channel = ch }) (handle failed)
        (record c { channel = set_revents flags c.channel })
]

-- The timer of this connector has run out.
abbrev pub run_out : Connector → Client → Client
run_out k c = record c {
  connector = some (record k { timer = record (k.timer) { pending = false } });
}

-- `OnTimer`, for a timer that is running: the connector starts again.
pub on_timer : Reply → Client → Client
unfolding start
on_timer r c = elim c.connector [
  | none ↦ c
  | some k ↦ if k.timer.pending then start r (run_out k c) else c
]

pub data Event : Type 0 where
  connects : ℕ → Reply → Event
  disconnects : Event
  polls : Flags → Bool → Event
  expires : Reply → Event

pub step : Event → Client → Client
unfolding connect disconnect polled on_timer
step (connects fd r) c = connect fd r c
step disconnects c = disconnect c
step (polls flags failed) c = polled flags failed c
step (expires r) c = on_timer r c

pub run : List Event → Client → Client
unfolding step
run [] c = c
run (e ∷ es) c = run es (step e c)
