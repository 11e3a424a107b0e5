-- ===== src/EventLoop.antt =====
-- ladder/src/EventLoop.cpp and the poller of EventPoller.cpp on Linux. One thread calls `StartLoop`;
-- what it does between two looks at the shared state is one step. `StopLoop` comes from any thread.
pub mod Stops
mod Tests
use ladder.Prelude.{
  ℕ, zero, suc, ◌+◌, ◌-◌, Bool, true, false, Option, none, some, List, [], ◌∷◌, ◌++◌, if◌then◌else◌,
}

-- The pipe of the poller, or a channel that was registered.
pub data Source : Type 0 where
  pipe : Source
  channel : ℕ → Source

-- What `epoll_wait` answers: the sources that are ready, EINTR, or another error.
pub data PollReply : Type 0 where
  ready : List Source → PollReply
  interrupted failed : PollReply

-- Where the thread is: outside `StartLoop`, at the test of the loop, before the poll, at the handling
-- of the channels that are left, or at `EXIT`.
pub data Phase : Type 0 where
  outside tests polls : Phase
  handles : List Source → Phase
  ended : Phase

-- `written` is how many bytes are in the pipe; `wakeups` counts the calls of the wakeup callback, and
-- `handled` notes the channels whose events were handled.
pub record EventLoop : Type 0 where
  pub running : Bool
  pub pending_tasks : List ℕ
  pub has_wakeup_callback : Bool
  pub written : ℕ
  pub wakeups : ℕ
  pub phase : Phase
  pub handled : List Source

pub new_event_loop : EventLoop
new_event_loop = record {
  running = false;
  pending_tasks = [];
  has_wakeup_callback = false;
  written = 0;
  wakeups = 0;
  phase = outside;
  handled = [];
}

-- `Pipe::ReadCallback`.
pub read_callback : EventLoop → EventLoop
read_callback l = record l {
  written = l.written - 1;
  wakeups = if l.has_wakeup_callback then suc l.wakeups else l.wakeups;
}

pub handle_events : Source → EventLoop → EventLoop
unfolding read_callback
handle_events pipe l = let m = read_callback l in record m { handled = l.handled ++ pipe ∷ [] }
handle_events (channel c) l = record l { handled = l.handled ++ channel c ∷ [] }

-- `EventPoller::Poll`: the active channels, if the program goes on.
pub poll : PollReply → Phase
poll (ready sources) = handles sources
poll interrupted = handles []
poll failed = ended

-- The call of `StartLoop`, up to the loop.
pub start_loop : EventLoop → EventLoop
start_loop l = if l.running then l else record l { running = true; phase = tests }

-- One step of the loop.
pub turn : Phase → PollReply → EventLoop → EventLoop
unfolding poll handle_events
turn outside reply l = l
turn tests reply l = record l { phase = if l.running then polls else outside }
turn polls reply l = record l { phase = poll reply }
turn (handles []) reply l = record l { phase = tests }
turn (handles (s ∷ rest)) reply l = record (handle_events s l) { phase = handles rest }
turn ended reply l = l

-- `StopLoop`: first the flag, then `Wakeup`.
pub clear_running : EventLoop → EventLoop
clear_running l = record l { running = false }

pub wakeup : EventLoop → EventLoop
wakeup l = record l { written = suc l.written }

pub queue_in_loop : ℕ → EventLoop → EventLoop
queue_in_loop task l = record l { pending_tasks = l.pending_tasks ++ task ∷ [] }

pub data Event : Type 0 where
  starts : Event
  turns : PollReply → Event
  stops wakes : Event
  queues : ℕ → Event

-- A thread that is in the loop makes no other call of `StartLoop`.
pub start_outside : Phase → EventLoop → EventLoop
unfolding start_loop
start_outside outside l = start_loop l
start_outside phase l = l

pub step : Event → EventLoop → EventLoop
unfolding start_outside turn clear_running wakeup queue_in_loop
step starts l = start_outside l.phase l
step (turns reply) l = turn l.phase reply l
step stops l = clear_running l
step wakes l = wakeup l
step (queues task) l = queue_in_loop task l

pub run : List Event → EventLoop → EventLoop
unfolding step
run [] l = l
run (e ∷ es) l = run es (step e l)
