-- ===== src/TcpServer.antt =====
-- ladder/src/TcpServer.cpp and Acceptor.cpp on Linux: the connections from their acceptance to their
-- end. A connection closes its descriptor when it is destroyed, so a descriptor names one connection
-- as long as it is in use. `OnNewConnection` runs on a working thread and is cut at its locks.
pub mod Places
pub mod Stale
mod Tests
use ladder.Prelude.{
  ℕ, suc, ◌+◌, ◌≡◌, Bool, true, false, not, ◌&&◌, ◌||◌, List, [], ◌∷◌, ◌++◌, ◌==◌, if◌then◌else◌,
}

abbrev pub member : ℕ → List ℕ → Bool
member x [] = false
member x (y ∷ ys) = (x == y) || member x ys

abbrev pub erase : ℕ → List ℕ → List ℕ
erase x [] = []
erase x (y ∷ ys) = if x == y then ys else y ∷ erase x ys

-- `queued`: accepted, the task not begun. `opening`: behind the test of `running_`, the connection
-- made and registered, but not in the table. `connections`: the keys of the table. `hung_up`: of
-- these connections, those whose close callback was called. `left_open`: descriptors that nothing
-- refers to. `connected` notes the calls of the connection callback.
pub record TcpServer : Type 0 where
  pub running : Bool
  pub accepting : Bool
  pub queued : List ℕ
  pub opening : List ℕ
  pub connections : List ℕ
  pub hung_up : List ℕ
  pub left_open : List ℕ
  pub connected : List ℕ

-- Behind `Start`.
pub started_server : TcpServer
started_server = record {
  running = true;
  accepting = true;
  queued = [];
  opening = [];
  connections = [];
  hung_up = [];
  left_open = [];
  connected = [];
}

-- `HandleAcceptCallback` and `OnNewConnectionCallback`.
pub on_new_connection_callback : ℕ → TcpServer → TcpServer
on_new_connection_callback fd s = record s { queued = s.queued ++ fd ∷ [] }

-- `OnNewConnection` up to `Init`; a server that is stopped forgets the descriptor.
pub on_new_connection : ℕ → TcpServer → TcpServer
on_new_connection fd s =
    let taken = record s { queued = erase fd s.queued } in
    if s.running
    then record taken { opening = fd ∷ s.opening }
    else record taken { left_open = fd ∷ s.left_open }

-- `OnNewConnection` from the insertion on, which leaves a connection under the same key as it is.
pub insert_connection : ℕ → TcpServer → TcpServer
insert_connection fd s = record s {
  opening = erase fd s.opening;
  connections = if member fd s.connections then s.connections else fd ∷ s.connections;
  connected = s.connected ++ fd ∷ [];
}

-- `OnCloseConnectionCallback`: a connection that was in the table is destroyed; one that is not is
-- still held by `OnNewConnection`.
pub on_close_connection_callback : ℕ → TcpServer → TcpServer
on_close_connection_callback fd s =
    if member fd s.connections
    then record s { connections = erase fd s.connections }
    else record s { hung_up = fd ∷ s.hung_up }

abbrev pub keep_members : List ℕ → List ℕ → List ℕ
keep_members [] ys = []
keep_members (x ∷ xs) ys = if member x ys then x ∷ keep_members xs ys else keep_members xs ys

-- `Stop`, which drops the connections of the table.
pub stop : TcpServer → TcpServer
stop s = record s {
  running = false;
  accepting = false;
  connections = [];
  hung_up = keep_members s.hung_up s.opening;
}

pub data Event : Type 0 where
  accepts begins inserts hangs_up : ℕ → Event
  stops : Event

pub in_use : ℕ → TcpServer → Bool
in_use fd s =
    member fd s.queued
    || (member fd s.opening || (member fd s.connections || member fd s.left_open))

-- What can happen: the kernel gives a descriptor that is not in use; a connection that is registered
-- hangs up once, since it is taken out of the loop then.
pub can : Event → TcpServer → Bool
unfolding in_use
can (accepts fd) s = s.accepting && not (in_use fd s)
can (begins fd) s = member fd s.queued
can (inserts fd) s = member fd s.opening
can (hangs_up fd) s = (member fd s.opening || member fd s.connections) && not (member fd s.hung_up)
can stops s = true

pub step : Event → TcpServer → TcpServer
unfolding on_new_connection_callback on_new_connection insert_connection
    on_close_connection_callback stop
step (accepts fd) s = on_new_connection_callback fd s
step (begins fd) s = on_new_connection fd s
step (inserts fd) s = insert_connection fd s
step (hangs_up fd) s = on_close_connection_callback fd s
step stops s = stop s

-- The runs from one state to another, by their events.
pub data Run : TcpServer → List Event → TcpServer → Type 0 where
  done : {s t : TcpServer} {es : List Event} → es ≡ [] → s ≡ t → Run s es t
  goes :
      {s t : TcpServer} {es : List Event} (e : Event) (rest : List Event)
      → es ≡ e ∷ rest
      → can e s ≡ true
      → Run (step e s) rest t
      → Run s es t
