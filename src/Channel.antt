-- ===== src/Channel.antt =====
-- ladder/src/Channel.cpp on Linux: a descriptor's poll flags and callbacks.
-- The flags are single bits, so a set of flags is a record of Booleans. A callback is a value of a
-- type of handlers; `none` is an empty `std::function`.
use ladder.Prelude.{ℕ, Bool, true, false, ◌||◌, Option, some, none, if◌then◌else◌}

pub record Flags : Type 0 where
  pub poll_in : Bool
  pub poll_out : Bool
  pub poll_pri : Bool
  pub poll_rd_hup : Bool
  pub poll_hup : Bool
  pub poll_err : Bool
  pub poll_et : Bool

abbrev pub no_flags : Flags
no_flags = record {
  poll_in = false;
  poll_out = false;
  poll_pri = false;
  poll_rd_hup = false;
  poll_hup = false;
  poll_err = false;
  poll_et = false;
}

abbrev pub union : Flags → Flags → Flags
union a b = record {
  poll_in = a.poll_in || b.poll_in;
  poll_out = a.poll_out || b.poll_out;
  poll_pri = a.poll_pri || b.poll_pri;
  poll_rd_hup = a.poll_rd_hup || b.poll_rd_hup;
  poll_hup = a.poll_hup || b.poll_hup;
  poll_err = a.poll_err || b.poll_err;
  poll_et = a.poll_et || b.poll_et;
}

pub record Channel (Handler : Type 0) : Type 0 where
  pub fd : ℕ
  pub revents : Flags
  pub events : Flags
  pub read_callback : Option Handler
  pub write_callback : Option Handler
  pub close_callback : Option Handler
  pub error_callback : Option Handler

module _ {Handler : Type 0} where
  -- kPollOut is set initially.
  unfoldable pub new_channel : ℕ → Channel Handler
  new_channel fd = record {
    fd = fd;
    revents = no_flags;
    events = record no_flags { poll_in = true; poll_rd_hup = true; poll_out = true };
    read_callback = none;
    write_callback = none;
    close_callback = none;
    error_callback = none;
  }

  unfoldable pub set_revents : Flags → Channel Handler → Channel Handler
  set_revents events c = record c { revents = union c.revents events }

  unfoldable pub set_epoll_edge_triggered : Bool → Channel Handler → Channel Handler
  set_epoll_edge_triggered edge_triggered c = record c {
    events = record (c.events) { poll_et = edge_triggered };
  }

  -- The new flags go to the poller with EPOLL_CTL_MOD.
  unfoldable pub enable_write : Bool → Channel Handler → Channel Handler
  enable_write enable c = record c { events = record (c.events) { poll_out = enable } }

abbrev pub invoke_if_set :
    {Handler State : Type 0} → (Handler → State → State) → Option Handler → State → State
invoke_if_set invoke none s = s
invoke_if_set invoke (some h) s = invoke h s

-- The dispatch, over a state that the callbacks change; `at` finds the channel in it.
module _ {Handler State : Type 0} (at : State → Channel Handler)
    (put : Channel Handler → State → State) (invoke : Handler → State → State) where
  -- Which callback is called is read when its turn comes: an earlier one may have changed it.
  unfoldable pub handle_events : State → State
  handle_events s =
      let evts = (at s).revents in
      let cleared = put (record (at s) { revents = no_flags }) s in
      if evts.poll_hup
      then invoke_if_set invoke (at cleared).close_callback cleared
      else if evts.poll_err
      then invoke_if_set invoke (at cleared).error_callback cleared
      else (let written =
            if evts.poll_out
            then invoke_if_set invoke (at cleared).write_callback cleared
            else cleared in
          if evts.poll_in || evts.poll_rd_hup
          then invoke_if_set invoke (at written).read_callback written
          else written)
