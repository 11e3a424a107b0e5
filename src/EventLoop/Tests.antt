-- ===== src/EventLoop/Tests.antt =====
-- A loop that is stopped in time, and one that is stopped too early.
use ladder.Prelude.{◌≡◌, ◌≢◌, refl, true, List, [], ◌∷◌, arith}
use ladder.EventLoop.{
  pipe, channel, PollReply, ready, interrupted, outside, polls, ended, EventLoop, new_event_loop,
  stops, wakes, starts, run,
}
use ladder.EventLoop.Stops.{turning, phase-run-clear_running, phase-run-start_loop}

abbrev polling : EventLoop
polling = record new_event_loop { running = true; phase = polls }

abbrev replies : List PollReply
replies =
    ready (channel 3 ∷ pipe ∷ []) ∷ interrupted ∷ interrupted ∷ ready (pipe ∷ []) ∷ interrupted ∷ []

phase-run-clear_running_example : (run (stops ∷ wakes ∷ turning replies) polling).phase ≡ outside
phase-run-clear_running_example =
    phase-run-clear_running replies polling (λ q. cc) (omega arith) (omega arith)

phase-run-start_loop_example :
    ((run (stops ∷ wakes ∷ starts ∷ turning replies) new_event_loop).running ≡ true)
    × ((run (stops ∷ wakes ∷ starts ∷ turning replies) new_event_loop).phase ≢ outside)
    × ((run (stops ∷ wakes ∷ starts ∷ turning replies) new_event_loop).phase ≢ ended)
unfolding new_event_loop
phase-run-start_loop_example = phase-run-start_loop replies new_event_loop refl (omega arith)
