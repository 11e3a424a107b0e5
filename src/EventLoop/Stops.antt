-- ===== src/EventLoop/Stops.antt =====
-- When a stop is heard, and when it is not.
use mathlib.Core.Path.{subst}
use ladder.Prelude.{
  if◌then◌else◌, ℕ, ◌+◌, ◌≤◌, ◌≡◌, ◌≢◌, refl, sym, ◌∙◌, true, false, List, [], ◌∷◌, length, arith,
}
use ladder.EventLoop.{
  Source, pipe, channel, PollReply, ready, interrupted, failed, Phase, outside, tests, polls,
  handles, ended, EventLoop, read_callback, handle_events, poll, start_loop, turn, clear_running,
  wakeup, start_outside, Event, starts, turns, stops, wakes, step, run,
}

abbrev pub turning : List PollReply → List Event
turning [] = []
turning (r ∷ rs) = turns r ∷ turning rs

-- No call of epoll_wait fails but by EINTR.
abbrev pub NoFailures : List PollReply → Type 0
NoFailures [] = Unit
NoFailures (ready sources ∷ rs) = NoFailures rs
NoFailures (interrupted ∷ rs) = NoFailures rs
NoFailures (failed ∷ rs) = ⊥

-- How many steps a stopped loop has left: those of the channels that are active, and of one poll more
-- where the flag was looked at before.
abbrev pub steps_left : Phase → List PollReply → ℕ
steps_left outside rs = 0
steps_left tests rs = 1
steps_left polls [] = 1
steps_left polls (ready sources ∷ rs) = length sources + 3
steps_left polls (interrupted ∷ rs) = 3
steps_left polls (failed ∷ rs) = 0
steps_left (handles sources) rs = length sources + 2
steps_left ended rs = 0

drop_first : (rs : List PollReply) (r : PollReply) → NoFailures (r ∷ rs) → NoFailures rs
drop_first rs (ready sources) ok = ok
drop_first rs interrupted ok = ok
drop_first rs failed ok = absurd ok

running-handle_events : (s : Source) (l : EventLoop) → (handle_events s l).running ≡ l.running
unfolding handle_events read_callback
running-handle_events pipe l = refl
running-handle_events (channel c) l = refl

-- The loop that is not in the middle of anything, after a step that was taken at `ph`.
abbrev Leaves : List PollReply → EventLoop → Type 0
Leaves rs l = (run (turning rs) l).phase ≡ outside

leave :
    (rs : List PollReply) (ph : Phase) (l : EventLoop)
    → l.running ≡ false
    → l.phase ≡ ph
    → ph ≢ ended
    → NoFailures rs
    → steps_left ph rs ≤ length rs
    → Leaves rs l
unfolding run step turn poll
leave [] outside l h e alive ok enough = e
leave [] tests l h e alive ok enough = absurd (omega arith)
leave [] polls l h e alive ok enough = absurd (omega arith)
leave [] (handles ss) l h e alive ok enough = absurd (omega arith)
leave rs ended l h e alive ok enough = absurd (alive refl)
leave (r ∷ rs) outside l h e alive ok enough =
    subst (λ (p : Phase). Leaves rs (turn p r l)) (sym e)
      (leave rs outside l h e alive (drop_first rs r ok) (omega arith))
leave (r ∷ rs) tests l h e alive ok enough =
    subst (λ (p : Phase). Leaves rs (turn p r l)) (sym e)
      (leave rs outside (record l { phase = if l.running then polls else outside }) h (rw h refl)
        (λ q. cc) (drop_first rs r ok) (omega arith))
leave (ready ss ∷ rs) polls l h e alive ok enough =
    subst (λ (p : Phase). Leaves rs (turn p (ready ss) l)) (sym e)
      (leave rs (handles ss) (record l { phase = handles ss }) h refl (λ q. cc) ok (omega arith))
leave (interrupted ∷ rs) polls l h e alive ok enough =
    subst (λ (p : Phase). Leaves rs (turn p interrupted l)) (sym e)
      (leave rs (handles []) (record l { phase = handles [] }) h refl (λ q. cc) ok (omega arith))
leave (failed ∷ rs) polls l h e alive ok enough = absurd ok
leave (r ∷ rs) (handles []) l h e alive ok enough =
    subst (λ (p : Phase). Leaves rs (turn p r l)) (sym e)
      (leave rs tests (record l { phase = tests }) h refl (λ q. cc) (drop_first rs r ok)
        (omega arith))
leave (r ∷ rs) (handles (s ∷ ss)) l h e alive ok enough =
    subst (λ (p : Phase). Leaves rs (turn p r l)) (sym e)
      (leave rs (handles ss) (record (handle_events s l) { phase = handles ss })
        (running-handle_events s l ∙ h) refl (λ q. cc) (drop_first rs r ok) (omega arith))

-- A loop that is stopped while it runs handles the channels of its poll, or of one poll more, and
-- returns.
pub phase-run-clear_running :
    (rs : List PollReply) (l : EventLoop)
    → l.phase ≢ ended
    → NoFailures rs
    → steps_left l.phase rs ≤ length rs
    → (run (stops ∷ wakes ∷ turning rs) l).phase ≡ outside
unfolding run step clear_running wakeup
phase-run-clear_running rs l alive ok enough =
    leave rs l.phase (wakeup (clear_running l)) refl refl alive ok enough

-- In the loop, with the flag set.
abbrev Goes : EventLoop → Type 0
Goes l = (l.running ≡ true) × (l.phase ≢ outside) × (l.phase ≢ ended)

turn-Goes :
    (r : PollReply) (ph : Phase) (l : EventLoop)
    → r ≢ failed
    → l.phase ≡ ph
    → Goes l
    → Goes (turn ph r l)
unfolding turn poll
turn-Goes r outside l ok e (h, inside, alive) = absurd (inside e)
turn-Goes r tests l ok e (h, inside, alive) = rw h (refl, (λ q. cc), (λ q. cc))
turn-Goes (ready ss) polls l ok e (h, inside, alive) = (h, (λ q. cc), (λ q. cc))
turn-Goes interrupted polls l ok e (h, inside, alive) = (h, (λ q. cc), (λ q. cc))
turn-Goes failed polls l ok e (h, inside, alive) = absurd (ok refl)
turn-Goes r (handles []) l ok e (h, inside, alive) = (h, (λ q. cc), (λ q. cc))
turn-Goes r (handles (s ∷ ss)) l ok e (h, inside, alive) =
    (running-handle_events s l ∙ h, (λ q. cc), (λ q. cc))
turn-Goes r ended l ok e (h, inside, alive) = absurd (alive e)

turning-Goes :
    (rs : List PollReply) (l : EventLoop) → NoFailures rs → Goes l → Goes (run (turning rs) l)
unfolding run step
turning-Goes [] l ok g = g
turning-Goes (ready ss ∷ rs) l ok g =
    turning-Goes rs _ ok (turn-Goes (ready ss) l.phase l (λ q. cc) refl g)
turning-Goes (interrupted ∷ rs) l ok g =
    turning-Goes rs _ ok (turn-Goes interrupted l.phase l (λ q. cc) refl g)
turning-Goes (failed ∷ rs) l ok g = absurd ok

-- A stop that comes before the thread has entered `StartLoop` is lost: the loop never returns.
pub phase-run-start_loop :
    (rs : List PollReply) (l : EventLoop)
    → l.phase ≡ outside
    → NoFailures rs
    → ((run (stops ∷ wakes ∷ starts ∷ turning rs) l).running ≡ true)
      × ((run (stops ∷ wakes ∷ starts ∷ turning rs) l).phase ≢ outside)
      × ((run (stops ∷ wakes ∷ starts ∷ turning rs) l).phase ≢ ended)
unfolding run step clear_running wakeup start_outside start_loop
phase-run-start_loop rs l e ok =
    subst (λ (p : Phase). Goes (run (turning rs) (start_outside p (wakeup (clear_running l)))))
      (sym e) (turning-Goes rs _ ok (refl, (λ q. cc), (λ q. cc)))
