-- ===== src/ThreadPool/Tests.antt =====
-- Two workers and three tasks.
use ladder.Prelude.{
  ◌≤◌, ◌==◌, ◌<◌, ℕ, zero, suc, ◌≡◌, ◌<◌, ◌≤◌, ◌++◌, ◌==◌, none, some, List, [], ◌∷◌, arith,
}
use ladder.ThreadPool.{exited, Event, emplaces, schedules, new_thread_pool, run}
use ladder.ThreadPool.Order.{taken-run}
use ladder.ThreadPool.Drain.{times}
use ladder.ThreadPool.Finish.{count, lifetime, finished-run}

abbrev given : List (Event ℕ)
given =
    emplaces (some 7)
    ∷ emplaces none
    ∷ schedules 1
    ∷ emplaces (some 8)
    ∷ schedules 0
    ∷ schedules 1
    ∷ emplaces (some 9)
    ∷ []

taken-run_example :
    (run given (new_thread_pool 2)).taken ++ (run given (new_thread_pool 2)).tasks ≡ 7 ∷ 8 ∷ 9 ∷ []
taken-run_example = taken-run 2 given

abbrev order : List ℕ
order = 0 ∷ 1 ∷ 1 ∷ 0 ∷ 1 ∷ 0 ∷ 1 ∷ 0 ∷ 0 ∷ 1 ∷ 1 ∷ 0 ∷ 1 ∷ 0 ∷ 1 ∷ 0 ∷ []

enough : (i : ℕ) → i < 2 → 8 ≤ times i order
enough zero h = omega arith
enough (suc zero) h = omega arith
enough (suc (suc i)) h = absurd (omega arith)

finished-run_example :
    ((run (lifetime given order) (new_thread_pool 2)).threads ≡ exited ∷ exited ∷ [])
    × (count (λ t. t == 8) (run (lifetime given order) (new_thread_pool 2)).finished ≡ 1)
finished-run_example = finished-run (λ t. t == 8) 2 given order (omega arith) enough (omega arith)
