-- ===== src/ThreadPool/Order.antt =====
-- Tasks are taken in order, and each once.
use ladder.Prelude.{
  inr, inl, get_elem?, Bool-cases, ℕ, ◌≡◌, refl, sym, ap, ◌∙◌, Option, none, some, List, [], ◌∷◌,
  ◌++◌, append_assoc, append-nil, arith,
}
use ladder.ThreadPool.{
  Worker, waits, runs, exited, ThreadPool, Event, emplaces, schedules, stops, new_thread_pool,
  emplace, stop, take_task, schedule, step, run,
}

-- What the callers gave, in order.
abbrev pub emplaced : {Task : Type 0} → List (Event Task) → List Task
emplaced [] = []
emplaced (emplaces none ∷ es) = emplaced es
emplaced (emplaces (some f) ∷ es) = f ∷ emplaced es
emplaced (schedules i ∷ es) = emplaced es
emplaced (stops ∷ es) = emplaced es

module _ {Task : Type 0} where
  abbrev all_tasks : ThreadPool Task → List Task
  all_tasks p = p.taken ++ p.tasks

  take_task-all :
      (i : ℕ) (ts : List Task) (p : ThreadPool Task)
      → p.tasks ≡ ts
      → all_tasks (take_task i ts p) ≡ all_tasks p
  unfolding take_task
  take_task-all i [] p h = elim (Bool-cases p.stopped) [
    | inl t ↦ ground arith
    | inr f ↦ ground arith
  ]
  take_task-all i (t ∷ ts) p h =
      append_assoc p.taken (t ∷ []) ts ∙ ap (λ (l : List Task). p.taken ++ l) (sym h)

  schedule-all :
      (i : ℕ) (w : Option (Worker Task)) (p : ThreadPool Task)
      → all_tasks (schedule i w p) ≡ all_tasks p
  unfolding schedule
  schedule-all i none p = refl
  schedule-all i (some waits) p = take_task-all i p.tasks p refl
  schedule-all i (some (runs t)) p = refl
  schedule-all i (some exited) p = refl

  all_tasks-run :
      (es : List (Event Task)) (p : ThreadPool Task)
      → all_tasks (run es p) ≡ all_tasks p ++ emplaced es
  unfolding run step emplace stop
  all_tasks-run [] p = sym (append-nil (all_tasks p))
  all_tasks-run (emplaces none ∷ es) p = all_tasks-run es p
  all_tasks-run (emplaces (some f) ∷ es) p =
      all_tasks-run es (emplace (some f) p)
      ∙ ap (λ (l : List Task). l ++ emplaced es) (sym (append_assoc p.taken p.tasks (f ∷ [])))
      ∙ append_assoc (all_tasks p) (f ∷ []) (emplaced es)
  all_tasks-run (schedules i ∷ es) p =
      all_tasks-run es (step (schedules i) p)
      ∙ ap (λ (l : List Task). l ++ emplaced es) (schedule-all i (get_elem? p.threads i) p)
  all_tasks-run (stops ∷ es) p = all_tasks-run es (stop p)

  -- The tasks taken and those that still wait are the tasks given, in the order of the calls.
  pub taken-run :
      (n : ℕ) (es : List (Event Task))
      → (run es (new_thread_pool n)).taken ++ (run es (new_thread_pool n)).tasks ≡ emplaced es
  unfolding new_thread_pool
  taken-run n es = all_tasks-run es (new_thread_pool n)
