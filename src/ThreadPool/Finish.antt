-- ===== src/ThreadPool/Finish.antt =====
-- What is run by the time that every thread has ended.
use mathlib.Core.Path.{subst}
use ladder.Prelude.{
  Bool-cases, ℕ, zero, suc, ◌+◌, ◌*◌, ◌<◌, ◌≤◌, ◌≡◌, refl, sym, ap, ◌∙◌, Bool, false, Option, none,
  some, List, [], ◌∷◌, ◌++◌, length, get_elem?, length-append, append-nil, arith, inl, inr,
  if◌then◌else◌,
}
use ladder.ThreadPool.{
  Worker, waits, runs, exited, ThreadPool, Event, emplaces, schedules, stops, set_at, replicate,
  new_thread_pool, emplace, stop, take_task, schedule, step, run,
}
use ladder.ThreadPool.Order.{emplaced, taken-run}
use ladder.ThreadPool.Drain.{scheduled, times, exits-run, turns_left}
use ladder.ThreadPool.Settle.{
  NoStops, length-set_at, any_exited, Settled, scheduled-Settled, IsOpen, run-IsOpen, new-IsOpen,
}

-- How many of the tasks pass a test.
abbrev pub count : {Task : Type 0} → (Task → Bool) → List Task → ℕ
count f [] = 0
count f (t ∷ ts) = if f t then suc (count f ts) else count f ts

module _ {Task : Type 0} where
  length-take_task :
      (i : ℕ) (ts : List Task) (p : ThreadPool Task)
      → length (take_task i ts p).threads ≡ length p.threads
  unfolding take_task
  length-take_task i [] p = elim (Bool-cases p.stopped) [
    | inl t ↦ ground (arith, length-set_at i exited p.threads)
    | inr f ↦ ground arith
  ]
  length-take_task i (t ∷ ts) p = length-set_at i (runs t) p.threads

  length-schedule :
      (i : ℕ) (w : Option (Worker Task)) (p : ThreadPool Task)
      → length (schedule i w p).threads ≡ length p.threads
  unfolding schedule
  length-schedule i none p = refl
  length-schedule i (some waits) p = length-take_task i p.tasks p
  length-schedule i (some (runs t)) p = length-set_at i waits p.threads
  length-schedule i (some exited) p = refl

  length-run :
      (order : List ℕ) (p : ThreadPool Task)
      → length (run (scheduled order) p).threads ≡ length p.threads
  unfolding run step
  length-run [] p = refl
  length-run (i ∷ order) p =
      length-run order (step (schedules i) p) ∙ length-schedule i (get_elem? p.threads i) p

  run-append :
      (es fs : List (Event Task)) (p : ThreadPool Task) → run (es ++ fs) p ≡ run fs (run es p)
  unfolding run
  run-append [] fs p = refl
  run-append (e ∷ es) fs p = run-append es fs (step e p)

  emplaced-append : (es fs : List (Event Task)) → emplaced (es ++ fs) ≡ emplaced es ++ emplaced fs
  emplaced-append [] fs = refl
  emplaced-append (emplaces none ∷ es) fs = emplaced-append es fs
  emplaced-append (emplaces (some f) ∷ es) fs = ap (◌∷◌ f) (emplaced-append es fs)
  emplaced-append (schedules i ∷ es) fs = emplaced-append es fs
  emplaced-append (stops ∷ es) fs = emplaced-append es fs

  emplaced-scheduled : (order : List ℕ) → emplaced (scheduled {Task = Task} order) ≡ []
  emplaced-scheduled [] = refl
  emplaced-scheduled (i ∷ order) = emplaced-scheduled order

  -- From the making of the pool to the end of the destructor.
  abbrev pub lifetime : List (Event Task) → List ℕ → List (Event Task)
  lifetime before order = before ++ (stops ∷ scheduled order)

  all_replicate :
      (us : List (Worker Task)) (n : ℕ)
      → length us ≡ n
      → ((j : ℕ) → j < n → get_elem? us j ≡ some exited)
      → us ≡ replicate n exited
  all_replicate [] zero h k = refl
  all_replicate [] (suc n) h k = absurd (omega arith)
  all_replicate (u ∷ us) zero h k = absurd (omega arith)
  all_replicate (u ∷ us) (suc n) h k =
      let e : u ≡ exited = same_some (k 0 (omega arith)) in
      ap (◌∷◌ u) (all_replicate us n (omega arith) (λ j lt. k (suc j) (omega arith)))
      ∙ ap (λ (x : Worker Task). x ∷ replicate n exited) e
    where
      same_some : {v w : Worker Task} → some v ≡ some w → v ≡ w
      same_some h = cc

  thread_at :
      (us : List (Worker Task)) (j : ℕ)
      → j < length us
      → (u : Worker Task) × (get_elem? us j ≡ some u)
  thread_at [] j h = absurd (omega arith)
  thread_at (u ∷ us) zero h = (u, refl)
  thread_at (u ∷ us) (suc j) h = thread_at us j (omega arith)

  turns_left_bound : (u : Worker Task) (k : ℕ) → turns_left u k ≤ 2 * k + 2
  turns_left_bound waits k = omega arith
  turns_left_bound (runs t) k = omega arith
  turns_left_bound exited k = omega arith

  module _ (f : Task → Bool) where
    abbrev weight : Worker Task → ℕ
    weight waits = 0
    weight (runs t) = if f t then 1 else 0
    weight exited = 0

    -- Tasks that are being run.
    abbrev held : List (Worker Task) → ℕ
    held [] = 0
    held (u ∷ us) = weight u + held us

    held-set_at :
        (us : List (Worker Task)) (i : ℕ) (w t : Worker Task)
        → get_elem? us i ≡ some w
        → held (set_at i t us) + weight w ≡ held us + weight t
    held-set_at [] i w t h = absurd (cc)
    held-set_at (u ∷ us) zero w t h = let e : u ≡ w = cc in omega (arith, ap weight e)
    held-set_at (u ∷ us) (suc i) w t h = omega (arith, held-set_at us i w t h)

    count-append : (xs ys : List Task) → count f (xs ++ ys) ≡ count f xs + count f ys
    count-append [] ys = omega arith
    count-append (x ∷ xs) ys = ground (arith, count-append xs ys)

    count-last : (xs : List Task) (t : Task) → count f (xs ++ t ∷ []) ≡ count f xs + weight (runs t)
    count-last xs t = count-append xs (t ∷ []) ∙ ground arith

    -- A task that was taken is finished, or some thread runs it.
    abbrev Balanced : ThreadPool Task → Type 0
    Balanced p = count f p.finished + held p.threads ≡ count f p.taken

    take_task-Balanced :
        (i : ℕ) (ts : List Task) (p : ThreadPool Task)
        → get_elem? p.threads i ≡ some waits
        → Balanced p
        → Balanced (take_task i ts p)
    unfolding take_task
    take_task-Balanced i [] p h b = elim (Bool-cases p.stopped) [
      | inl t ↦ ground (arith, held-set_at p.threads i waits exited h)
      | inr f ↦ ground (arith)
    ]
    take_task-Balanced i (t ∷ ts) p h b =
        omega (arith, held-set_at p.threads i waits (runs t) h, count-last p.taken t)

    schedule-Balanced :
        (i : ℕ) (w : Option (Worker Task)) (p : ThreadPool Task)
        → get_elem? p.threads i ≡ w
        → Balanced p
        → Balanced (schedule i w p)
    unfolding schedule
    schedule-Balanced i none p h b = b
    schedule-Balanced i (some waits) p h b = take_task-Balanced i p.tasks p h b
    schedule-Balanced i (some (runs t)) p h b =
        omega (arith, held-set_at p.threads i (runs t) waits h, count-last p.finished t)
    schedule-Balanced i (some exited) p h b = b

    run-Balanced : (es : List (Event Task)) (p : ThreadPool Task) → Balanced p → Balanced (run es p)
    unfolding run step emplace stop
    run-Balanced [] p b = b
    run-Balanced (emplaces none ∷ es) p b = run-Balanced es p b
    run-Balanced (emplaces (some t) ∷ es) p b = run-Balanced es (emplace (some t) p) b
    run-Balanced (schedules i ∷ es) p b =
        run-Balanced es _ (schedule-Balanced i (get_elem? p.threads i) p refl b)
    run-Balanced (stops ∷ es) p b = run-Balanced es (stop p) b

    none_held : (n : ℕ) (w : Worker Task) → weight w ≡ 0 → held (replicate n w) ≡ 0
    none_held zero w h = refl
    none_held (suc n) w h = omega (arith, none_held n w h)

    module _ (n : ℕ) (before : List (Event Task)) (order : List ℕ) (free : NoStops before)
        (turns : (i : ℕ) → i < n → 2 * length (emplaced before) + 2 ≤ times i order) where
      abbrev before_stop : ThreadPool Task
      before_stop = run before (new_thread_pool n)

      abbrev last : ThreadPool Task
      last = run (lifetime before order) (new_thread_pool n)

      open_lem : IsOpen n before_stop
      open_lem = run-IsOpen before (new_thread_pool n) free (new-IsOpen n)

      tasks_bound : length before_stop.tasks ≤ length (emplaced before)
      tasks_bound =
          omega (
            arith,
            ap length (taken-run n before),
            length-append before_stop.taken before_stop.tasks,
          )

      last_lem : last ≡ run (scheduled order) (stop before_stop)
      unfolding run step
      last_lem = run-append before (stops ∷ scheduled order) (new_thread_pool n)

      ends : (j : ℕ) → j < n → get_elem? last.threads j ≡ some exited
      unfolding stop
      ends j lt =
          let (u, at) = thread_at before_stop.threads j (omega (arith, open_lem.all_threads)) in
          ap (λ (p : ThreadPool Task). get_elem? p.threads j) last_lem
          ∙ exits-run order j u (stop before_stop) refl at (
              omega (arith, turns j lt, turns_left_bound u (length before_stop.tasks), tasks_bound))

      all_ended : last.threads ≡ replicate n exited
      unfolding stop
      all_ended =
          all_replicate last.threads n
            (ap (λ (p : ThreadPool Task). length p.threads) last_lem
              ∙ length-run order (stop before_stop)
              ∙ open_lem.all_threads)
            ends

      settled : Settled last
      unfolding stop
      settled =
          subst Settled (sym last_lem)
            (scheduled-Settled order (stop before_stop) (inl (open_lem.none_exited)))

      no_tasks : 0 < n → last.tasks ≡ []
      no_tasks pos = elim settled [
        | inr empty ↦ empty
        | inl none_exited ↦ absurd (clash n pos (sym (ap any_exited all_ended) ∙ none_exited))
      ]
        where
          clash : (k : ℕ) → 0 < k → any_exited (replicate {Task = Task} k exited) ≡ false → ⊥
          clash zero lt e = omega arith
          clash (suc k) lt e = cc

      -- The destructor: every thread ends, and what was given before is finished, each task once.
      pub finished-run :
          0 < n
          → (last.threads ≡ replicate n exited)
            × (count f last.finished ≡ count f (emplaced before))
      unfolding new_thread_pool
      finished-run pos = (
        all_ended,
        omega (
          arith,
          run-Balanced (lifetime before order) (new_thread_pool n)
              (omega (arith, none_held n waits refl)),
          ap held all_ended,
          none_held n exited refl,
          ap (count f) (
              sym (append-nil last.taken)
              ∙ ap (λ (l : List Task). last.taken ++ l) (sym (no_tasks pos))
              ∙ taken-run n (lifetime before order)
              ∙ emplaced-append before (stops ∷ scheduled order)
              ∙ ap (λ (l : List Task). emplaced before ++ l) (emplaced-scheduled order)
              ∙ append-nil (emplaced before)),
        ),
      )
