-- ===== src/ThreadPool/Settle.antt =====
-- A thread ends only where the pool is stopped and no task is left.
use mathlib.Core.Path.{subst}
use ladder.Prelude.{
  Bool-cases, ℕ, zero, suc, ◌≡◌, refl, sym, ap, ◌∙◌, Bool, true, false, ◌||◌, Option, none, some,
  List, [], ◌∷◌, length, get_elem?, arith, ◌⊎◌, inl, inr, if◌then◌else◌,
}
use ladder.ThreadPool.{
  Worker, waits, runs, exited, ThreadPool, Event, emplaces, schedules, stops, set_at, replicate,
  new_thread_pool, emplace, take_task, schedule, step, run,
}
use ladder.ThreadPool.Drain.{scheduled}

-- The callers do not stop the pool.
abbrev pub NoStops : {Task : Type 0} → List (Event Task) → Type 0
NoStops [] = Unit
NoStops (emplaces f ∷ es) = NoStops es
NoStops (schedules i ∷ es) = NoStops es
NoStops (stops ∷ es) = ⊥

module _ {Task : Type 0} where
  pub length-set_at :
      (i : ℕ) (t : Worker Task) (us : List (Worker Task)) → length (set_at i t us) ≡ length us
  length-set_at i t [] = refl
  length-set_at zero t (u ∷ us) = refl
  length-set_at (suc i) t (u ∷ us) = ap suc (length-set_at i t us)

  abbrev pub is_exited : Worker Task → Bool
  is_exited waits = false
  is_exited (runs t) = false
  is_exited exited = true

  abbrev pub any_exited : List (Worker Task) → Bool
  any_exited [] = false
  any_exited (u ∷ us) = is_exited u || any_exited us

  any_exited-set_at :
      (i : ℕ) (t : Worker Task) (us : List (Worker Task))
      → is_exited t ≡ false
      → any_exited us ≡ false
      → any_exited (set_at i t us) ≡ false
  any_exited-set_at i t [] h k = refl
  any_exited-set_at zero t (u ∷ us) h k = ground arith
  any_exited-set_at (suc i) t (u ∷ us) h k =
      ground (arith, any_exited-set_at i t us h (ground arith))

  -- A thread has ended only where no task is left.
  abbrev pub Settled : ThreadPool Task → Type 0
  Settled p = (any_exited p.threads ≡ false) ⊎ (p.tasks ≡ [])

  take_task-Settled :
      (i : ℕ) (ts : List Task) (p : ThreadPool Task)
      → p.tasks ≡ ts
      → Settled p
      → Settled (take_task i ts p)
  unfolding take_task
  take_task-Settled i [] p h s =
      inr (elim (Bool-cases p.stopped) [ inl t ↦ ground (arith, h) | inr f ↦ ground (arith, h) ])
  take_task-Settled i (t ∷ ts) p h (inl none_exited) =
      inl (any_exited-set_at i (runs t) p.threads refl none_exited)
  take_task-Settled i (t ∷ ts) p h (inr empty) = absurd (cc)

  schedule-Settled :
      (i : ℕ) (w : Option (Worker Task)) (p : ThreadPool Task)
      → Settled p
      → Settled (schedule i w p)
  unfolding schedule
  schedule-Settled i none p s = s
  schedule-Settled i (some waits) p s = take_task-Settled i p.tasks p refl s
  schedule-Settled i (some (runs t)) p (inl none_exited) =
      inl (any_exited-set_at i waits p.threads refl none_exited)
  schedule-Settled i (some (runs t)) p (inr empty) = inr empty
  schedule-Settled i (some exited) p s = s

  pub scheduled-Settled :
      (order : List ℕ) (p : ThreadPool Task) → Settled p → Settled (run (scheduled order) p)
  unfolding run step
  scheduled-Settled [] p s = s
  scheduled-Settled (i ∷ order) p s =
      scheduled-Settled order _ (schedule-Settled i (get_elem? p.threads i) p s)

  -- Before the pool is stopped no thread ends.
  pub record IsOpen (n : ℕ) (p : ThreadPool Task) : Type 0 where
    pub not_stopped : p.stopped ≡ false
    pub none_exited : any_exited p.threads ≡ false
    pub all_threads : length p.threads ≡ n

  take_task-IsOpen :
      {n : ℕ} (i : ℕ) (ts : List Task) (p : ThreadPool Task)
      → IsOpen n p
      → IsOpen n (take_task i ts p)
  unfolding take_task
  take_task-IsOpen {n} i [] p o =
      subst
        (λ (b : Bool). IsOpen n (if b then record p { threads = set_at i exited p.threads } else p))
        (sym (o.not_stopped)) o
  take_task-IsOpen i (t ∷ ts) p o = record {
    not_stopped = o.not_stopped;
    none_exited = any_exited-set_at i (runs t) p.threads refl (o.none_exited);
    all_threads = length-set_at i (runs t) p.threads ∙ o.all_threads;
  }

  schedule-IsOpen :
      {n : ℕ} (i : ℕ) (w : Option (Worker Task)) (p : ThreadPool Task)
      → IsOpen n p
      → IsOpen n (schedule i w p)
  unfolding schedule
  schedule-IsOpen i none p o = o
  schedule-IsOpen i (some waits) p o = take_task-IsOpen i p.tasks p o
  schedule-IsOpen i (some (runs t)) p o = record {
    not_stopped = o.not_stopped;
    none_exited = any_exited-set_at i waits p.threads refl (o.none_exited);
    all_threads = length-set_at i waits p.threads ∙ o.all_threads;
  }
  schedule-IsOpen i (some exited) p o = o

  pub run-IsOpen :
      {n : ℕ} (es : List (Event Task)) (p : ThreadPool Task)
      → NoStops es
      → IsOpen n p
      → IsOpen n (run es p)
  unfolding run step emplace
  run-IsOpen [] p free o = o
  run-IsOpen (emplaces none ∷ es) p free o = run-IsOpen es p free o
  run-IsOpen (emplaces (some f) ∷ es) p free o = run-IsOpen es (emplace (some f) p) free (record {
    not_stopped = o.not_stopped;
    none_exited = o.none_exited;
    all_threads = o.all_threads;
  })
  run-IsOpen (schedules i ∷ es) p free o =
      run-IsOpen es _ free (schedule-IsOpen i (get_elem? p.threads i) p o)
  run-IsOpen (stops ∷ es) p free o = absurd free

  pub new-IsOpen : (n : ℕ) → IsOpen n (new_thread_pool n)
  unfolding new_thread_pool
  new-IsOpen n = record { not_stopped = refl; none_exited = no_exit n; all_threads = as_many n }
    where
      no_exit : (k : ℕ) → any_exited (replicate {Task = Task} k waits) ≡ false
      no_exit zero = refl
      no_exit (suc k) = no_exit k

      as_many : (k : ℕ) → length (replicate {Task = Task} k waits) ≡ k
      as_many zero = refl
      as_many (suc k) = ap suc (as_many k)
