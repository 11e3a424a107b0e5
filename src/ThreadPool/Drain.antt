-- ===== src/ThreadPool/Drain.antt =====
-- What the destructor waits for: each thread ends, and no task is left.
use mathlib.Core.Path.{subst}
use ladder.Prelude.{
  ◌≢◌, Bool-cases, ◌==◌, if◌then◌else◌, ℕ, zero, suc, ◌+◌, ◌*◌, ◌≤◌, ◌≡◌, refl, sym, ap, ◌∙◌, true,
  false, Option, none, some, List, [], ◌∷◌, length, get_elem?, arith, ◌⊎◌, inl, inr,
}
use ladder.ThreadPool.{
  Worker, waits, runs, exited, ThreadPool, Event, schedules, set_at, take_task, schedule, step, run,
}

-- How often a thread has its turn.
abbrev pub times : ℕ → List ℕ → ℕ
times i [] = 0
times i (j ∷ order) = if j == i then suc (times i order) else times i order

module _ {Task : Type 0} where
  abbrev pub scheduled : List ℕ → List (Event Task)
  scheduled [] = []
  scheduled (i ∷ order) = schedules i ∷ scheduled order

  get_elem?-set_at :
      (i j : ℕ) (t : Worker Task) (us : List (Worker Task)) (w : Worker Task)
      → get_elem? us i ≡ some w
      → get_elem? (set_at j t us) i ≡ some (if j == i then t else w)
  get_elem?-set_at i j t [] w h = absurd (cc)
  get_elem?-set_at zero zero t (u ∷ us) w h = refl
  get_elem?-set_at zero (suc j) t (u ∷ us) w h = h ∙ ground arith
  get_elem?-set_at (suc i) zero t (u ∷ us) w h = h ∙ ground arith
  get_elem?-set_at (suc i) (suc j) t (u ∷ us) w h = get_elem?-set_at i j t us w h ∙ ground arith

  -- How many turns a thread needs at most, with so many tasks left.
  abbrev pub turns_left : Worker Task → ℕ → ℕ
  turns_left waits n = 2 * n + 1
  turns_left (runs t) n = 2 * n + 2
  turns_left exited n = 0

  abbrev after_turn : Worker Task → List Task → Worker Task
  after_turn waits [] = exited
  after_turn waits (t ∷ ts) = runs t
  after_turn (runs t) ts = waits
  after_turn exited ts = exited

  abbrev tasks_after : Worker Task → List Task → List Task
  tasks_after waits [] = []
  tasks_after waits (t ∷ ts) = ts
  tasks_after (runs t) ts = ts
  tasks_after exited ts = ts

  turn_at :
      (i j : ℕ) (w u : Worker Task) (us : List (Worker Task)) (new : Worker Task)
      → get_elem? us j ≡ some u
      → get_elem? (set_at i new us) j ≡ some (if i == j then new else u)
  turn_at i j w u us new h = get_elem?-set_at j i new us u h

  same_worker :
      (i j : ℕ) (w u : Worker Task) (us : List (Worker Task))
      → get_elem? us i ≡ some w
      → get_elem? us j ≡ some u
      → get_elem? us j ≡ some (if i == j then w else u)
  same_worker i j w u us h k = elim (Bool-cases (i == j)) [
    | inl t ↦ rw t (ap (get_elem? us) (let e : j ≡ i = ground arith in e) ∙ h)
    | inr f ↦ rw f k
  ]

  -- One turn of a thread once the pool is stopped.
  record Turned (i j : ℕ) (w u : Worker Task) (p q : ThreadPool Task) : Type 0 where
    still_stopped : q.stopped ≡ true
    tasks_left : q.tasks ≡ tasks_after w p.tasks
    turned : get_elem? q.threads j ≡ some (if i == j then after_turn w p.tasks else u)

  take_task-Turned :
      (i j : ℕ) (u : Worker Task) (ts : List Task) (p : ThreadPool Task)
      → p.stopped ≡ true
      → p.tasks ≡ ts
      → get_elem? p.threads j ≡ some u
      → Turned i j waits u p (take_task i ts p)
  unfolding take_task
  take_task-Turned i j u [] p h e k = record {
    still_stopped = rw h refl;
    tasks_left = rw h (rw e refl);
    turned = rw h (rw e (turn_at i j waits u p.threads exited k));
  }
  take_task-Turned i j u (t ∷ ts) p h e k = record {
    still_stopped = h;
    tasks_left = rw e refl;
    turned = rw e (turn_at i j waits u p.threads (runs t) k);
  }

  schedule-Turned :
      (i j : ℕ) (w u : Worker Task) (p : ThreadPool Task)
      → p.stopped ≡ true
      → get_elem? p.threads i ≡ some w
      → get_elem? p.threads j ≡ some u
      → Turned i j w u p (schedule i (some w) p)
  unfolding schedule
  schedule-Turned i j waits u p h e k = take_task-Turned i j u p.tasks p h refl k
  schedule-Turned i j (runs t) u p h e k = record {
    still_stopped = h;
    tasks_left = refl;
    turned = turn_at i j waits u p.threads waits k;
  }
  schedule-Turned i j exited u p h e k = record {
    still_stopped = h;
    tasks_left = refl;
    turned = same_worker i j exited u p.threads e k;
  }

  turns_left-after :
      (w : Worker Task) (ts : List Task)
      → w ≢ exited
      → suc (turns_left (after_turn w ts) (length (tasks_after w ts))) ≤ turns_left w (length ts)
  turns_left-after waits [] ne = omega arith
  turns_left-after waits (t ∷ ts) ne = omega arith
  turns_left-after (runs t) ts ne = omega arith
  turns_left-after exited ts ne = absurd (ne refl)

  pub turns_left_le : (u : Worker Task) (m n : ℕ) → m ≤ n → turns_left u m ≤ turns_left u n
  turns_left_le waits m n h = omega arith
  turns_left_le (runs t) m n h = omega arith
  turns_left_le exited m n h = omega arith

  tasks_after_le : (w : Worker Task) (ts : List Task) → length (tasks_after w ts) ≤ length ts
  tasks_after_le waits [] = omega arith
  tasks_after_le waits (t ∷ ts) = omega arith
  tasks_after_le (runs t) ts = omega arith
  tasks_after_le exited ts = omega arith

  -- After a turn a thread needs one turn less, or has ended, and the others need no more than before.
  turns_left-turned :
      (i j n : ℕ) (w u : Worker Task) (ts : List Task)
      → (i ≡ j → w ≡ u)
      → turns_left u (length ts) ≤ (if i == j then suc n else n)
      → turns_left (if i == j then after_turn w ts else u) (length (tasks_after w ts)) ≤ n
  turns_left-turned i j n w u ts same h = elim (Bool-cases (i == j)) [
    | inl t ↦ rw t (
        own w ts (
          omega (
            arith,
            bound t,
            ap (λ (x : Worker Task). turns_left x (length ts)) (same (ground arith)),
          )))
    | inr f ↦ rw f (omega (arith, turns_left_le u _ _ (tasks_after_le w ts), other f))
  ]
    where
      bound : (i == j) ≡ true → turns_left u (length ts) ≤ suc n
      bound t = rw t at h

      other : (i == j) ≡ false → turns_left u (length ts) ≤ n
      other f = rw f at h

      own :
          (x : Worker Task) (l : List Task)
          → turns_left x (length l) ≤ suc n
          → turns_left (after_turn x l) (length (tasks_after x l)) ≤ n
      own waits [] k = omega arith
      own waits (t ∷ l) k = omega arith
      own (runs t) l k = omega arith
      own exited l k = omega arith

  absent : {m : Option (Worker Task)} {w : Worker Task} → m ≡ none → m ≡ some w → ⊥
  absent h k = cc

  same_some : {m : Option (Worker Task)} {v w : Worker Task} → m ≡ some v → m ≡ some w → v ≡ w
  same_some h k = cc

  abbrev Goal : ℕ → List ℕ → ℕ → ThreadPool Task → Option (Worker Task) → Type 0
  Goal i order j p m = get_elem? (run (scheduled order) (schedule i m p)).threads j ≡ some exited

  pub exits-run :
      (order : List ℕ) (j : ℕ) (u : Worker Task) (p : ThreadPool Task)
      → p.stopped ≡ true
      → get_elem? p.threads j ≡ some u
      → turns_left u (length p.tasks) ≤ times j order
      → get_elem? (run (scheduled order) p).threads j ≡ some exited
  unfolding run step schedule
  exits-run [] j waits p h k enough = absurd (omega arith)
  exits-run [] j (runs t) p h k enough = absurd (omega arith)
  exits-run [] j exited p h k enough = k
  exits-run (i ∷ order) j u p h k enough = go (get_elem? p.threads i) refl (exits-run order j)
    where
      go :
          (m : Option (Worker Task))
          → get_elem? p.threads i ≡ m
          → ((v : Worker Task) (q : ThreadPool Task)
              → q.stopped ≡ true
              → get_elem? q.threads j ≡ some v
              → turns_left v (length q.tasks) ≤ times j order
              → get_elem? (run (scheduled order) q).threads j ≡ some exited)
          → get_elem? (run (scheduled order) (schedule i (get_elem? p.threads i) p)).threads j
            ≡ some exited
      go none e ih =
          subst (Goal i order j p) (sym e)
            (ih u p h k (omega (arith, not_this (Bool-cases (i == j)))))
        where
          not_this :
              (i == j ≡ true) ⊎ (i == j ≡ false) → turns_left u (length p.tasks) ≤ times j order
          not_this (inl t) =
              absurd (absent e (ap (get_elem? p.threads) (let q : i ≡ j = ground arith in q) ∙ k))
          not_this (inr f) = rw f at enough
      go (some w) e ih =
          let turned = schedule-Turned i j w u p h e k in
          subst (Goal i order j p) (sym e) (
            ih _ (schedule i (some w) p) (turned.still_stopped) (turned.turned) (
              subst
                (λ (ts : List Task).
                  turns_left (if i == j then after_turn w p.tasks else u) (length ts)
                  ≤ times j order)
                (sym (turned.tasks_left))
                (turns_left-turned i j (times j order) w u p.tasks
                  (λ q. same_some e (ap (get_elem? p.threads) q ∙ k)) enough)))
