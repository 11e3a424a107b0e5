-- ===== src/ThreadPool.antt =====
-- ladder/src/ThreadPool.cpp: workers that take tasks from one queue. What a worker does while it
-- holds the lock is one step, and so is the run of a task.
pub mod Order
pub mod Drain
pub mod Settle
pub mod Finish
mod Tests
use ladder.Prelude.{
  get_elem?, ℕ, zero, suc, Bool, true, false, not, ◌&&◌, ◌||◌, Option, none, some, List, [], ◌∷◌,
  ◌++◌, if◌then◌else◌,
}

-- A thread in the loop of `Init`: at `wait`, with `cur_task` taken, or out of the loop.
pub data Worker (Task : Type 0) : Type 0 where
  waits : Worker Task
  runs : Task → Worker Task
  exited : Worker Task

-- `taken` and `finished` note what the workers did.
pub record ThreadPool (Task : Type 0) : Type 0 where
  pub stopped : Bool
  pub tasks : List Task
  pub threads : List (Worker Task)
  pub taken : List Task
  pub finished : List Task

-- The callers' calls, the next step of a thread, and the start of the destructor.
pub data Event (Task : Type 0) : Type 0 where
  emplaces : Option Task → Event Task
  schedules : ℕ → Event Task
  stops : Event Task

module _ {Task : Type 0} where
  abbrev pub replicate : ℕ → Worker Task → List (Worker Task)
  replicate zero t = []
  replicate (suc n) t = t ∷ replicate n t

  abbrev pub is_empty : List Task → Bool
  is_empty [] = true
  is_empty (t ∷ ts) = false

  abbrev pub set_at : ℕ → Worker Task → List (Worker Task) → List (Worker Task)
  set_at i t [] = []
  set_at zero t (u ∷ us) = t ∷ us
  set_at (suc i) t (u ∷ us) = u ∷ set_at i t us

  pub new_thread_pool : ℕ → ThreadPool Task
  new_thread_pool capacity = record {
    stopped = false;
    tasks = [];
    threads = replicate capacity waits;
    taken = [];
    finished = [];
  }

  -- An empty function is refused.
  pub emplace : Option Task → ThreadPool Task → ThreadPool Task
  emplace none p = p
  emplace (some f) p = record p { tasks = p.tasks ++ f ∷ [] }

  pub stop : ThreadPool Task → ThreadPool Task
  stop p = record p { stopped = true }

  -- Behind `wait`, with the queue as it is.
  pub take_task : ℕ → List Task → ThreadPool Task → ThreadPool Task
  take_task i [] p = if p.stopped then record p { threads = set_at i exited p.threads } else p
  take_task i (t ∷ ts) p = record p {
    tasks = ts;
    threads = set_at i (runs t) p.threads;
    taken = p.taken ++ t ∷ [];
  }

  pub schedule : ℕ → Option (Worker Task) → ThreadPool Task → ThreadPool Task
  unfolding take_task
  schedule i none p = p
  schedule i (some waits) p = take_task i p.tasks p
  schedule i (some (runs t)) p = record p {
    threads = set_at i waits p.threads;
    finished = p.finished ++ t ∷ [];
  }
  schedule i (some exited) p = p

  pub step : Event Task → ThreadPool Task → ThreadPool Task
  unfolding emplace stop schedule
  step (emplaces f) p = emplace f p
  step (schedules i) p = schedule i (get_elem? p.threads i) p
  step stops p = stop p

  pub run : List (Event Task) → ThreadPool Task → ThreadPool Task
  unfolding step
  run [] p = p
  run (e ∷ es) p = run es (step e p)
