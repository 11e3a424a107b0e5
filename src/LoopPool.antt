-- ===== src/LoopPool.antt =====
-- ladder/src/EventLoopThreadPool.cpp: loops that are handed out in turn. A loop is its place in the
-- vector.
pub mod Turns
use ladder.Prelude.{ℕ, zero, suc, max, List, [], ◌∷◌, ◌==◌, if◌then◌else◌}

abbrev pub min_event_loop_thread_num : ℕ
min_event_loop_thread_num = 4

pub record LoopPool : Type 0 where
  pub capacity : ℕ
  pub cur_idx : ℕ

pub new_loop_pool : ℕ → LoopPool
new_loop_pool capacity = record { capacity = max capacity min_event_loop_thread_num; cur_idx = 0 }

pub get_next_loop : LoopPool → ℕ × LoopPool
get_next_loop p =
    let cur = if p.cur_idx == p.capacity then 0 else p.cur_idx in
    (cur, record p { cur_idx = suc cur })

-- So many calls: the loops that they give, in order.
pub get_loops : ℕ → LoopPool → List ℕ × LoopPool
unfolding get_next_loop
get_loops zero p = ([], p)
get_loops (suc n) p = let (i, q) = get_next_loop p in let (is, r) = get_loops n q in (i ∷ is, r)
