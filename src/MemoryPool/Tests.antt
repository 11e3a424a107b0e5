-- ===== src/MemoryPool/Tests.antt =====
-- A pool of two blocks.
use ladder.Prelude.{ℕ, ◌+◌, ◌≡◌, List, [], ◌∷◌}
use ladder.MemoryPool.{Pool, new_pool}
use ladder.MemoryPool.Blocks.{Use, asks, gives_back, count, use_all, count-use_all}

abbrev uses : List Use
uses = asks 8 ∷ asks 2000 ∷ asks 16 ∷ gives_back 1 ∷ asks 4 ∷ []

abbrev after_uses : Pool × List ℕ
after_uses = use_all uses (new_pool (100 ∷ 200 ∷ []) 1024, [])

count-use_all_example : count 200 after_uses.0.blocks + count 200 after_uses.1 ≡ 1
unfolding count
count-use_all_example = count-use_all (100 ∷ 200 ∷ []) 1024 uses 200
