-- ===== src/MemoryPool.antt =====
-- ladder/src/MemoryPool.cpp: a list of free blocks of one size, and the one instance of it.
-- An address is a number; the addresses that `new char[]` gives are a parameter.
pub mod Blocks
pub mod Instance
mod Tests
use ladder.Prelude.{ℕ, Bool, true, false, Option, none, some, List, [], ◌∷◌, ltb, if◌then◌else◌}

pub record Pool : Type 0 where
  pub blocks : List ℕ
  pub block_size : ℕ

-- The constructor, by the addresses of its blocks in the order of the list.
pub new_pool : List ℕ → ℕ → Pool
new_pool addresses block_size = record { blocks = addresses; block_size = block_size }

-- `allocate()`; `none` is the null pointer.
allocate_block : List ℕ → ℕ → Option ℕ × Pool
allocate_block [] block_size = (none, record { blocks = []; block_size = block_size })
allocate_block (memory ∷ next) block_size =
    (some memory, record { blocks = next; block_size = block_size })

pub allocate : ℕ → Pool → Option ℕ × Pool
unfolding allocate_block
allocate n p = if ltb p.block_size n then (none, p) else allocate_block p.blocks p.block_size

pub free : ℕ → Pool → Pool
free memory p = record p { blocks = memory ∷ p.blocks }

-- The function-local `instance` of `create`, the member `instance_`, and whether the pool that the
-- first of them points to has been deleted.
pub record Singleton : Type 0 where
  pub made : Bool
  pub instance_is_set : Bool
  pub deleted : Bool

abbrev pub no_instance : Singleton
no_instance = record { made = false; instance_is_set = false; deleted = false }

-- `create` and `instance`: whether the pointer returned is to a live pool, and the state afterwards.
pub create : Singleton → Bool × Singleton
create s =
    if s.made
    then (if s.deleted then false else true, record s { instance_is_set = true })
    else (true, record { made = true; instance_is_set = true; deleted = false })

pub release : Singleton → Singleton
release s = if s.instance_is_set then record s { deleted = true; instance_is_set = false } else s
