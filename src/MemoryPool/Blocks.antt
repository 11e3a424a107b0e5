-- ===== src/MemoryPool/Blocks.antt =====
-- Which blocks are free and which are handed out.
use ladder.Prelude.{
  length, leb, ◌&&◌, leb, ◌&&◌, ℕ, zero, suc, ◌+◌, ◌≡◌, refl, ap, ◌∙◌, Option, none, some, List, [],
  ◌∷◌, ltb, ◌==◌, if◌then◌else◌, Bool-cases, inl, inr, arith,
}
use ladder.MemoryPool.{true, false, new_pool, Bool, Pool, allocate_block, allocate, free}

-- A program's use of the pool: it asks for a size, or gives back the block that it has held the
-- n-th longest since, if there is one.
pub data Use : Type 0 where
  asks : ℕ → Use
  gives_back : ℕ → Use

-- How often an address is in a list.
unfoldable pub count : ℕ → List ℕ → ℕ
count x [] = 0
count x (y ∷ ys) = if x == y then suc (count x ys) else count x ys

-- The n-th of a list, and the others.
pub pick : ℕ → List ℕ → Option ℕ × List ℕ
pick n [] = (none, [])
pick zero (y ∷ ys) = (some y, ys)
pick (suc n) (y ∷ ys) = let (found, rest) = pick n ys in (found, y ∷ rest)

held_with : Option ℕ → List ℕ → List ℕ
held_with none held = held
held_with (some memory) held = memory ∷ held

freed : Option ℕ → Pool → Pool
freed none p = p
freed (some memory) p = free memory p

-- The pool and the blocks that the program holds.
pub use_pool : Use → Pool × List ℕ → Pool × List ℕ
unfolding allocate free
use_pool (asks n) (p, held) = let (got, q) = allocate n p in (q, held_with got held)
use_pool (gives_back n) (p, held) = let (found, rest) = pick n held in (freed found p, rest)

pub use_all : List Use → Pool × List ℕ → Pool × List ℕ
unfolding use_pool
use_all [] s = s
use_all (u ∷ us) s = use_all us (use_pool u s)

abbrev total : ℕ → Pool × List ℕ → ℕ
total x s = count x s.0.blocks + count x s.1

count-pick : (x n : ℕ) (ys : List ℕ) → count x (held_with (pick n ys).0 (pick n ys).1) ≡ count x ys
unfolding count pick held_with
count-pick x n [] = refl
count-pick x zero (y ∷ ys) = refl
count-pick x (suc n) (y ∷ ys) = swapped (pick n ys).0 (pick n ys).1 (count-pick x n ys)
  where
    swapped :
        (found : Option ℕ) (rest : List ℕ)
        → count x (held_with found rest) ≡ count x ys
        → count x (held_with found (y ∷ rest)) ≡ count x (y ∷ ys)
    swapped none rest p = ground (arith, p)
    swapped (some m) rest p = ground (arith, p)

allocated :
    (x : ℕ) (blocks held : List ℕ) (size : ℕ)
    → count x (allocate_block blocks size).1.blocks
        + count x (held_with (allocate_block blocks size).0 held)
      ≡ count x blocks + count x held
unfolding count allocate_block held_with
allocated x [] held size = refl
allocated x (b ∷ bs) held size = ground arith

total-use_pool : (x : ℕ) (u : Use) (s : Pool × List ℕ) → total x (use_pool u s) ≡ total x s
unfolding use_pool allocate free held_with freed count
total-use_pool x (asks n) (p, held) = elim (Bool-cases (ltb p.block_size n)) [
  | inl t ↦ rw t refl
  | inr f ↦ rw f (allocated x p.blocks held p.block_size)
]
total-use_pool x (gives_back n) (p, held) =
    given (pick n held).0 ∙ ap (λ (k : ℕ). count x p.blocks + k) (count-pick x n held)
  where
    given :
        (found : Option ℕ)
        → count x (freed found p).blocks + count x (pick n held).1
          ≡ count x p.blocks + count x (held_with found (pick n held).1)
    given none = refl
    given (some m) = ground arith

total-use_all : (x : ℕ) (us : List Use) (s : Pool × List ℕ) → total x (use_all us s) ≡ total x s
unfolding use_all
total-use_all x [] s = refl
total-use_all x (u ∷ us) s = total-use_all x us (use_pool u s) ∙ total-use_pool x u s

-- After any use of a new pool, every block is free or handed out exactly as often as the pool was
-- given it: of distinct blocks none is handed out twice, none is free while it is handed out, and
-- none is lost.
pub count-use_all :
    (addresses : List ℕ) (block_size : ℕ) (us : List Use) (x : ℕ)
    → let s = use_all us (new_pool addresses block_size, []) in
      count x s.0.blocks + count x s.1 ≡ count x addresses
unfolding new_pool count
count-use_all addresses size us x = total-use_all x us (new_pool addresses size, []) ∙ omega arith

-- Whether it is a pointer to something.
abbrev pub given : Option ℕ → Bool
given none = false
given (some m) = true

-- The same for the number of blocks, and the size of a block stays.
abbrev Kept : ℕ → ℕ → Pool × List ℕ → Type 0
Kept n size s = (length s.0.blocks + length s.1 ≡ n) × (s.0.block_size ≡ size)

length-pick : (n : ℕ) (ys : List ℕ) → length (held_with (pick n ys).0 (pick n ys).1) ≡ length ys
unfolding pick held_with
length-pick n [] = refl
length-pick zero (y ∷ ys) = refl
length-pick (suc n) (y ∷ ys) = longer (pick n ys).0 (pick n ys).1 (length-pick n ys)
  where
    longer :
        (found : Option ℕ) (rest : List ℕ)
        → length (held_with found rest) ≡ length ys
        → length (held_with found (y ∷ rest)) ≡ length (y ∷ ys)
    longer none rest p = ap suc p
    longer (some m) rest p = ap suc p

use_pool-Kept :
    (n size : ℕ) (u : Use) (s : Pool × List ℕ) → Kept n size s → Kept n size (use_pool u s)
unfolding use_pool allocate allocate_block free held_with freed
use_pool-Kept n size (asks k) (p, held) q = elim (Bool-cases (ltb p.block_size k)) [
  | inl t ↦ rw t q
  | inr f ↦ rw f (taken p.blocks q.0)
]
  where
    taken :
        (blocks : List ℕ)
        → length blocks + length held ≡ n
        → Kept n size (
          (allocate_block blocks p.block_size).1,
          held_with (allocate_block blocks p.block_size).0 held,
        )
    taken [] r = (r, q.1)
    taken (b ∷ bs) r = (omega (arith, r), q.1)
use_pool-Kept n size (gives_back k) (p, held) q = back (pick k held).0 (length-pick k held)
  where
    back :
        (found : Option ℕ)
        → length (held_with found (pick k held).1) ≡ length held
        → Kept n size (freed found p, (pick k held).1)
    back none r = (omega (arith, r, q.0), q.1)
    back (some m) r = (omega (arith, r, q.0), q.1)

use_all-Kept :
    (n size : ℕ) (us : List Use) (s : Pool × List ℕ) → Kept n size s → Kept n size (use_all us s)
unfolding use_all
use_all-Kept n size [] s q = q
use_all-Kept n size (u ∷ us) s q =
    use_all-Kept n size us (use_pool u s) (use_pool-Kept n size u s q)

given-allocate :
    (n h m : ℕ) (p : Pool)
    → length p.blocks + h ≡ m
    → given (allocate n p).0 ≡ (leb n p.block_size && ltb h m)
unfolding allocate allocate_block
given-allocate n h m p e = elim (Bool-cases (ltb p.block_size n)) [
  | inl t ↦ rw t (ground arith)
  | inr f ↦ rw f (first f p.blocks e)
]
  where
    first :
        ltb p.block_size n ≡ false
        → (blocks : List ℕ) → length blocks + h ≡ m
        → given (allocate_block blocks p.block_size).0 ≡ (leb n p.block_size && ltb h m)
    first f [] q = ground arith
    first f (b ∷ bs) q = ground arith

-- After any use of a new pool, `allocate` gives a block exactly if the size asked for fits a block
-- and not all blocks are handed out.
allocate-use_all :
    (addresses : List ℕ) (block_size : ℕ) (us : List Use) (n : ℕ)
    → let s = use_all us (new_pool addresses block_size, []) in
      given (allocate n s.0).0 ≡ (leb n block_size && ltb (length s.1) (length addresses))
unfolding new_pool
allocate-use_all addresses size us n =
    let s = use_all us (new_pool addresses size, []) in
    let k =
      use_all-Kept (length addresses) size us (new_pool addresses size, []) (omega arith, refl) in
    given-allocate n (length s.1) (length addresses) s.0 k.0
    ∙ ap (λ (b : ℕ). leb n b && ltb (length s.1) (length addresses)) k.1
