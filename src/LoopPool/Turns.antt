-- ===== src/LoopPool/Turns.antt =====
-- The loops are given in turn.
use ladder.Prelude.{
  Bool, append_assoc, ℕ, zero, suc, ◌+◌, ◌*◌, ◌≤◌, ◌≡◌, refl, sym, ap, ◌∙◌, max, List, [], ◌∷◌,
  ◌++◌, ◌==◌, if◌then◌else◌, true, false, arith,
}
use ladder.LoopPool.{min_event_loop_thread_num, LoopPool, new_loop_pool, get_next_loop, get_loops}

-- So many places from one on.
abbrev pub places : ℕ → ℕ → List ℕ
places i zero = []
places i (suc n) = i ∷ places (suc i) n

abbrev at : ℕ → ℕ → LoopPool
at capacity i = record { capacity = capacity; cur_idx = i }

along : (size i n : ℕ) → i + n ≤ size → get_loops n (at size i) ≡ (places i n, at size (i + n))
unfolding get_loops get_next_loop
along size i zero h = ap (λ (k : ℕ). ([], at size k)) (sym (zero_right i))
  where
    zero_right : (k : ℕ) → k + 0 ≡ k
    zero_right k = omega arith
along size i (suc n) h = rw inside (
    rw (along size (suc i) n (omega arith))
      (ap (λ (k : ℕ). (i ∷ places (suc i) n, at size k)) shift))
  where
    inside : (i == size) ≡ false
    inside = ground arith

    shift : suc i + n ≡ i + suc n
    shift = omega arith

wrapped : (size m : ℕ) → (get_loops m (at size size)).0 ≡ (get_loops m (at size 0)).0
unfolding get_loops get_next_loop
wrapped size zero = refl
wrapped size (suc n) = rw (end, start (0 == size)) refl
  where
    end : (size == size) ≡ true
    end = ground arith

    start : (b : Bool) → ◌≡◌ {A = ℕ} (if b then 0 else 0) 0
    start true = refl
    start false = refl

get_loops-add :
    (m n : ℕ) (p : LoopPool)
    → (get_loops (m + n) p).0 ≡ (get_loops m p).0 ++ (get_loops n (get_loops m p).1).0
unfolding get_loops
get_loops-add zero n p = ap (λ (k : ℕ). (get_loops k p).0) (left n)
  where
    left : (k : ℕ) → 0 + k ≡ k
    left k = omega arith
get_loops-add (suc m) n p =
    ap (λ (k : ℕ). (get_loops k p).0) (out m n)
    ∙ ap (◌∷◌ (get_next_loop p).0) (get_loops-add m n (get_next_loop p).1)
  where
    out : (j k : ℕ) → suc j + k ≡ suc (j + k)
    out j k = omega arith

-- That many whole turns.
abbrev pub turns : ℕ → ℕ → List ℕ
turns zero size = []
turns (suc q) size = places 0 size ++ turns q size

in_turn :
    (size q n : ℕ)
    → n ≤ size
    → (get_loops (q * size + n) (at size 0)).0 ≡ turns q size ++ places 0 n
in_turn size zero n h =
    ap (λ (k : ℕ). (get_loops k (at size 0)).0) (none_left size n)
    ∙ ap (λ r. r.0) (along size 0 n (omega arith))
  where
    none_left : (c k : ℕ) → 0 * c + k ≡ k
    none_left c k = grind arith
in_turn size (suc q) n h =
    ap (λ (k : ℕ). (get_loops k (at size 0)).0) (one_more q size n)
    ∙ get_loops-add size (q * size + n) (at size 0)
    ∙ ap (λ (r : List ℕ × LoopPool). r.0 ++ (get_loops (q * size + n) r.1).0)
        (along size 0 size (omega arith))
    ∙ ap (λ (p : ℕ). places 0 size ++ (get_loops (q * size + n) (at size p)).0) (zero_left size)
    ∙ ap (λ (l : List ℕ). places 0 size ++ l) (wrapped size (q * size + n) ∙ in_turn size q n h)
    ∙ sym (append_assoc (places 0 size) (turns q size) (places 0 n))
  where
    one_more : (j c k : ℕ) → suc j * c + k ≡ c + (j * c + k)
    one_more j c k = grind arith

    zero_left : (c : ℕ) → 0 + c ≡ c
    zero_left c = omega arith

-- The calls of `GetNextLoop` of a new pool give its loops in turn, four at least: after q whole
-- turns the next n calls, no more than there are loops, give the first n loops.
get_loops-new_loop_pool :
    (capacity q n : ℕ)
    → n ≤ max capacity min_event_loop_thread_num
    → (get_loops (q * max capacity min_event_loop_thread_num + n) (new_loop_pool capacity)).0
      ≡ turns q (max capacity min_event_loop_thread_num) ++ places 0 n
unfolding new_loop_pool
get_loops-new_loop_pool capacity q n h = in_turn (max capacity min_event_loop_thread_num) q n h
