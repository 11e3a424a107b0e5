-- ===== src/Buffer/Refine.antt =====
-- A valid buffer behaves as a queue of bytes: writing appends, reading takes from the front.
use ladder.Prelude.{
  ℕ, ◌+◌, ◌-◌, ◌≤◌, ◌<◌, ◌≡◌, sym, ap, ◌∙◌, ◌^◌, min, List, ◌++◌, take, drop, length, length-append,
  length-take, drop-append_left, drop-take, drop-drop, take-append, take-take-min, length-eq-zero,
  drop-eq_nil, drop-min, append_assoc, arith,
}
use mathlib.Core.Path.{Σ_path}
use native.Mathlib.Decide.{dec_lt}
use ladder.Prelude.Word.{u32}
use ladder.Buffer.{Buffer, readable_bytes, peek, have_read, read, write}
use ladder.Buffer.Inv.{IsValid, contents, length-contents}

pub contents-write :
    {b : Buffer} (s : List ℕ)
    → IsValid b
    → b.write_index + length s < 2 ^ 32
    → contents (write s b) ≡ contents b ++ s
unfolding write
contents-write {b} s v h =
    ap (λ (k : ℕ). take (k - b.read_index) (drop b.read_index (written ++ (s ++ behind)))) no_wrap
    ∙ ap (take n) (drop-append_left b.read_index written (s ++ behind) (omega (arith, cut)))
    ∙ ap (λ (xs : List ℕ). take n (xs ++ (s ++ behind)))
        (drop-take b.read_index b.write_index b.storage)
    ∙ ap (take n) (sym (append_assoc (contents b) s behind))
    ∙ take-append (contents b ++ s) behind n
        (omega (arith, length-append (contents b) s, length-contents v))
  where
    written : List ℕ
    written = take b.write_index b.storage

    behind : List ℕ
    behind = drop b.write_index b.storage

    n : ℕ
    n = b.write_index + length s - b.read_index

    no_wrap : u32 (b.write_index + length s) ≡ b.write_index + length s
    no_wrap = omega arith

    cut : length written ≡ min b.write_index (length b.storage)
    cut = length-take b.write_index b.storage

pub peek_lem :
    {b : Buffer} (n : ℕ)
    → IsValid b
    → n < 2 ^ 32
    → peek n b ≡ (min n (length (contents b)), take n (contents b))
unfolding peek
peek_lem {b} n v h = Σ_path (omega (arith, length-contents v)) (
    ap (λ (k : ℕ). take k (drop b.read_index b.storage)) shown
    ∙ sym (take-take-min n (b.write_index - b.read_index) (drop b.read_index b.storage)))
  where
    shown : min (u32 n) (readable_bytes b) ≡ min n (b.write_index - b.read_index)
    shown = omega arith

have_read_some :
    {b : Buffer} (n : ℕ)
    → IsValid b
    → n < b.write_index - b.read_index
    → have_read n b ≡ record b { read_index = b.read_index + n }
unfolding have_read
have_read_some n v h = ground arith

pub have_read-zero : {b : Buffer} → IsValid b → b.read_index < b.write_index → have_read 0 b ≡ b
unfolding have_read
have_read-zero v h = ground arith

have_read_all :
    {b : Buffer} (n : ℕ)
    → IsValid b
    → n < 2 ^ 32
    → b.write_index - b.read_index ≤ n
    → have_read n b ≡ record b { read_index = 0; write_index = 0 }
unfolding have_read
have_read_all n v h k = ground arith

pub contents-have_read :
    {b : Buffer} (n : ℕ) → IsValid b → n < 2 ^ 32 → contents (have_read n b) ≡ drop n (contents b)
contents-have_read {b} n v h = elim (dec_lt n (b.write_index - b.read_index)) [
  | yes p ↦
      ap contents (have_read_some n v p)
      ∙ ap (take (b.write_index - (b.read_index + n))) (sym (drop-drop n b.read_index b.storage))
      ∙ ap (λ (k : ℕ). take k (drop n (drop b.read_index b.storage)))
          (let e : b.write_index - (b.read_index + n) ≡ b.write_index - b.read_index - n =
              omega arith in
            e)
      ∙ sym (drop-take n (b.write_index - b.read_index) (drop b.read_index b.storage))
  | no p ↦
      ap contents (have_read_all n v h (omega arith))
      ∙ length-eq-zero _ (omega (arith, length-take 0 b.storage))
      ∙ sym (drop-eq_nil n (contents b) (omega (arith, length-contents v)))
]

-- Reading `n` bytes returns them and takes them out.
pub read_lem :
    {b : Buffer} (n : ℕ)
    → IsValid b
    → n < 2 ^ 32
    → ((read n b).0 ≡ take n (contents b)) × (contents (read n b).1 ≡ drop n (contents b))
unfolding read
read_lem {b} n v h = (
  ap (λ (p : ℕ × List ℕ). p.1) (peek_lem n v h),
  ap (λ (p : ℕ × List ℕ). contents (have_read p.0 b)) (peek_lem n v h)
      ∙ contents-have_read (min n (length (contents b))) v (omega arith)
      ∙ drop-min n (contents b),
)
