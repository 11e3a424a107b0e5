-- ===== src/Buffer/Queue.antt =====
-- The contract of a buffer: a first-in first-out queue of bytes, and what a client's calls return.
use ladder.Prelude.{
  ℕ, ◌+◌, ◌-◌, ◌≤◌, ◌<◌, ◌≡◌, refl, ap, ◌∙◌, ◌^◌, Bool, true, false, some, List, [], ◌∷◌, ◌++◌,
  take, drop, length, take-eq_self, drop-eq_nil, arith,
}
use mathlib.Core.Path.{Σ_path}
use ladder.Prelude.Word.{u32, u32_bytes, u32_load-u32_bytes}
use ladder.Buffer.{
  Buffer, peek, have_read, read, read_all, is_empty, write, write_u32, read_u32, peek_u32,
  string_u32,
}
use ladder.Buffer.Inv.{
  IsValid, contents, length-contents, have_read-IsValid, read-IsValid, write-IsValid,
  write_index-write, write_index-have_read_le, length-storage-write, storage-have_read,
  storage-read, storage-read_all, write_index-read_le, write_index-read_all_le, read_all-IsValid,
}
use ladder.Buffer.Refine.{contents-write, contents-have_read, peek_lem, read_lem}

-- A client's calls.
pub data Call : Type 0 where
  writes : List ℕ → Call
  reads peeks drops : ℕ → Call
  reads_all asks_empty : Call

pub data Reply : Type 0 where
  done : Reply
  bytes : List ℕ → Reply
  answer : Bool → Reply

pub call : Call → Buffer → Reply × Buffer
unfolding read have_read peek
call (writes s) b = (done, write s b)
call (reads n) b = let (s, b') = read n b in (bytes s, b')
call (peeks n) b = (bytes (peek n b).1, b)
call (drops n) b = (done, have_read n b)
call reads_all b = let (s, b') = read_all b in (bytes s, b')
call asks_empty b = (answer (is_empty b), b)

abbrev pub is_nil : List ℕ → Bool
is_nil [] = true
is_nil (x ∷ xs) = false

pub spec_call : Call → List ℕ → Reply × List ℕ
spec_call (writes s) q = (done, q ++ s)
spec_call (reads n) q = (bytes (take n q), drop n q)
spec_call (peeks n) q = (bytes (take n q), q)
spec_call (drops n) q = (done, drop n q)
spec_call reads_all q = (bytes q, [])
spec_call asks_empty q = (answer (is_nil q), q)

-- Counts fit 32 bits, and a write does not push the write index over them.
abbrev pub Fits : Call → ℕ → Type 0
Fits (writes s) w = w + length s < 2 ^ 32
Fits (reads n) w = n < 2 ^ 32
Fits (peeks n) w = n < 2 ^ 32
Fits (drops n) w = n < 2 ^ 32
Fits reads_all w = Unit
Fits asks_empty w = Unit

pub read_all_lem :
    {b : Buffer} → IsValid b → ((read_all b).0 ≡ contents b) × (contents (read_all b).1 ≡ [])
unfolding read_all
read_all_lem {b} v =
    let n = u32 (b.write_index + 2 ^ 32 - b.read_index) in
    let r = read_lem n v (omega arith) in
    (
      r.0 ∙ take-eq_self n (contents b) (omega (arith, length-contents v)),
      r.1 ∙ drop-eq_nil n (contents b) (omega (arith, length-contents v)),
    )

pub is_empty_lem : {b : Buffer} → IsValid b → is_empty b ≡ is_nil (contents b)
unfolding is_empty
is_empty_lem {b} v = go (contents b) (length-contents v)
  where
    go : (q : List ℕ) → length q ≡ b.write_index - b.read_index → is_empty b ≡ is_nil q
    go [] e = ground arith
    go (x ∷ xs) e = ground arith

-- Each call answers as the queue does, and leaves the buffer valid and holding the queue's rest.
call_refines :
    (c : Call) {b : Buffer}
    → IsValid b
    → Fits c b.write_index
    → (((call c b).0, contents (call c b).1) ≡ spec_call c (contents b)) × IsValid (call c b).1
unfolding call spec_call
call_refines (writes s) v h = (Σ_path refl (contents-write s v h), write-IsValid s v h)
call_refines (reads n) v h =
    (Σ_path (ap bytes (read_lem n v h).0) (read_lem n v h).1, read-IsValid n v)
call_refines (peeks n) {b} v h =
    (ap (λ (p : ℕ × List ℕ). (bytes p.1, contents b)) (peek_lem n v h), v)
call_refines (drops n) v h = (Σ_path refl (contents-have_read n v h), have_read-IsValid n v)
call_refines reads_all v h =
    (Σ_path (ap bytes (read_all_lem v).0) (read_all_lem v).1, read_all-IsValid v)
call_refines asks_empty {b} v h = (Σ_path (ap answer (is_empty_lem v)) refl, v)

unfoldable pub run : List Call → Buffer → List Reply
unfolding call
run [] b = []
run (c ∷ cs) b = let (r, b') = call c b in r ∷ run cs b'

unfoldable pub spec_run : List Call → List ℕ → List Reply
unfolding spec_call
spec_run [] q = []
spec_run (c ∷ cs) q = let (r, q') = spec_call c q in r ∷ spec_run cs q'

-- Room for a run: the counts fit, and all that is written stays below 2 ^ 32 bytes.
abbrev pub Room : List Call → ℕ → Type 0
Room [] w = w < 2 ^ 32
Room (writes s ∷ cs) w = (w + length s < 2 ^ 32) × Room cs (w + length s)
Room (reads n ∷ cs) w = (n < 2 ^ 32) × Room cs w
Room (peeks n ∷ cs) w = (n < 2 ^ 32) × Room cs w
Room (drops n ∷ cs) w = (n < 2 ^ 32) × Room cs w
Room (reads_all ∷ cs) w = Room cs w
Room (asks_empty ∷ cs) w = Room cs w

Room-mono : (cs : List Call) (w w' : ℕ) → w' ≤ w → Room cs w → Room cs w'
Room-mono [] w w' h r = omega arith
Room-mono (writes s ∷ cs) w w' h r =
    (omega arith, Room-mono cs (w + length s) (w' + length s) (omega arith) r.1)
Room-mono (reads n ∷ cs) w w' h r = (r.0, Room-mono cs w w' h r.1)
Room-mono (peeks n ∷ cs) w w' h r = (r.0, Room-mono cs w w' h r.1)
Room-mono (drops n ∷ cs) w w' h r = (r.0, Room-mono cs w w' h r.1)
Room-mono (reads_all ∷ cs) w w' h r = Room-mono cs w w' h r
Room-mono (asks_empty ∷ cs) w w' h r = Room-mono cs w w' h r

Room-call :
    (c : Call) (cs : List Call) (b : Buffer)
    → Room (c ∷ cs) b.write_index
    → Fits c b.write_index × Room cs (call c b).1.write_index
unfolding call
Room-call (writes s) cs b r = (r.0, Room-mono cs _ _ (omega (arith, write_index-write s b r.0)) r.1)
Room-call (reads n) cs b r = (r.0, Room-mono cs _ _ (write_index-read_le n b) r.1)
Room-call (peeks n) cs b r = r
Room-call (drops n) cs b r = (r.0, Room-mono cs _ _ (write_index-have_read_le n b) r.1)
Room-call reads_all cs b r = (tt, Room-mono cs _ _ (write_index-read_all_le b) r)
Room-call asks_empty cs b r = (tt, r)

-- No sequence of writes, reads, peeks, discards and tests tells a valid buffer from the queue of
-- its contents, as long as the counts fit 32 bits and the bytes written do not pass 2 ^ 32.
pub run_refines :
    (cs : List Call) {b : Buffer}
    → IsValid b
    → Room cs b.write_index
    → run cs b ≡ spec_run cs (contents b)
unfolding run spec_run
run_refines [] v r = refl
run_refines (c ∷ cs) {b} v r =
    let room = Room-call c cs b r in
    let one = call_refines c v room.0 in
    ap (◌∷◌ (call c b).0) (run_refines cs one.1 room.1)
    ∙ ap (λ (p : Reply × List ℕ). p.0 ∷ spec_run cs p.1) one.0

-- What `WriteUInt32` appends, `ReadUInt32` and `PeekUInt32` give back once it is at the front.
pub read_u32-u32_bytes :
    {b : Buffer} (n : ℕ) (rest : List ℕ)
    → IsValid b
    → n < 2 ^ 32
    → contents b ≡ u32_bytes n ++ rest
    → (peek_u32 b ≡ some n) × ((read_u32 b).0 ≡ some n) × (contents (read_u32 b).1 ≡ rest)
unfolding peek_u32 read_u32
read_u32-u32_bytes {b} n rest v h e =
    let r = read_lem 4 v (omega arith) in
    let loaded : string_u32 (take 4 (contents b)) ≡ some n =
      ap (λ (xs : List ℕ). string_u32 (take 4 xs)) e ∙ u32_load-u32_bytes n (0 ∷ []) h in
    (
      ap (λ (p : ℕ × List ℕ). string_u32 p.1) (peek_lem 4 v (omega arith)) ∙ loaded,
      ap string_u32 r.0 ∙ loaded,
      r.1 ∙ ap (drop 4) e,
    )

pub write_u32-IsValid :
    {b : Buffer} (n : ℕ)
    → IsValid b
    → b.write_index + 4 < 2 ^ 32
    → IsValid (write_u32 n b) × ((write_u32 n b).write_index ≡ b.write_index + 4)
unfolding write_u32
write_u32-IsValid {b} n v h = (write-IsValid (u32_bytes n) v h, write_index-write (u32_bytes n) b h)

pub contents-write_u32 :
    {b : Buffer} (n : ℕ)
    → IsValid b
    → b.write_index + 4 < 2 ^ 32
    → contents (write_u32 n b) ≡ contents b ++ u32_bytes n
unfolding write_u32
contents-write_u32 n v h = contents-write (u32_bytes n) v h

pub after : List Call → Buffer → Buffer
unfolding call
after [] b = b
after (c ∷ cs) b = after cs (call c b).1

abbrev pub written : List Call → ℕ
written [] = 0
written (writes s ∷ cs) = length s + written cs
written (reads n ∷ cs) = written cs
written (peeks n ∷ cs) = written cs
written (drops n ∷ cs) = written cs
written (reads_all ∷ cs) = written cs
written (asks_empty ∷ cs) = written cs

-- The vector is never cut: after any calls it holds as many bytes as were ever written into it
-- (beside those it held at first), also when every one of them has been read.
length-storage-after :
    (cs : List Call) (b : Buffer) → length (after cs b).storage ≡ length b.storage + written cs
unfolding after
length-storage-after [] b = omega arith
length-storage-after (writes s ∷ cs) b =
    omega (arith, length-storage-after cs (write s b), length-storage-write s b)
length-storage-after (reads n ∷ cs) b =
    omega (arith, length-storage-after cs (read n b).1, ap length (storage-read n b))
length-storage-after (peeks n ∷ cs) b = length-storage-after cs b
length-storage-after (drops n ∷ cs) b =
    omega (arith, length-storage-after cs (have_read n b), ap length (storage-have_read n b))
length-storage-after (reads_all ∷ cs) b =
    omega (arith, length-storage-after cs (read_all b).1, ap length (storage-read_all b))
length-storage-after (asks_empty ∷ cs) b = length-storage-after cs b
