-- ===== src/Buffer/Inv.antt =====
-- The representation invariant of a buffer: the indices are ordered, inside the storage and do not
-- wrap.
use ladder.Prelude.{
  ℕ, ◌+◌, ◌-◌, ◌≤◌, ◌<◌, ◌≡◌, ◌^◌, List, ◌++◌, take, drop, length, length-append, length-take,
  length-drop, arith,
}
use ladder.Buffer.{read_all, Buffer, empty_buffer, readable_bytes, peek, have_read, read, write}

pub record IsValid (b : Buffer) : Type 0 where
  pub ordered : b.read_index ≤ b.write_index
  pub stored : b.write_index ≤ length b.storage
  pub in_word : b.write_index < 2 ^ 32

pub empty_buffer-IsValid : IsValid empty_buffer
empty_buffer-IsValid = omega arith

-- What is written and not yet read, oldest first.
abbrev pub contents : Buffer → List ℕ
contents b = take (b.write_index - b.read_index) (drop b.read_index b.storage)

pub length-contents : {b : Buffer} → IsValid b → length (contents b) ≡ b.write_index - b.read_index
length-contents {b} v = omega (
  arith,
  length-take (b.write_index - b.read_index) (drop b.read_index b.storage),
  length-drop b.read_index b.storage,
)

-- `ReadableBytes` counts the contents.
pub readable_bytes-eq-length : {b : Buffer} → IsValid b → readable_bytes b ≡ length (contents b)
unfolding readable_bytes
readable_bytes-eq-length v = omega (arith, length-contents v)

pub write-IsValid :
    {b : Buffer} (s : List ℕ) → IsValid b → b.write_index + length s < 2 ^ 32 → IsValid (write s b)
unfolding write
write-IsValid {b} s v h = omega (
  arith,
  length-append (take b.write_index b.storage) (s ++ drop b.write_index b.storage),
  length-append s (drop b.write_index b.storage),
  length-take b.write_index b.storage,
)

pub write_index-write :
    (s : List ℕ) (b : Buffer)
    → b.write_index + length s < 2 ^ 32
    → (write s b).write_index ≡ b.write_index + length s
unfolding write
write_index-write s b h = omega arith

pub have_read-IsValid : {b : Buffer} (n : ℕ) → IsValid b → IsValid (have_read n b)
unfolding have_read
have_read-IsValid n v = ground arith

pub read-IsValid : {b : Buffer} (n : ℕ) → IsValid b → IsValid (read n b).1
unfolding read
read-IsValid {b} n v = have_read-IsValid (peek n b).0 v

pub read_all-IsValid : {b : Buffer} → IsValid b → IsValid (read_all b).1
unfolding read_all
read_all-IsValid {b} v = read-IsValid _ v

pub write_index-have_read_le : (n : ℕ) (b : Buffer) → (have_read n b).write_index ≤ b.write_index
unfolding have_read
write_index-have_read_le n b = ground arith

pub write_index-read_le : (n : ℕ) (b : Buffer) → (read n b).1.write_index ≤ b.write_index
unfolding read
write_index-read_le n b = write_index-have_read_le (peek n b).0 b

pub write_index-read_all_le : (b : Buffer) → (read_all b).1.write_index ≤ b.write_index
unfolding read_all
write_index-read_all_le b = write_index-read_le _ b

-- No operation makes the storage smaller: reading moves the indices only.
pub storage-have_read : (n : ℕ) (b : Buffer) → (have_read n b).storage ≡ b.storage
unfolding have_read
storage-have_read n b = ground arith

pub storage-read : (n : ℕ) (b : Buffer) → (read n b).1.storage ≡ b.storage
unfolding read
storage-read n b = storage-have_read (peek n b).0 b

pub storage-read_all : (b : Buffer) → (read_all b).1.storage ≡ b.storage
unfolding read_all
storage-read_all b = storage-read _ b

pub length-storage-write :
    (s : List ℕ) (b : Buffer) → length (write s b).storage ≡ length b.storage + length s
unfolding write
length-storage-write s b = omega (
  arith,
  length-append (take b.write_index b.storage) (s ++ drop b.write_index b.storage),
  length-append s (drop b.write_index b.storage),
  length-take b.write_index b.storage,
  length-drop b.write_index b.storage,
)
