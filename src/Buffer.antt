-- ===== src/Buffer.antt =====
-- ladder/src/Buffer.cpp: the byte buffer between a socket and the program.
-- A `std::vector<char>` is a list of bytes; `std::inserter` inserts in front of what follows.
pub mod Inv
pub mod Refine
pub mod Io
pub mod Drain
pub mod Queue
mod Tests
use ladder.Prelude.{
  ℕ, ◌+◌, ◌-◌, ◌≤◌, ◌≡◌, ◌%◌, ◌^◌, min, Bool, Option, none, List, [], ◌++◌, take, drop, length,
  ◌==◌, if◌then◌else◌,
}
use ladder.Prelude.Word.{u32, u32_bytes, u32_load}

pub record Buffer : Type 0 where
  pub read_index : ℕ
  pub write_index : ℕ
  pub storage : List ℕ

abbrev pub empty_buffer : Buffer
empty_buffer = record { read_index = 0; write_index = 0; storage = [] }

-- Unsigned subtraction wraps.
unfoldable pub readable_bytes : Buffer → ℕ
readable_bytes b = u32 (b.write_index + 2 ^ 32 - b.read_index)

-- `static_cast<uint32_t>(n)` cuts a `size_t`.
pub peek : ℕ → Buffer → ℕ × List ℕ
unfolding readable_bytes
peek n b =
    let readable = min (u32 n) (readable_bytes b) in
    (readable, take readable (drop b.read_index b.storage))

pub have_read : ℕ → Buffer → Buffer
unfolding readable_bytes
have_read n b =
    let read = u32 (b.read_index + min (u32 n) (readable_bytes b)) in
    if b.write_index == read
    then record b { read_index = 0; write_index = 0 }
    else record b { read_index = read }

pub read : ℕ → Buffer → List ℕ × Buffer
unfolding peek have_read
read n b = let (readable, result) = peek n b in (result, have_read readable b)

-- `write_index_ - read_index_` wraps in `uint32_t` before it becomes a `size_t`.
unfoldable pub read_all : Buffer → List ℕ × Buffer
unfolding read
read_all b = read (u32 (b.write_index + 2 ^ 32 - b.read_index)) b

pub is_empty : Buffer → Bool
is_empty b = b.read_index == b.write_index

unfoldable pub write : List ℕ → Buffer → Buffer
write content b = record b {
  write_index = u32 (b.write_index + length content);
  storage = take b.write_index b.storage ++ (content ++ drop b.write_index b.storage);
}

unfoldable pub write_u32 : ℕ → Buffer → Buffer
unfolding write
write_u32 number b = write (u32_bytes number) b

-- The four bytes that `memcpy` takes from a string: a string ends in a zero byte behind its
-- contents, and what follows that is not the string's (`none`).
abbrev pub string_u32 : List ℕ → Option ℕ
string_u32 s = u32_load (s ++ List.◌∷◌ 0 [])

pub read_u32 : Buffer → Option ℕ × Buffer
unfolding read
read_u32 b = let (buf, b') = read 4 b in (string_u32 buf, b')

pub peek_u32 : Buffer → Option ℕ
unfolding peek
peek_u32 b = string_u32 (peek 4 b).1
