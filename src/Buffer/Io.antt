-- ===== src/Buffer/Io.antt =====
-- ladder/src/Buffer.cpp: the loops that move bytes between a buffer and a socket.
-- The kernel's answers to `read` and `write` are a list: what each call in turn returns.
use ladder.Prelude.{
  length-take, ℕ, ◌+◌, ◌≤◌, ◌<◌, ◌≡◌, refl, sym, ap, ◌∙◌, ◌^◌, min, false, List, [], ◌∷◌, ◌++◌,
  take, length, ltb, if◌then◌else◌, append_assoc, append-nil, Bool-cases, inl, inr, length-append,
  take-append-drop, take-take, length-eq-zero, Bool-cases, inl, inr, arith,
}
use mathlib.Core.Path.{ap₂}
use ladder.Prelude.Errno.{Errno, eagain, econnreset, epipe}
use ladder.Buffer.{Buffer, readable_bytes, peek, have_read, write}
use ladder.Buffer.Inv.{
  write_index-have_read_le, IsValid, contents, readable_bytes-eq-length, write-IsValid,
  write_index-write, have_read-IsValid,
}
use ladder.Buffer.Refine.{contents-write, contents-have_read, peek_lem}

-- What `::read` returns: bytes (none of them at the end of the stream), or -1 and `errno`.
pub data ReadReply : Type 0 where
  got : List ℕ → ReadReply
  read_failed : Errno → ReadReply

-- What `::write` returns: a count, or -1 and `errno`. The count is at most that of the bytes offered:
-- `wrote n` stands for all of them where there are fewer than `n`.
pub data WriteReply : Type 0 where
  wrote : ℕ → WriteReply
  write_failed : Errno → WriteReply

-- How such a loop ends. `exited` is `EXIT`; `waiting` is no end: the replies given are used up.
pub data End : Type 0 where
  returned : End
  failed : Errno → End
  exited : Errno → End
  waiting : End

abbrev pub read_buffer_size : ℕ
read_buffer_size = 1024

abbrev pub write_buffer_size : ℕ
write_buffer_size = 1024

abbrev read_error : Errno → End
read_error eagain = failed eagain
read_error econnreset = failed econnreset
read_error e = exited e

abbrev write_error : Errno → End
write_error eagain = failed eagain
write_error econnreset = failed econnreset
write_error epipe = failed epipe
write_error e = exited e

-- `returned` stands for `ret == 0`, `failed` for `ret == -1`. A read of no bytes is written too.
unfoldable pub read_buffer_from_fd : List ReadReply → Buffer → End × Buffer
read_buffer_from_fd [] b = (waiting, b)
read_buffer_from_fd (read_failed e ∷ rs) b = (read_error e, b)
read_buffer_from_fd (got [] ∷ rs) b = (returned, write [] b)
read_buffer_from_fd (got (c ∷ cs) ∷ rs) b = read_buffer_from_fd rs (write (c ∷ cs) b)

-- The list in the result is what the kernel accepted, in order.
unfoldable pub write_buffer_to_fd : List WriteReply → Buffer → End × List ℕ × Buffer
write_buffer_to_fd [] b = if ltb 0 (readable_bytes b) then (waiting, [], b) else (returned, [], b)
write_buffer_to_fd (write_failed e ∷ rs) b =
    if ltb 0 (readable_bytes b) then (write_error e, [], b) else (returned, [], b)
write_buffer_to_fd (wrote n ∷ rs) b =
    let shown = (peek write_buffer_size b).1 in
    let ret = min n (length shown) in
    let (how, sent, b') = write_buffer_to_fd rs (have_read ret b) in
    if ltb 0 (readable_bytes b) then (how, take ret shown ++ sent, b') else (returned, [], b)

-- The bytes that a run of replies brings, up to the first end or error.
abbrev pub received : List ReadReply → List ℕ
received [] = []
received (read_failed e ∷ rs) = []
received (got [] ∷ rs) = []
received (got (c ∷ cs) ∷ rs) = (c ∷ cs) ++ received rs

-- `ReadBufferFromFd` appends to the buffer exactly the bytes received before the first end of
-- stream or error, in order, whatever way the loop ends, and keeps the invariant.
pub read_buffer_from_fd_lem :
    (rs : List ReadReply) {b : Buffer}
    → IsValid b
    → b.write_index + length (received rs) < 2 ^ 32
    → (contents (read_buffer_from_fd rs b).1 ≡ contents b ++ received rs)
      × IsValid (read_buffer_from_fd rs b).1
unfolding read_buffer_from_fd
read_buffer_from_fd_lem [] {b} v h = (sym (append-nil (contents b)), v)
read_buffer_from_fd_lem (read_failed e ∷ rs) {b} v h = (sym (append-nil (contents b)), v)
read_buffer_from_fd_lem (got [] ∷ rs) {b} v h =
    (contents-write [] v (omega arith), write-IsValid [] v (omega arith))
read_buffer_from_fd_lem (got (c ∷ cs) ∷ rs) {b} v h =
    let enough : b.write_index + length (c ∷ cs) < 2 ^ 32 =
      omega (arith, length-append (c ∷ cs) (received rs)) in
    let ih =
      read_buffer_from_fd_lem rs (write-IsValid (c ∷ cs) v enough) (
        omega (arith, write_index-write (c ∷ cs) b enough, length-append (c ∷ cs) (received rs))) in
    (
      ih.0
          ∙ ap (λ (xs : List ℕ). xs ++ received rs) (contents-write (c ∷ cs) v enough)
          ∙ append_assoc (contents b) (c ∷ cs) (received rs),
      ih.1,
    )

pub write_index-read_buffer_from_fd_le :
    (rs : List ReadReply) (b : Buffer)
    → b.write_index + length (received rs) < 2 ^ 32
    → (read_buffer_from_fd rs b).1.write_index ≤ b.write_index + length (received rs)
unfolding read_buffer_from_fd
write_index-read_buffer_from_fd_le [] b h = omega arith
write_index-read_buffer_from_fd_le (read_failed e ∷ rs) b h = omega arith
write_index-read_buffer_from_fd_le (got [] ∷ rs) b h =
    omega (arith, write_index-write [] b (omega arith))
write_index-read_buffer_from_fd_le (got (c ∷ cs) ∷ rs) b h =
    let more = length-append (c ∷ cs) (received rs) in
    let w = write_index-write (c ∷ cs) b (omega (arith, more)) in
    omega (
      arith,
      more,
      w,
      write_index-read_buffer_from_fd_le rs (write (c ∷ cs) b) (omega (arith, more, w)),
    )

-- What the call with these replies keeps: nothing is lost, repeated or reordered.
abbrev pub Keeps : Buffer → End × List ℕ × Buffer → Type 0
Keeps b r = (r.1 ++ contents r.2 ≡ contents b) × IsValid r.2 × (r.0 ≡ returned → contents r.2 ≡ [])

not_readable : {b : Buffer} → IsValid b → ltb 0 (readable_bytes b) ≡ false → contents b ≡ []
not_readable {b} v e = length-eq-zero (contents b) (ground (arith, readable_bytes-eq-length v))

accepted :
    (n : ℕ) {b : Buffer}
    → IsValid b
    → let shown = (peek write_buffer_size b).1 in
      let ret = min n (length shown) in take ret shown ++ contents (have_read ret b) ≡ contents b
accepted n {b} v =
    let q = contents b in
    ap
      (λ (p : ℕ × List ℕ).
        take (min n (length p.1)) p.1 ++ contents (have_read (min n (length p.1)) b))
      (peek_lem 1024 v (omega arith))
    ∙ ap₂ ◌++◌ (take-take (min n (length (take 1024 q))) 1024 q (omega (arith, length-take 1024 q)))
        (contents-have_read (min n (length (take 1024 q))) v (omega (arith, length-take 1024 q)))
    ∙ take-append-drop (min n (length (take 1024 q))) q

write_error-ne : (e : Errno) → write_error e ≡ returned → ⊥
write_error-ne e h = ground arith

stop_Keeps :
    {b : Buffer} (how : End)
    → IsValid b
    → (how ≡ returned → ⊥)
    → Keeps b (if ltb 0 (readable_bytes b) then (how, [], b) else (returned, [], b))
stop_Keeps {b} how v ne = elim (Bool-cases (ltb 0 (readable_bytes b))) [
  | inl more ↦ rw more (refl, v, λ h. absurd (ne h))
  | inr done ↦ rw done (refl, v, λ h. not_readable v done)
]

-- `WriteBufferToFd` loses, repeats and reorders nothing: what the kernel accepted, followed by what
-- the buffer still holds, is what the buffer held before. The invariant is kept, and the call
-- returns 0 only when nothing is left.
pub write_buffer_to_fd_lem :
    (rs : List WriteReply) {b : Buffer} → IsValid b → Keeps b (write_buffer_to_fd rs b)
unfolding write_buffer_to_fd
write_buffer_to_fd_lem [] v = stop_Keeps waiting v (λ h. cc)
write_buffer_to_fd_lem (write_failed e ∷ rs) v = stop_Keeps (write_error e) v (write_error-ne e)
write_buffer_to_fd_lem (wrote n ∷ rs) {b} v =
    let shown = (peek write_buffer_size b).1 in
    let ret = min n (length shown) in
    let rest = write_buffer_to_fd rs (have_read ret b) in
    let ih = write_buffer_to_fd_lem rs (have_read-IsValid ret v) in
    elim (Bool-cases (ltb 0 (readable_bytes b))) [
      | inl more ↦ rw more (
        append_assoc (take ret shown) rest.1 (contents rest.2)
            ∙ ap (◌++◌ (take ret shown)) ih.0
            ∙ accepted n v,
        ih.1,
        ih.2,
      )
      | inr done ↦ rw done (refl, v, λ h. not_readable v done)
    ]

-- The write index does not grow.
pub write_index-write_buffer_to_fd_le :
    (rs : List WriteReply) (b : Buffer) → (write_buffer_to_fd rs b).2.write_index ≤ b.write_index
unfolding write_buffer_to_fd
write_index-write_buffer_to_fd_le [] b = ground arith
write_index-write_buffer_to_fd_le (write_failed e ∷ rs) b = ground arith
write_index-write_buffer_to_fd_le (wrote n ∷ rs) b =
    let ret = min n (length (peek write_buffer_size b).1) in
    ground (
      arith,
      write_index-write_buffer_to_fd_le rs (have_read ret b),
      write_index-have_read_le ret b,
    )

-- Every call of `::write` takes something.
abbrev pub Progresses : List WriteReply → Type 0
Progresses [] = Unit
Progresses (write_failed e ∷ rs) = ⊥
Progresses (wrote n ∷ rs) = (0 < n) × Progresses rs
