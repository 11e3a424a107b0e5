-- ===== src/Buffer/Drain.antt =====
-- When a buffer is drained.
use ladder.Prelude.{◌≡◌, refl, true, List, [], ◌∷◌, length, min, arith}
use ladder.Buffer.{Buffer, empty_buffer, is_empty, readable_bytes, have_read, peek}
use ladder.Buffer.Io.{
  WriteReply, wrote, write_failed, End, returned, write_buffer_to_fd, write_buffer_size,
}

-- The loop that writes returns only from an empty buffer.
abbrev pub Emptied : End → Buffer → Type 0
Emptied how b = how ≡ returned → readable_bytes b ≡ 0

pub write_buffer_to_fd-Emptied :
    (rs : List WriteReply) (b : Buffer)
    → Emptied (write_buffer_to_fd rs b).0 (write_buffer_to_fd rs b).2
unfolding write_buffer_to_fd
write_buffer_to_fd-Emptied [] b = ground arith
write_buffer_to_fd-Emptied (write_failed e ∷ rs) b = ground arith
write_buffer_to_fd-Emptied (wrote n ∷ rs) b =
    let ret = min n (length (peek write_buffer_size b).1) in
    let ih = write_buffer_to_fd-Emptied rs (have_read ret b) in ground arith

pub is_empty-readable_bytes : (b : Buffer) → is_empty b ≡ true → readable_bytes b ≡ 0
unfolding is_empty readable_bytes
is_empty-readable_bytes b h = ground arith

pub readable_bytes-empty_buffer : readable_bytes empty_buffer ≡ 0
unfolding readable_bytes
readable_bytes-empty_buffer = refl
