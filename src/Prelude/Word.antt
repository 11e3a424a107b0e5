-- ===== src/Prelude/Word.antt =====
-- Machine words. A `uint32_t` is a number below 2 ^ 32; the host stores its lowest byte first.
use Prim.Native.Nat.{ℕ, ◌+◌, ◌*◌, ◌/◌, ◌%◌, ◌^◌, ◌<◌}
use mathlib.Core.Path.{◌≡◌}
use mathlib.Core.List.{List, [], ◌∷◌, ◌++◌}
use mathlib.Core.Option.{Option, none, some}
use native.Mathlib.Omega.{arith}

abbrev pub u32 : ℕ → ℕ
u32 n = n % 2 ^ 32

-- `memcpy(dst, &n, 4)`.
abbrev pub u32_bytes : ℕ → List ℕ
u32_bytes n = (n % 256) ∷ (n / 256 % 256) ∷ (n / 65536 % 256) ∷ (n / 16777216 % 256) ∷ []

-- `memcpy(&n, src, 4)` from a block that holds at least four bytes.
abbrev pub u32_load : List ℕ → Option ℕ
u32_load (a ∷ b ∷ c ∷ d ∷ rest) = some (a + b * 256 + c * 65536 + d * 16777216)
u32_load _ = none

-- `htonl` and `ntohl` reverse the four bytes.
abbrev pub swap32 : ℕ → ℕ
swap32 n = n / 16777216 % 256 + n / 65536 % 256 * 256 + n / 256 % 256 * 65536 + n % 256 * 16777216

pub swap32-swap32 : (n : ℕ) → n < 2 ^ 32 → swap32 (swap32 n) ≡ n
swap32-swap32 n h = omega arith

pub swap32-lt : (n : ℕ) → swap32 n < 2 ^ 32
swap32-lt n = omega arith

pub u32_load-u32_bytes :
    (n : ℕ) (rest : List ℕ) → n < 2 ^ 32 → u32_load (u32_bytes n ++ rest) ≡ some n
u32_load-u32_bytes n rest h = ground arith
