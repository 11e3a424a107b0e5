-- ===== src/Http/Split.antt =====
-- `SplitString` of examples/http/HttpCodec.cpp.
pub mod Rejoin
use ladder.Prelude.{ℕ, ◌+◌, ◌-◌, List, [], ◌∷◌, length, take, drop, ltb, if◌then◌else◌}
use ladder.Utils.{find_substr}

-- `str.substr(from, to - from)`, which takes all the rest where the difference is negative.
abbrev pub part : List ℕ → ℕ → ℕ → List ℕ
part str start end = if ltb end start then drop start str else take (end - start) (drop start str)

pub split_at : List ℕ → ℕ → List ℕ → ℕ → List (List ℕ)
split_at str size [] start = part str start (length str) ∷ []
split_at str size (b ∷ breakpoints) start =
    part str start b ∷ split_at str size breakpoints (b + size)

unfoldable pub split_string : List ℕ → List ℕ → List (List ℕ)
unfolding split_at
split_string str breaking = split_at str (length breaking) (find_substr str breaking) 0
