-- ===== src/Utils/Occurrences.antt =====
-- The places at which a pattern stands in a text, found by comparison at each.
use ladder.Prelude.{
  ℕ, zero, suc, ◌+◌, ◌-◌, ◌<◌, ◌≤◌, ◌≡◌, ◌≢◌, refl, Bool, true, false, ◌&&◌, List, [], ◌∷◌, length,
  drop, ◌==◌, if◌then◌else◌, arith,
}
use ladder.Utils.{char_at}

abbrev pub starts_with : List ℕ → List ℕ → Bool
starts_with [] str = true
starts_with (c ∷ pat) [] = false
starts_with (c ∷ pat) (d ∷ str) = (c == d) && starts_with pat str

-- The places among `count` many, from `i` on, at which the pattern stands in the text.
abbrev pub places_of : List ℕ → List ℕ → ℕ → ℕ → List ℕ
places_of str pat i zero = []
places_of str pat i (suc count) =
    if starts_with pat (drop i str)
    then i ∷ places_of str pat (suc i) count
    else places_of str pat (suc i) count

-- Every place.
abbrev pub occurrences : List ℕ → List ℕ → List ℕ
occurrences str pat = places_of str pat 0 (length str + 1 - length pat)

-- No character of the pattern is zero.
abbrev pub NoZero : List ℕ → Type 0
NoZero pat = (k : ℕ) → k < length pat → char_at pat k ≢ 0

pub starts_with-Matches :
    (pat str : List ℕ)
    → starts_with pat str ≡ true
    → (x : ℕ) → x < length pat
    → char_at pat x ≡ char_at str x
starts_with-Matches [] str h x lt = absurd (omega arith)
starts_with-Matches (c ∷ pat) [] h x lt = cc
starts_with-Matches (c ∷ pat) (d ∷ str) h zero lt = ground arith
starts_with-Matches (c ∷ pat) (d ∷ str) h (suc x) lt =
    starts_with-Matches pat str (ground arith) x (omega arith)

pub Matches-starts_with :
    (pat str : List ℕ)
    → length pat ≤ length str
    → ((x : ℕ) → x < length pat → char_at pat x ≡ char_at str x)
    → starts_with pat str ≡ true
Matches-starts_with [] str le h = refl
Matches-starts_with (c ∷ pat) [] le h = absurd (omega arith)
Matches-starts_with (c ∷ pat) (d ∷ str) le h =
    ground (arith, h 0, Matches-starts_with pat str (omega arith) (λ x lt. h (suc x) (omega arith)))
