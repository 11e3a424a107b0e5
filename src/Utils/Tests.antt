-- ===== src/Utils/Tests.antt =====
-- Overlapping places, in a text and in a pattern that repeats itself.
use ladder.Prelude.{ℕ, zero, suc, ◌≡◌, List, [], ◌∷◌, arith}
use ladder.Utils.{find_substr}
use ladder.Utils.Search.{find_substr-occurrences}
use ladder.Utils.Occurrences.{NoZero}

abbrev pattern : List ℕ
pattern = 1 ∷ 2 ∷ 1 ∷ []

abbrev text : List ℕ
text = 1 ∷ 2 ∷ 1 ∷ 2 ∷ 1 ∷ 1 ∷ 2 ∷ 1 ∷ []

pattern-NoZero : NoZero pattern
pattern-NoZero zero h e = omega arith
pattern-NoZero (suc zero) h e = omega arith
pattern-NoZero (suc (suc zero)) h e = omega arith
pattern-NoZero (suc (suc (suc k))) h e = omega arith

find_substr-occurrences_example : find_substr text pattern ≡ 0 ∷ 2 ∷ 5 ∷ []
find_substr-occurrences_example = find_substr-occurrences text pattern pattern-NoZero

-- A pattern with a zero: its second place is missed.
abbrev missed : List ℕ
missed = find_substr (0 ∷ 0 ∷ []) (0 ∷ [])
