-- ===== src/Prelude/Text.antt =====
-- Texts as lists of character codes, and the parts of the C++ library that the code uses on them.
use Prim.Native.Nat.{ℕ, zero, suc, ◌+◌, ◌-◌, ◌*◌, ◌/◌, ◌%◌}
use Prim.Native.Char.{code}
use Prim.Native.String.{String}
use mathlib.Core.Bool.{Bool, true, false, ◌&&◌, ◌||◌}
use mathlib.Core.List.{List, [], ◌∷◌}
use mathlib.Core.Option.{Option, none, some}
use ladder.Prelude.Tests.{ltb, leb, ◌==◌, if◌then◌else◌}
use ladder.Prelude.Lists.{length, take, drop}

abbrev pub codes : String → List ℕ
codes String.[] = []
codes (String.◌∷◌ c s) = code c ∷ codes s

-- `int`, where it may be negative.
pub data ℤ : Type 0 where
  pos negsuc : ℕ → ℤ

abbrev pub same_text : List ℕ → List ℕ → Bool
same_text [] [] = true
same_text (c ∷ s) (d ∷ t) = (c == d) && same_text s t
same_text _ _ = false

-- `std::string::substr`, which throws behind the end.
abbrev pub substr : List ℕ → ℕ → ℕ → Option (List ℕ)
substr s start n = if ltb (length s) start then none else some (take n (drop start s))

-- A map from texts.
abbrev pub find_text {ℓ} : {V : Type ℓ} → List ℕ → List (List ℕ × V) → Option V
find_text k [] = none
find_text k ((j, v) ∷ m) = if same_text j k then some v else find_text k m

-- A map from numbers, in ascending order.
abbrev pub find_number {ℓ} : {V : Type ℓ} → ℕ → List (ℕ × V) → Option V
find_number k [] = none
find_number k ((j, v) ∷ m) = if j == k then some v else find_number k m

-- `m[k] = v`.
abbrev pub assign_number {ℓ} : {V : Type ℓ} → ℕ → V → List (ℕ × V) → List (ℕ × V)
assign_number k v [] = (k, v) ∷ []
assign_number k v ((j, w) ∷ m) =
    if j == k
    then (k, v) ∷ m
    else if ltb k j
    then (k, v) ∷ (j, w) ∷ m
    else (j, w) ∷ assign_number k v m

-- `std::to_string`.
pub digits : ℕ → ℕ → List ℕ → List ℕ
digits zero n out = out
digits (suc fuel) n out = elim (n / 10 == 0) [
  | true ↦ (b'0' + n % 10) ∷ out
  | false ↦ digits fuel (n / 10) ((b'0' + n % 10) ∷ out)
]

pub to_string : ℕ → List ℕ
unfolding digits
to_string n = digits (suc n) n []

is_digit : ℕ → Bool
is_digit c = leb b'0' c && leb c b'9'

is_space : ℕ → Bool
is_space c = (c == 32) || (leb 9 c && leb c 13)

leading_number : ℕ → List ℕ → ℕ
unfolding is_digit
leading_number n [] = n
leading_number n (c ∷ s) = elim (is_digit c) [
  | true ↦ leading_number (n * 10 + (c - b'0')) s
  | false ↦ n
]

negated : ℕ → ℤ
negated zero = pos 0
negated (suc n) = negsuc n

signed_number : List ℕ → ℤ
unfolding leading_number negated
signed_number [] = pos 0
signed_number (c ∷ s) =
    if c == b'-'
    then negated (leading_number 0 s)
    else if c == b'+'
    then pos (leading_number 0 s)
    else pos (leading_number 0 (c ∷ s))

-- `std::atoi`, for numbers that fit an `int`.
unfoldable pub atoi : List ℕ → ℤ
unfolding is_space signed_number
atoi [] = pos 0
atoi (c ∷ s) = elim (is_space c) [ true ↦ atoi s | false ↦ signed_number (c ∷ s) ]

abbrev pub or_empty : Option (List ℕ) → List ℕ
or_empty none = []
or_empty (some s) = s
