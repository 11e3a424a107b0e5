-- ===== src/ArgumentParser.antt =====
-- ladder/src/ArgumentParser.cpp: options of a command line. What is printed is left out.
pub mod First
mod Tests
use ladder.Prelude.{
  ℕ, Bool, true, false, not, ◌&&◌, Option, none, some, List, [], ◌∷◌, ◌++◌, length, take, drop, ltb,
  if◌then◌else◌,
}
use ladder.Prelude.Text.{codes, same_text, find_text}

-- Options with a value, those without, and for each that there is whether it is required.
pub record ArgumentParser : Type 0 where
  pub options : List (List ℕ × List ℕ)
  pub enabled : List (List ℕ × Bool)
  pub fields_options : List (List ℕ × Bool)
  pub fields_enabled : List (List ℕ × Bool)

pub is_option : List ℕ → Bool
is_option str = ltb 2 (length str) && same_text (take 2 str) (codes "--")

abbrev pub has {ℓ} : {V : Type ℓ} → List ℕ → List (List ℕ × V) → Bool
has key m = elim (find_text key m) [ none ↦ false | some v ↦ true ]

-- `std::map::insert`, which keeps what is there.
abbrev pub insert {ℓ} : {V : Type ℓ} → List ℕ → V → List (List ℕ × V) → List (List ℕ × V)
insert key v m = if has key m then m else m ++ (key, v) ∷ []

-- An option that is followed by its value.
pub add_option : List ℕ → List ℕ → ArgumentParser → ArgumentParser
add_option key value p = record p { options = insert key value p.options }

pub enable : List ℕ → ArgumentParser → ArgumentParser
enable key p = record p { enabled = insert key true p.enabled }

-- The loop of `Init`: whether it goes through, and the parser behind it.
pub parse_args : List (List ℕ) → ArgumentParser → Bool × ArgumentParser
unfolding add_option enable
parse_args [] p = (true, p)
parse_args (arg ∷ []) p = elim (is_option arg) [
  | false ↦ (true, p)
  | true ↦
      if has (drop 2 arg) p.fields_options
      then (false, p)
      else if has (drop 2 arg) p.fields_enabled
      then (true, enable (drop 2 arg) p)
      else (false, p)
]
parse_args (arg ∷ next ∷ args) p = elim (is_option arg) [
  | false ↦ parse_args (next ∷ args) p
  | true ↦ elim (has (drop 2 arg) p.fields_options) [
    | true ↦ elim (is_option next) [
      | true ↦ (false, p)
      | false ↦ parse_args args (add_option (drop 2 arg) next p)
    ]
    | false ↦ elim (has (drop 2 arg) p.fields_enabled) [
      | true ↦ parse_args (next ∷ args) (enable (drop 2 arg) p)
      | false ↦ (false, p)
    ]
  ]
]

pub all_given {ℓ} : {V : Type ℓ} → List (List ℕ × Bool) → List (List ℕ × V) → Bool
all_given [] given = true
all_given ((key, required) ∷ fields) given =
    not (required && not (has key given)) && all_given fields given

pub check_required : ArgumentParser → Bool
unfolding all_given
check_required p = all_given p.fields_options p.options && all_given p.fields_enabled p.enabled

-- `Init`, behind `InitOptions`.
pub init : List (List ℕ) → ArgumentParser → Bool × ArgumentParser
unfolding parse_args check_required
init args p = let (ok, q) = parse_args args p in (ok && check_required q, q)

pub get_string_arg : List ℕ → ArgumentParser → Option (List ℕ)
get_string_arg key p = find_text key p.options

pub get_bool_arg : List ℕ → ArgumentParser → Bool
get_bool_arg key p = elim (find_text key p.enabled) [ none ↦ false | some b ↦ b ]
