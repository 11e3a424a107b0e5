-- ===== src/Utils.antt =====
-- ladder/src/utils.cpp: the search for a pattern in a text, after Knuth, Morris and Pratt. An `int`
-- that may be -1 is an option, with `none` for -1. Texts are shorter than 2 ^ 31.
pub mod Border
pub mod Table
pub mod Occurrences
pub mod Search
pub mod Places
mod Tests
use ladder.Prelude.{
  ℕ, zero, suc, ◌+◌, ◌-◌, ◌*◌, Bool, true, false, ◌&&◌, Option, none, some, List, [], ◌∷◌, ◌++◌,
  length, get_or, ltb, leb, ◌==◌, if◌then◌else◌,
}

-- `str[i]`, which is a zero behind the last character.
abbrev pub char_at : List ℕ → ℕ → ℕ
char_at str i = get_or str i 0

abbrev pub entry : List (Option ℕ) → ℕ → Option ℕ
entry next k = get_or next k none

-- `while (tmp >= 0 && pat[tmp] == pat[i]) tmp = next[tmp]`.
pub reduce : ℕ → List ℕ → List (Option ℕ) → ℕ → Option ℕ → Option ℕ
reduce zero pat next i tmp = tmp
reduce (suc fuel) pat next i none = none
reduce (suc fuel) pat next i (some tmp) = elim (char_at pat tmp == char_at pat i) [
  | true ↦ reduce fuel pat next i (entry next tmp)
  | false ↦ some tmp
]

-- The table with its entry for `i`, the new `t` being given.
pub extended : List ℕ → List (Option ℕ) → ℕ → ℕ → List (Option ℕ)
unfolding reduce
extended pat next i t = next ++ (reduce (suc t) pat next i (some t) ∷ [])

-- The loop that fills the table.
pub build : ℕ → List ℕ → ℕ → Option ℕ → List (Option ℕ) → List (Option ℕ)
unfolding extended
build zero pat i t next = next
build (suc fuel) pat i none next = elim (ltb i (length pat)) [
  | true ↦ build fuel pat (suc i) (some 0) (extended pat next (suc i) 0)
  | false ↦ next
]
build (suc fuel) pat i (some t) next = elim (ltb i (length pat)) [
  | true ↦ elim (char_at pat t == char_at pat i) [
    | true ↦ build fuel pat (suc i) (some (suc t)) (extended pat next (suc i) (suc t))
    | false ↦ build fuel pat i (entry next t) next
  ]
  | false ↦ next
]

pub make_next : List ℕ → List (Option ℕ)
unfolding build
make_next pat = build (2 * length pat + 1) pat 0 none (none ∷ [])

-- The loop over the text; the result is what it pushes from there on.
pub search_from : ℕ → List ℕ → List ℕ → List (Option ℕ) → ℕ → Option ℕ → List ℕ
search_from zero str pat next i j = []
search_from (suc fuel) str pat next i none = elim (leb (i + length pat) (length str)) [
  | true ↦ search_from fuel str pat next i (some 0)
  | false ↦ []
]
search_from (suc fuel) str pat next i (some j) =
    elim (leb (i + length pat) (length str) && leb j (length pat)) [
      | true ↦ elim (ltb j (length pat) && (char_at str (i + j) == char_at pat j)) [
        | true ↦ search_from fuel str pat next i (some (suc j))
        | false ↦
            let rest : List ℕ = elim (entry next j) [
              | none ↦ search_from fuel str pat next (i + suc j) none
              | some k ↦ search_from fuel str pat next (i + (j - k)) (some k)
            ] in
            if j == length pat then i ∷ rest else rest
      ]
      | false ↦ []
    ]

pub find_substr : List ℕ → List ℕ → List ℕ
unfolding make_next search_from
find_substr str pat = search_from (2 * length str + 1) str pat (make_next pat) 0 (some 0)
