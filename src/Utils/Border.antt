-- ===== src/Utils/Border.antt =====
-- Borders: prefixes of a pattern that stand again at the end of a longer prefix.
use native.Mathlib.Decide.{dec_lt}
use ladder.Prelude.{ℕ, suc, ◌+◌, ◌-◌, ◌<◌, ◌≡◌, sym, ap, ◌∙◌, Option, none, some, arith}

-- The first `n` characters of one text are those of another from `i` on.
abbrev pub Matches : (ℕ → ℕ) → (ℕ → ℕ) → ℕ → ℕ → Type 0
Matches p s i n = (x : ℕ) → x < n → p x ≡ s (i + x)

abbrev pub Above : Option ℕ → ℕ → Type 0
Above none k = Unit
Above (some t) k = t < k

module _ (p : ℕ → ℕ) where
  abbrev pub Border : ℕ → ℕ → Type 0
  Border k j = (k < j) × Matches p p (j - k) k

  abbrev pub IsBorder : Option ℕ → ℕ → Type 0
  IsBorder none j = Unit
  IsBorder (some t) j = Border t j

  -- Every longer border than the entry is followed by the character at `j`.
  abbrev pub Covers : Option ℕ → ℕ → Type 0
  Covers e j = (k : ℕ) → Border k j → Above e k → p k ≡ p j

  abbrev pub IsEntry : Option ℕ → ℕ → Type 0
  IsEntry e j = IsBorder e j × Covers e j

  at_place : {a : ℕ} (b c : ℕ) → b ≡ c → a ≡ p b → a ≡ p c
  at_place b c e q = q ∙ ap p e

  -- A border of a border is a border.
  pub Border-trans : (k t i : ℕ) → Border t i → Border k t → Border k i
  Border-trans k t i (h, f) (l, g) = (
    omega arith,
    λ x lt.
        at_place (i - t + (t - k + x)) (i - k + x) (omega arith)
          (g x lt ∙ f (t - k + x) (omega arith)),
  )

  -- The shorter of two borders is a border of the longer.
  pub Border-inner : (k t i : ℕ) → Border k i → Border t i → k < t → Border k t
  Border-inner k t i (h, f) (l, g) lt = (
    lt,
    λ x b.
        f x b
        ∙ sym (
            at_place (i - t + (t - k + x)) (i - k + x) (omega arith) (g (t - k + x) (omega arith))),
  )

  pub Border-suc : (t i : ℕ) → Border t i → p t ≡ p i → Border (suc t) (suc i)
  Border-suc t i (h, f) e = (
    omega arith,
    λ x lt. elim (dec_lt x t) [
      | yes inside ↦ at_place (i - t + x) (suc i - suc t + x) (omega arith) (f x inside)
      | no last ↦
          ap p (let at_t : x ≡ t = omega arith in at_t)
          ∙ at_place i (suc i - suc t + x) (omega arith) e
    ],
  )

  pub Border-pred : (k i : ℕ) → Border (suc k) (suc i) → Border k i × (p k ≡ p i)
  Border-pred k i (h, f) = (
    (
      omega arith,
      λ x lt. at_place (suc i - suc k + x) (i - k + x) (omega arith) (f x (omega arith)),
    ),
    at_place (suc i - suc k + k) i (omega arith) (f k (omega arith)),
  )

  pub Border-zero : (i : ℕ) → Border 0 (suc i)
  Border-zero i = (omega arith, λ x lt. absurd (omega arith))
