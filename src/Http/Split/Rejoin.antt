-- ===== src/Http/Split/Rejoin.antt =====
-- Splitting and joining.
use Prim.Native.Nat.{zero}
use ladder.Prelude.{
  ◌||◌, ◌==◌, ◌≢◌, Bool, suc, length-drop, drop-append_left, inl, inr, Bool-cases, false,
  take-append-drop, drop-drop, append_assoc, drop-append_right, take-eq_self, take-append,
  length-append, ℕ, ◌+◌, ◌-◌, ◌<◌, ◌≤◌, ◌≡◌, refl, sym, ap, ◌∙◌, true, List, [], ◌∷◌, ◌++◌, length,
  drop, take, arith,
}
use ladder.Utils.Search.{find_substr-occurrences}
use ladder.Utils.Occurrences.{places_of, NoZero, starts_with, occurrences}
use native.Mathlib.Decide.{dec_le}
use ladder.Utils.Places.{
  starts_with-flip, starts_with-drop, Unplaced, Unbordered, shifted, occurrences-placed,
  occurrences-none,
}
use ladder.Http.Split.{part, split_at, split_string}

abbrev pub join : List ℕ → List (List ℕ) → List ℕ
join breaking [] = []
join breaking (x ∷ []) = x
join breaking (x ∷ y ∷ rest) = x ++ (breaking ++ join breaking (y ∷ rest))

-- A text whose places cannot overlap.
pub record IsSeparator (breaking : List ℕ) : Type 0 where
  pub no_zero : NoZero breaking
  pub not_empty : 0 < length breaking
  pub unbordered : Unbordered breaking

abbrev pub AllFree : List ℕ → List (List ℕ) → Type 0
AllFree breaking [] = Unit
AllFree breaking (x ∷ xs) = Unplaced x breaking × AllFree breaking xs

part-shift :
    (xs ys : List ℕ) (i b k : ℕ) → k ≡ length xs → part (xs ++ ys) (k + i) (k + b) ≡ part ys i b
part-shift xs ys i b k h = ground (arith, drop-append_right xs ys k i h)

split_at-shift :
    (xs ys : List ℕ) (size k : ℕ) (ps : List ℕ) (i : ℕ)
    → k ≡ length xs
    → split_at (xs ++ ys) size (shifted k ps) (k + i) ≡ split_at ys size ps i
unfolding split_at
split_at-shift xs ys size k [] i h =
    ap (λ (t : ℕ). part (xs ++ ys) (k + i) t ∷ []) (omega (arith, length-append xs ys))
    ∙ ap (λ (p : List ℕ). p ∷ []) (part-shift xs ys i (length ys) k h)
split_at-shift xs ys size k (p ∷ ps) i h = rw (part-shift xs ys i p k h) (
    ap (◌∷◌ (part ys i p)) (
      ap (split_at (xs ++ ys) size (shifted k ps)) (omega arith)
      ∙ split_at-shift xs ys size k ps (p + size) h))

part-first : (xs ys : List ℕ) → part (xs ++ ys) 0 (length xs) ≡ xs
part-first xs ys = ground (arith, take-append xs ys (length xs) refl)

module _ (breaking : List ℕ) (separator : IsSeparator breaking) where
  pub split_string-cons :
      (xs ys : List ℕ)
      → Unplaced xs breaking
      → split_string (xs ++ (breaking ++ ys)) breaking ≡ xs ∷ split_string ys breaking
  unfolding split_string split_at
  split_string-cons xs ys free =
      ap (λ (ps : List ℕ). split_at (xs ++ (breaking ++ ys)) (length breaking) ps 0)
        (find_substr-occurrences (xs ++ (breaking ++ ys)) breaking (separator.no_zero)
          ∙ occurrences-placed xs breaking ys free (separator.unbordered) (separator.not_empty))
      ∙ rw (part-first xs (breaking ++ ys)) (
          ap (◌∷◌ xs) (
            ap
              (λ (str : List ℕ).
                split_at str (length breaking)
                  (shifted (length xs + length breaking) (occurrences ys breaking))
                  (length xs + length breaking))
              (sym (append_assoc xs breaking ys))
            ∙ ap
                (split_at ((xs ++ breaking) ++ ys) (length breaking)
                  (shifted (length xs + length breaking) (occurrences ys breaking)))
                (omega arith)
            ∙ split_at-shift (xs ++ breaking) ys (length breaking) (length xs + length breaking)
                (occurrences ys breaking) 0 (omega (arith, length-append xs breaking))
            ∙ ap (λ (ps : List ℕ). split_at ys (length breaking) ps 0)
                (sym (find_substr-occurrences ys breaking (separator.no_zero)))))

  pub split_string-last : (xs : List ℕ) → Unplaced xs breaking → split_string xs breaking ≡ xs ∷ []
  unfolding split_string split_at
  split_string-last xs free =
      ap (λ (ps : List ℕ). split_at xs (length breaking) ps 0)
        (find_substr-occurrences xs breaking (separator.no_zero)
          ∙ occurrences-none xs breaking free (separator.not_empty))
      ∙ ground (arith, take-eq_self (length xs) xs (omega arith))

  -- Parts in which the separator does not stand, joined by it, are split into the same parts.
  pub split_string-join :
      (x : List ℕ) (xs : List (List ℕ))
      → AllFree breaking (x ∷ xs)
      → split_string (join breaking (x ∷ xs)) breaking ≡ x ∷ xs
  split_string-join x [] (free, rest) = split_string-last x free
  split_string-join x (y ∷ xs) (free, rest) =
      split_string-cons x (join breaking (y ∷ xs)) free ∙ ap (◌∷◌ x) (split_string-join y xs rest)

  join-cons :
      (str p : List ℕ) (ps : List ℕ) (start : ℕ)
      → join breaking (p ∷ split_at str (length breaking) ps start)
        ≡ p ++ (breaking ++ join breaking (split_at str (length breaking) ps start))
  unfolding split_at
  join-cons str p [] start = refl
  join-cons str p (b ∷ ps) start = refl

  -- Where the separator stands at `i`, the text from `start` on is a part, the separator and the rest.
  cut :
      (str : List ℕ) (start i : ℕ)
      → start ≤ i
      → starts_with breaking (drop i str) ≡ true
      → part str start i ++ (breaking ++ drop (i + length breaking) str) ≡ drop start str
  cut str start i le h =
      ap (λ (p : List ℕ). p ++ (breaking ++ drop (i + length breaking) str)) (ground arith)
      ∙ ap (take (i - start) (drop start str) ++◌) (
          sym (
            starts_with-drop breaking (drop i str) h
            ∙ ap (breaking ++◌) (drop-drop (length breaking) i str)))
      ∙ ap (take (i - start) (drop start str) ++◌) (
          ap (λ (k : ℕ). drop k str) (let e : i ≡ start + (i - start) = omega arith in e)
          ∙ sym (drop-drop (i - start) start str))
      ∙ take-append-drop (i - start) (drop start str)

  -- Two places at which the separator stands are as far apart as it is long.
  apart :
      (str : List ℕ) (i x : ℕ)
      → starts_with breaking (drop i str) ≡ true
      → i < x
      → x < i + length breaking
      → starts_with breaking (drop x str) ≡ false
  apart str i x h lt near = elim (Bool-cases (starts_with breaking (drop x str))) [
    | inr f ↦ f
    | inl t ↦
        let e : starts_with breaking (drop (x - i) breaking ++ drop (length breaking) (drop i str))
            ≡ true =
          sym (
            ap (starts_with breaking) (
              ap (λ (k : ℕ). drop k str) (let e : x ≡ i + (x - i) = omega arith in e)
              ∙ sym (drop-drop (x - i) i str)
              ∙ ap (drop (x - i)) (starts_with-drop breaking (drop i str) h)
              ∙ drop-append_left (x - i) breaking (drop (length breaking) (drop i str))
                  (omega arith)))
          ∙ t in
        let f : starts_with (drop (x - i) breaking) breaking ≡ true =
          starts_with-flip breaking (drop (x - i) breaking) (drop (length breaking) (drop i str))
            (omega (arith, length-drop (x - i) breaking)) e in
        let g : starts_with (drop (x - i) breaking) breaking ≡ false =
          separator.unbordered (x - i) (omega arith) (omega arith) in
        absurd (cc)
  ]

  join-split_at :
      (str : List ℕ) (n i start : ℕ)
      → ((x : ℕ) → i ≤ x → x < start → starts_with breaking (drop x str) ≡ false)
      → join breaking (split_at str (length breaking) (places_of str breaking i n) start)
        ≡ drop start str
  unfolding split_at
  join-split_at str zero i start clear = whole_rest
    where
      whole_rest : part str start (length str) ≡ drop start str
      whole_rest = elim (dec_le start (length str)) [
        | yes le ↦ ground (
          arith,
          take-eq_self (length str - start) (drop start str) (omega (arith, length-drop start str)),
        )
        | no le ↦ ground arith
      ]
  join-split_at str (suc n) i start clear = elim (Bool-cases (starts_with breaking (drop i str))) [
    | inr f ↦ rw f (join-split_at str n (suc i) start (λ x le lt. clear x (omega arith) lt))
    | inl t ↦
        let le : start ≤ i = elim (dec_le start i) [
          | yes le ↦ le
          | no more ↦
              let f : starts_with breaking (drop i str) ≡ false =
                clear i (omega arith) (omega arith) in
              absurd (cc)
        ] in
        rw t (
          join-cons str (part str start i) (places_of str breaking (suc i) n) (i + length breaking)
          ∙ ap (λ (r : List ℕ). part str start i ++ (breaking ++ r))
              (join-split_at str n (suc i) (i + length breaking)
                (λ x after near. apart str i x t (omega arith) near))
          ∙ cut str start i le t)
  ]

  -- The parts of a text, joined again by the separator, are the text.
  pub join-split_string : (str : List ℕ) → join breaking (split_string str breaking) ≡ str
  unfolding split_string
  join-split_string str =
      ap (λ (ps : List ℕ). join breaking (split_at str (length breaking) ps 0))
        (find_substr-occurrences str breaking (separator.no_zero))
      ∙ join-split_at str (length str + 1 - length breaking) 0 0 (λ x le lt. absurd (omega arith))

abbrev pub has_char : ℕ → List ℕ → Bool
has_char c [] = false
has_char c (d ∷ xs) = (c == d) || has_char c xs

pub has_char-Unplaced : (c : ℕ) (xs : List ℕ) → has_char c xs ≡ false → Unplaced xs (c ∷ [])
has_char-Unplaced c [] h i lt = absurd (omega arith)
has_char-Unplaced c (d ∷ xs) h zero lt = ground arith
has_char-Unplaced c (d ∷ xs) h (suc i) lt = has_char-Unplaced c xs (ground arith) i (omega arith)

pub char-IsSeparator : (c : ℕ) → c ≢ 0 → IsSeparator (c ∷ [])
char-IsSeparator c h = record {
  no_zero = zero_free;
  not_empty = omega arith;
  unbordered = λ k pos lt. absurd (omega arith);
}
  where
    zero_free : NoZero (c ∷ [])
    zero_free zero lt e = h e
    zero_free (suc k) lt e = absurd (omega arith)
