-- ===== src/Utils/Places.antt =====
-- The places of a pattern in a text that is put together around it.
use mathlib.Core.Path.{subst}
use ladder.Prelude.{
  not, length-drop, length-append, drop-append_left, inl, append_assoc, inr, ◌-◌, sym, Bool-cases,
  drop-append, ◌==◌, ℕ, zero, suc, ◌+◌, ◌<◌, ◌≤◌, ◌≡◌, refl, ap, ◌∙◌, Bool, true, false, ◌&&◌, List,
  [], ◌∷◌, ◌++◌, length, drop, drop-append_right, arith,
}
use native.Mathlib.Decide.{dec_lt, dec_le}
use ladder.Utils.Search.{same_places}
use ladder.Utils.Occurrences.{occurrences, starts_with, places_of}

-- The pattern stands at no place of `xs` where `xs` and it are put together.
abbrev pub Unplaced : List ℕ → List ℕ → Type 0
Unplaced xs pat = (i : ℕ) → i < length xs → starts_with pat (drop i (xs ++ pat)) ≡ false

-- No proper end of the pattern is its beginning.
abbrev pub Unbordered : List ℕ → Type 0
Unbordered pat = (k : ℕ) → 0 < k → k < length pat → starts_with (drop k pat) pat ≡ false

abbrev pub shifted : ℕ → List ℕ → List ℕ
shifted k [] = []
shifted k (p ∷ ps) = (k + p) ∷ shifted k ps

starts_with-append :
    (pat xs ys : List ℕ) → length pat ≤ length xs → starts_with pat (xs ++ ys) ≡ starts_with pat xs
starts_with-append [] xs ys h = refl
starts_with-append (c ∷ pat) [] ys h = absurd (omega arith)
starts_with-append (c ∷ pat) (d ∷ xs) ys h =
    ap (λ (b : Bool). (c == d) && b) (starts_with-append pat xs ys (omega arith))

pub starts_with_self : (pat ys : List ℕ) → starts_with pat (pat ++ ys) ≡ true
starts_with_self [] ys = refl
starts_with_self (c ∷ pat) ys = ground (arith, starts_with_self pat ys)

-- A pattern that stands at a shorter text with more behind it begins with that text.
pub starts_with-flip :
    (pat xs ys : List ℕ)
    → length xs ≤ length pat
    → starts_with pat (xs ++ ys) ≡ true
    → starts_with xs pat ≡ true
starts_with-flip pat [] ys le h = refl
starts_with-flip [] (d ∷ xs) ys le h = absurd (omega arith)
starts_with-flip (c ∷ pat) (d ∷ xs) ys le h =
    ground (arith, starts_with-flip pat xs ys (omega arith) (ground arith))

module _ (str pat : List ℕ) where
  places_of-none :
      (i n : ℕ)
      → ((x : ℕ) → x < n → starts_with pat (drop (i + x) str) ≡ false)
      → places_of str pat i n ≡ []
  places_of-none i zero h = refl
  places_of-none i (suc n) h =
      rw
        (subst (λ (k : ℕ). starts_with pat (drop k str) ≡ false)
          (let e : i + 0 ≡ i = omega arith in e) (h 0 (omega arith)))
        (places_of-none (suc i) n (λ x lt.
          subst (λ (k : ℕ). starts_with pat (drop k str) ≡ false)
            (let e : i + suc x ≡ suc i + x = omega arith in e) (h (suc x) (omega arith))))

  places_of-append :
      (i n m : ℕ)
      → places_of str pat i (n + m) ≡ places_of str pat i n ++ places_of str pat (i + n) m
  places_of-append i zero m = same_places str pat i (i + 0) (0 + m) m (omega arith) (omega arith)
  places_of-append i (suc n) m =
      same_places str pat i i (suc n + m) (suc (n + m)) refl (omega arith)
      ∙ ground (
        arith,
        places_of-append (suc i) n m,
        same_places str pat (suc i + n) (i + suc n) m m (omega arith) refl,
      )

places_of-shift :
    (xs ys pat : List ℕ) (i n k : ℕ)
    → k ≡ length xs
    → places_of (xs ++ ys) pat (k + i) n ≡ shifted k (places_of ys pat i n)
places_of-shift xs ys pat i zero k h = refl
places_of-shift xs ys pat i (suc n) k h = ground (
  arith,
  drop-append_right xs ys k i h,
  places_of-shift xs ys pat (suc i) n k h,
  same_places (xs ++ ys) pat (suc (k + i)) (k + suc i) n n (omega arith) refl,
)

-- Behind a first place `xs` the text `xs ++ pat ++ ys` has the places of `ys`.
module _ (xs pat ys : List ℕ) (unplaced : Unplaced xs pat) where
  abbrev whole : List ℕ
  whole = xs ++ (pat ++ ys)

  before : (i : ℕ) → i < length xs → starts_with pat (drop i whole) ≡ false
  before i lt =
      ap (starts_with pat) (
        ap (drop i) (sym (append_assoc xs pat ys))
        ∙ drop-append_left i (xs ++ pat) ys (omega (arith, length-append xs pat)))
      ∙ starts_with-append pat (drop i (xs ++ pat)) ys
          (omega (arith, length-drop i (xs ++ pat), length-append xs pat))
      ∙ unplaced i lt

  here : starts_with pat (drop (length xs) whole) ≡ true
  here =
      ap (starts_with pat) (drop-append xs (pat ++ ys) (length xs) refl) ∙ starts_with_self pat ys

  from_start : occurrences whole pat ≡ length xs ∷ places_of whole pat (suc (length xs)) (length ys)
  from_start =
      same_places whole pat 0 0 (length whole + 1 - length pat) (length xs + suc (length ys)) refl
        (omega (arith, length-append xs (pat ++ ys), length-append pat ys))
      ∙ places_of-append whole pat 0 (length xs) (suc (length ys))
      ∙ ap (λ (ps : List ℕ). ps ++ places_of whole pat (0 + length xs) (suc (length ys)))
          (places_of-none whole pat 0 (length xs) (λ x lt.
            subst (λ (k : ℕ). starts_with pat (drop k whole) ≡ false)
              (let e : x ≡ 0 + x = omega arith in e) (before x lt)))
      ∙ same_places whole pat (0 + length xs) (length xs) (suc (length ys)) (suc (length ys))
          (omega arith) refl
      ∙ rw here refl

  pub first_place : (ps : List ℕ) × (occurrences whole pat ≡ length xs ∷ ps)
  first_place = (places_of whole pat (suc (length xs)) (length ys), from_start)

  module _ (unbordered : Unbordered pat) (some_char : 0 < length pat) where
    between :
        (k : ℕ) → 0 < k → k < length pat → starts_with pat (drop (length xs + k) whole) ≡ false
    between k pos lt = elim (Bool-cases (starts_with pat (drop (length xs + k) whole))) [
      | inr f ↦ f
      | inl t ↦
          let e : starts_with pat (drop k pat ++ ys) ≡ true =
            sym (
              ap (starts_with pat) (
                drop-append_right xs (pat ++ ys) (length xs) k refl
                ∙ drop-append_left k pat ys (omega arith)))
            ∙ t in
          let f : starts_with (drop k pat) pat ≡ true =
            starts_with-flip pat (drop k pat) ys (omega (arith, length-drop k pat)) e in
          let g : starts_with (drop k pat) pat ≡ false = unbordered k pos lt in absurd (cc)
    ]

    behind :
        (n : ℕ)
        → places_of whole pat (length xs + length pat) n
          ≡ shifted (length xs + length pat) (places_of ys pat 0 n)
    behind n =
        ap (λ (str : List ℕ). places_of str pat (length xs + length pat) n)
          (sym (append_assoc xs pat ys))
        ∙ same_places ((xs ++ pat) ++ ys) pat (length xs + length pat) (length xs + length pat + 0)
            n n (omega arith) refl
        ∙ places_of-shift (xs ++ pat) ys pat 0 n (length xs + length pat)
            (omega (arith, length-append xs pat))

    inside : (n : ℕ) → n < length pat → places_of whole pat (suc (length xs)) n ≡ []
    inside n lt = places_of-none whole pat (suc (length xs)) n (λ x small.
        subst (λ (k : ℕ). starts_with pat (drop k whole) ≡ false)
          (let e : length xs + suc x ≡ suc (length xs) + x = omega arith in e)
          (between (suc x) (omega arith) (omega arith)))

    abbrev rest_places : List ℕ
    rest_places = shifted (length xs + length pat) (occurrences ys pat)

    from_next : (n : ℕ) → n ≡ length ys → places_of whole pat (suc (length xs)) n ≡ rest_places
    from_next n h = elim (dec_le (length pat) (suc n)) [
      | yes le ↦
          same_places whole pat (suc (length xs)) (suc (length xs)) n
            (length pat - 1 + (length ys + 1 - length pat)) refl (omega arith)
          ∙ places_of-append whole pat (suc (length xs)) (length pat - 1)
              (length ys + 1 - length pat)
          ∙ ap
              (λ (ps : List ℕ).
                ps
                ++ places_of whole pat (suc (length xs) + (length pat - 1))
                    (length ys + 1 - length pat))
              (inside (length pat - 1) (omega arith))
          ∙ same_places whole pat (suc (length xs) + (length pat - 1)) (length xs + length pat)
              (length ys + 1 - length pat) (length ys + 1 - length pat) (omega arith) refl
          ∙ behind (length ys + 1 - length pat)
      | no le ↦
          inside n (omega arith)
          ∙ ap (shifted (length xs + length pat))
              (same_places ys pat 0 0 0 (length ys + 1 - length pat) refl (omega arith))
    ]

    pub occurrences-placed : occurrences whole pat ≡ length xs ∷ rest_places
    occurrences-placed = from_start ∙ ap (◌∷◌ (length xs)) (from_next (length ys) refl)

-- Nowhere in a text that ends without it.
pub occurrences-none :
    (xs pat : List ℕ) → Unplaced xs pat → 0 < length pat → occurrences xs pat ≡ []
occurrences-none xs pat unplaced pos = places_of-none xs pat 0 (length xs + 1 - length pat) (λ x lt.
    subst (λ (k : ℕ). starts_with pat (drop k xs) ≡ false) (let e : x ≡ 0 + x = omega arith in e)
      (sym (starts_with-append pat (drop x xs) pat (omega (arith, length-drop x xs)))
        ∙ ap (starts_with pat) (sym (drop-append_left x xs pat (omega arith)))
        ∙ unplaced x (omega arith)))

pub starts_with-drop :
    (pat xs : List ℕ) → starts_with pat xs ≡ true → xs ≡ pat ++ drop (length pat) xs
starts_with-drop [] xs h = refl
starts_with-drop (c ∷ pat) [] h = cc
starts_with-drop (c ∷ pat) (d ∷ xs) h = ground (arith, starts_with-drop pat xs (ground arith))

-- A check of the places below a bound.
abbrev pub is_unplaced_below : ℕ → List ℕ → List ℕ → Bool
is_unplaced_below zero xs pat = true
is_unplaced_below (suc n) xs pat =
    not (starts_with pat (drop n (xs ++ pat))) && is_unplaced_below n xs pat

is_unplaced_below_lem :
    (n : ℕ) (xs pat : List ℕ)
    → is_unplaced_below n xs pat ≡ true
    → (i : ℕ) → i < n
    → starts_with pat (drop i (xs ++ pat)) ≡ false
is_unplaced_below_lem zero xs pat h i lt = absurd (omega arith)
is_unplaced_below_lem (suc n) xs pat h i lt = elim (dec_lt i n) [
  | yes less ↦ is_unplaced_below_lem n xs pat (ground arith) i less
  | no more ↦
      subst (λ (k : ℕ). starts_with pat (drop k (xs ++ pat)) ≡ false)
        (let e : n ≡ i = omega arith in e) (ground arith)
]

pub is_unplaced_below-Unplaced :
    (xs pat : List ℕ) → is_unplaced_below (length xs) xs pat ≡ true → Unplaced xs pat
is_unplaced_below-Unplaced xs pat h = is_unplaced_below_lem (length xs) xs pat h
