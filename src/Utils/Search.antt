-- ===== src/Utils/Search.antt =====
-- The search finds what a comparison at every place finds.
use mathlib.Core.Path.{subst}
use ladder.Prelude.{
  ◌*◌, ltb, leb, none, some, ℕ, zero, suc, ◌+◌, ◌-◌, ◌<◌, ◌≤◌, ◌≡◌, ◌≢◌, refl, sym, ap, ◌∙◌, true,
  false, ◌&&◌, Option, List, [], ◌∷◌, length, get_or-drop, length-drop, drop, ◌==◌, Bool-cases, inl,
  inr, arith,
}
use ladder.Utils.{make_next, find_substr, entry, search_from, char_at}
use native.Mathlib.Decide.{dec_lt}
use ladder.Utils.Table.{TableIs, rank, make_next-TableIs}
use ladder.Utils.Border.{IsBorder, Matches, Above, Border, IsEntry}
use ladder.Utils.Occurrences.{
  starts_with, places_of, occurrences, NoZero, starts_with-Matches, Matches-starts_with,
}

module _ (str pat : List ℕ) where
  abbrev p : ℕ → ℕ
  p = char_at pat

  abbrev s : ℕ → ℕ
  s = char_at str

  found : (i : ℕ) → starts_with pat (drop i str) ≡ true → Matches p s i (length pat)
  found i h x lt = starts_with-Matches pat (drop i str) h x lt ∙ get_or-drop i x str 0

  is_found :
      (i : ℕ)
      → i + length pat ≤ length str
      → Matches p s i (length pat)
      → starts_with pat (drop i str) ≡ true
  is_found i le h =
      Matches-starts_with pat (drop i str) (omega (arith, length-drop i str))
        (λ x lt. h x lt ∙ sym (get_or-drop i x str 0))

  absent : (i : ℕ) → ¬ Matches p s i (length pat) → starts_with pat (drop i str) ≡ false
  absent i h = elim (Bool-cases (starts_with pat (drop i str))) [
    | inl t ↦ absurd (h (found i t))
    | inr f ↦ f
  ]

  pub same_places : (i k c d : ℕ) → i ≡ k → c ≡ d → places_of str pat i c ≡ places_of str pat k d
  same_places i k c d e f = ap (λ (x : ℕ). places_of str pat x c) e ∙ ap (places_of str pat k) f

  -- Places at which the pattern does not stand can be passed over.
  places_of-skip :
      (d i count : ℕ)
      → ((x : ℕ) → x < d → ¬ Matches p s (i + x) (length pat))
      → places_of str pat i count ≡ places_of str pat (i + d) (count - d)
  places_of-skip zero i count h =
      same_places i (i + 0) count (count - 0) (omega arith) (omega arith)
  places_of-skip (suc d) i zero h =
      same_places i i 0 (0 - suc d) refl (omega arith) ∙ none_left i (i + suc d) (omega arith)
    where
      none_left :
          (a b : ℕ)
          → 0 - suc d ≡ 0
          → places_of str pat a (0 - suc d) ≡ places_of str pat b (0 - suc d)
      none_left a b e = rw e refl
  places_of-skip (suc d) i (suc count) h =
      rw
        (absent i
          (λ q. h 0 (omega arith) (subst (λ (k : ℕ). Matches p s k (length pat)) (omega arith) q)))
        (places_of-skip d (suc i) count (λ x lt q.
          h (suc x) (omega arith) (subst (λ (k : ℕ). Matches p s k (length pat)) (omega arith) q)))
      ∙ same_places (suc i + d) (i + suc d) (count - d) (suc count - suc d) (omega arith)
          (omega arith)

  -- Where a comparison ended at `j`, the pattern stands at no place that the entry passes over.
  passed_over :
      (i j d : ℕ) (e : Option ℕ)
      → Matches p s i j
      → IsEntry p e j
      → j ≤ length pat
      → ((k : ℕ) → k < length pat → p k ≡ p j → p k ≢ s (i + j))
      → 0 < d
      → d ≤ j
      → Above e (j - d)
      → ¬ Matches p s (i + d) (length pat)
  passed_over i j d e m (b, c) le bad pos small ab q =
      bad (j - d) (omega arith) (c (j - d) border ab) last
    where
      at_place : {a : ℕ} (x y : ℕ) → x ≡ y → a ≡ s x → a ≡ s y
      at_place x y e h = h ∙ ap s e

      last : p (j - d) ≡ s (i + j)
      last = at_place (i + d + (j - d)) (i + j) (omega arith) (q (j - d) (omega arith))

      border : Border p (j - d) j
      border = (
        omega arith,
        λ x lt.
            at_place (i + d + x) (i + (j - (j - d) + x)) (omega arith) (q x (omega arith))
            ∙ sym (m (j - (j - d) + x) (omega arith)),
      )

  abbrev pub Agrees : ℕ → Option ℕ → Type 0
  Agrees i none = Unit
  Agrees i (some j) = (j ≤ length pat) × Matches p s i j

  -- What is left to be found from a place on.
  abbrev from_place : ℕ → List ℕ
  from_place i = places_of str pat i (length str + 1 - length pat - i)

  -- The search from `i` on.
  abbrev Finds : ℕ → List (Option ℕ) → ℕ → Option ℕ → Type 0
  Finds fuel next i j = search_from fuel str pat next i j ≡ from_place i

  next_place : ℕ → ℕ → Option ℕ → ℕ
  next_place i j none = i + suc j
  next_place i j (some k) = i + (j - k)

  skipped :
      (i j : ℕ) (e : Option ℕ)
      → Matches p s i j
      → IsEntry p e j
      → j ≤ length pat
      → ((k : ℕ) → k < length pat → p k ≡ p j → p k ≢ s (i + j))
      → from_place (suc i) ≡ from_place (next_place i j e)
  unfolding next_place
  skipped i j none m q le bad =
      places_of-skip j (suc i) (length str + 1 - length pat - suc i) (λ x lt h.
        passed_over i j (suc x) none m q le bad (omega arith) (omega arith) tt
          (subst (λ (n : ℕ). Matches p s n (length pat)) (omega arith) h))
      ∙ same_places (suc i + j) (i + suc j) _ _ (omega arith) (omega arith)
  skipped i j (some k) m q le bad =
      places_of-skip (j - k - 1) (suc i) (length str + 1 - length pat - suc i) (λ x lt h.
        passed_over i j (suc x) (some k) m q le bad (omega arith) (omega arith) (omega arith)
          (subst (λ (n : ℕ). Matches p s n (length pat)) (omega arith) h))
      ∙ same_places (suc i + (j - k - 1)) (i + (j - k)) _ _ (omega (arith, q.0.0))
          (omega (arith, q.0.0))

  -- One place, at which the pattern stands or not.
  here_absent : (i : ℕ) → ¬ Matches p s i (length pat) → from_place i ≡ from_place (suc i)
  here_absent i h =
      places_of-skip 1 i (length str + 1 - length pat - i)
        (λ x lt q. h (subst (λ (n : ℕ). Matches p s n (length pat)) (omega arith) q))
      ∙ same_places (i + 1) (suc i) _ _ (omega arith) (omega arith)

  here_found :
      (i : ℕ)
      → i + length pat ≤ length str
      → Matches p s i (length pat)
      → from_place i ≡ i ∷ from_place (suc i)
  here_found i le h =
      same_places i i _ (suc (length str + 1 - length pat - suc i)) refl (omega arith)
      ∙ rw (is_found i le h) refl

  past_end : (i : ℕ) → length str < i + length pat → [] ≡ from_place i
  past_end i lt = same_places i i 0 _ refl (omega arith)

  Agrees-after :
      (i j : ℕ) (e : Option ℕ)
      → j ≤ length pat
      → Matches p s i j
      → IsBorder p e j
      → Agrees (next_place i j e) e
  unfolding next_place
  Agrees-after i j none le m b = tt
  Agrees-after i j (some k) le m (lt, f) = (
    omega arith,
    λ x h.
        f x h
        ∙ m (j - k + x) (omega arith)
        ∙ ap s (let same : i + (j - k + x) ≡ i + (j - k) + x = omega arith in same),
  )

  Agrees-longer :
      (i j : ℕ) → j < length pat → Matches p s i j → s (i + j) ≡ p j → Agrees i (some (suc j))
  Agrees-longer i j lt m e = (
    omega arith,
    λ x h. elim (dec_lt x j) [
      | yes before ↦ m x before
      | no last ↦
          let at_j : x ≡ j = omega arith in
          ap p at_j ∙ sym e ∙ ap s (let same : i + j ≡ i + x = omega arith in same)
    ],
  )

  module _ (next : List (Option ℕ)) (table : TableIs pat next (suc (length pat)))
      (no_zero : NoZero pat) where
    -- The call that follows a comparison ended at `j`.
    abbrev go_on : ℕ → ℕ → ℕ → Option ℕ → List ℕ
    go_on fuel i j none = search_from fuel str pat next (i + suc j) none
    go_on fuel i j (some k) = search_from fuel str pat next (i + (j - k)) (some k)

    as_go_on :
        (fuel i j : ℕ) (e : Option ℕ)
        → (elim e as (λ x. List ℕ) [
          | none ↦ search_from fuel str pat next (i + suc j) none
          | some k ↦ search_from fuel str pat next (i + (j - k)) (some k)
        ])
          ≡ go_on fuel i j e
    as_go_on fuel i j none = refl
    as_go_on fuel i j (some k) = refl

    -- What the search is to do with one round's fuel.
    abbrev Searches : ℕ → Type 0
    Searches fuel =
        (i : ℕ) (j : Option ℕ)
        → Agrees i j
        → 2 * length str + 2 ≤ fuel + (2 * i + rank pat j)
        → Finds fuel next i j

    after_comparison :
        (fuel i j : ℕ) (e : Option ℕ)
        → Searches fuel
        → Agrees (next_place i j e) e
        → IsBorder p e j
        → 2 * length str + 2 ≤ suc fuel + (2 * i + suc j)
        → go_on fuel i j e ≡ from_place (next_place i j e)
    unfolding next_place
    after_comparison fuel i j none ih a b enough = ih (i + suc j) none a (omega arith)
    after_comparison fuel i j (some k) ih a b enough =
        ih (i + (j - k)) (some k) a (omega (arith, b.0))

    -- The rest of a round that ends a comparison.
    rest_of_round :
        (fuel i j : ℕ)
        → Searches fuel
        → j ≤ length pat
        → Matches p s i j
        → ((k : ℕ) → k < length pat → p k ≡ p j → p k ≢ s (i + j))
        → 2 * length str + 2 ≤ suc fuel + (2 * i + suc j)
        → go_on fuel i j (entry next j) ≡ from_place (suc i)
    rest_of_round fuel i j ih le m bad enough =
        let e = entry next j in
        let ok : IsEntry p (entry next j) j = table.1 j (omega arith) in
        after_comparison fuel i j e ih (Agrees-after i j e le m ok.0) ok.0 enough
        ∙ sym (skipped i j e m ok le bad)

    whole_match_bad :
        (i j : ℕ) → j ≡ length pat → (k : ℕ) → k < length pat → p k ≡ p j → p k ≢ s (i + j)
    whole_match_bad i j e k lt q h = no_zero k lt (q ∙ ap p e ∙ end pat)
      where
        end : (xs : List ℕ) → char_at xs (length xs) ≡ 0
        end [] = refl
        end (x ∷ xs) = end xs

    search_lem :
        (fuel i : ℕ) (j : Option ℕ)
        → Agrees i j
        → 2 * length str + 2 ≤ fuel + (2 * i + rank pat j)
        → Finds fuel next i j
    unfolding search_from
    search_lem zero i none a enough = past_end i (omega arith)
    search_lem zero i (some j) a enough = past_end i (omega (arith, a.0))
    search_lem (suc fuel) i none a enough = elim (Bool-cases (leb (i + length pat) (length str))) [
      | inl more ↦
          rw (more, search_from)
            (search_lem fuel i (some 0) (omega arith, λ x lt. absurd (omega arith)) (omega arith))
      | inr done ↦ rw (done, search_from) (past_end i (ground arith))
    ]
    search_lem (suc fuel) i (some j) (le, m) enough =
        elim (Bool-cases (leb (i + length pat) (length str) && leb j (length pat))) [
          | inr done ↦ rw (done, search_from) (past_end i (ground arith))
          | inl more ↦
              elim (Bool-cases (ltb j (length pat) && (char_at str (i + j) == char_at pat j))) [
                | inl same ↦
                    rw (more, same, search_from)
                      (search_lem fuel i (some (suc j))
                        (Agrees-longer i j (ground arith) m (ground arith)) (omega arith))
                | inr other ↦ elim (Bool-cases (j == length pat)) [
                  | inl whole ↦
                      rw (more, other, whole, search_from)
                        (ap (◌∷◌ i) (
                            as_go_on fuel i j (entry next j)
                            ∙ rest_of_round fuel i j (search_lem fuel) le m
                                (whole_match_bad i j (ground arith)) enough)
                          ∙ sym (
                              here_found i (ground arith)
                                (subst (λ (n : ℕ). Matches p s i n) (ground arith) m)))
                  | inr part ↦
                      let lt : j < length pat = ground arith in
                      let ne : char_at str (i + j) ≢ char_at pat j = λ h. ground arith in
                      rw (more, other, part, search_from)
                        (as_go_on fuel i j (entry next j)
                          ∙ rest_of_round fuel i j (search_lem fuel) le m
                              (λ k small q h. ne (sym h ∙ q)) enough
                          ∙ sym (here_absent i (λ q. ne (sym (q j lt)))))
                ]
              ]
        ]

-- `FindSubstr` finds exactly the places at which the pattern stands in the text, in order and also
-- where they overlap, as a comparison at every place would, for a pattern without the character zero.
pub find_substr-occurrences :
    (str pat : List ℕ) → NoZero pat → find_substr str pat ≡ occurrences str pat
unfolding find_substr
find_substr-occurrences str pat h =
    search_lem str pat (make_next pat) (make_next-TableIs pat) h (2 * length str + 1) 0 (some 0)
      (omega arith, λ x lt. absurd (omega arith)) (omega arith)
    ∙ same_places str pat 0 0 (length str + 1 - length pat - 0) (length str + 1 - length pat) refl
        (omega arith)
