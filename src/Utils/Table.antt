-- ===== src/Utils/Table.antt =====
-- The table: each entry is a border that skips only borders which cannot help.
use mathlib.Core.Path.{subst}
use native.Mathlib.Decide.{dec_lt}
use ladder.Prelude.{
  get_or-append_left, get_or-append_last, ℕ, zero, suc, ◌+◌, ◌*◌, ◌<◌, ◌≤◌, ◌≡◌, ◌≢◌, refl, sym, ap,
  ◌∙◌, Option, none, some, List, [], ◌∷◌, ◌++◌, length, length-append, ltb, ◌==◌, Bool-cases, inl,
  inr, arith,
}
use ladder.Utils.{char_at, entry, reduce, extended, build, make_next}
use ladder.Utils.Border.{
  Above, Border, IsBorder, IsEntry, Border-trans, Border-inner, Border-suc, Border-pred,
  Border-zero,
}

module _ (pat : List ℕ) where
  abbrev p : ℕ → ℕ
  p = char_at pat

  abbrev pub TableIs : List (Option ℕ) → ℕ → Type 0
  TableIs next n = (length next ≡ n) × ((k : ℕ) → k < n → IsEntry p (entry next k) k)

  -- How far a value is from -1.
  abbrev pub rank : Option ℕ → ℕ
  rank none = 0
  rank (some t) = suc t

  -- Falling back from a border to its entry.
  fall_back :
      (e : Option ℕ) (t i : ℕ)
      → IsEntry p e t
      → Border p t i
      → IsBorder p e i × ((k : ℕ) → Border p k i → Above e k → k < t → p k ≡ p t)
  fall_back none t i (b, c) q = (tt, λ k bk ab lt. c k (Border-inner p k t i bk q lt) tt)
  fall_back (some u) t i (b, c) q =
      (Border-trans p u t i q b, λ k bk ab lt. c k (Border-inner p k t i bk q lt) ab)

  rank_lt : (e : Option ℕ) (t : ℕ) → IsBorder p e t → rank e < suc t
  rank_lt none t b = omega arith
  rank_lt (some u) t b = omega (arith, b.0)

  reduce_lem :
      (fuel : ℕ) (next : List (Option ℕ)) (i : ℕ) (e : Option ℕ)
      → TableIs next i
      → rank e ≤ fuel
      → IsEntry p e i
      → IsEntry p (reduce fuel pat next i e) i
  unfolding reduce
  reduce_lem zero next i e t r q = q
  reduce_lem (suc fuel) next i none t r q = q
  reduce_lem (suc fuel) next i (some u) t r (b, c) =
      elim (Bool-cases (char_at pat u == char_at pat i)) [
        | inl same ↦
            let e = entry next u in
            let ok = t.1 u b.0 in
            let f = fall_back e u i ok b in
            let eq : p u ≡ p i = ground arith in
            rw (same, reduce)
              (reduce_lem fuel next i e t (omega (arith, rank_lt e u ok.0)) (
                f.0,
                λ k bk ab. elim (dec_lt k u) [
                  | yes lt ↦ f.1 k bk ab lt ∙ eq
                  | no ge ↦ elim (dec_lt u k) [
                    | yes gt ↦ c k bk gt
                    | no le ↦ ap p (let at_u : k ≡ u = omega arith in at_u) ∙ eq
                  ]
                ],
              ))
        | inr other ↦ rw (other, reduce) (b, c)
      ]

  -- No border above `t` goes on with the character at `i`.
  abbrev pub Longest : Option ℕ → ℕ → Type 0
  Longest t i = (k : ℕ) → Border p k i → Above t k → p k ≢ p i

  record IsFilled (i : ℕ) (t : Option ℕ) (next : List (Option ℕ)) : Type 0 where
    table : TableIs next (suc i)
    border : IsBorder p t i
    longest : Longest t i

  -- One more entry, for a `t` that is the longest border there.
  extended_lem :
      (next : List (Option ℕ)) (i t : ℕ)
      → TableIs next (suc i)
      → Border p t (suc i)
      → ((k : ℕ) → Border p k (suc i) → ¬ (t < k))
      → IsFilled (suc i) (some t) (extended pat next (suc i) t)
  unfolding extended
  extended_lem next i t (size, ok) b longest = record {
    table = (
      omega (arith, size, length-append next (new ∷ [])),
      λ k lt. elim (dec_lt k (suc i)) [
        | yes old ↦ rw (get_or-append_left next (new ∷ []) k none (omega (arith, size))) (ok k old)
        | no last ↦ at_new k (omega arith)
      ],
    );
    border = b;
    longest = λ k bk lt. absurd (longest k bk lt);
  }
    where
      new : Option ℕ
      new = reduce (suc t) pat next (suc i) (some t)

      is_entry : IsEntry p new (suc i)
      is_entry =
          reduce_lem (suc t) next (suc i) (some t) (size, ok) (omega arith)
            (b, λ k bk lt. absurd (longest k bk lt))

      at_new : (k : ℕ) → k ≡ suc i → IsEntry p (entry (next ++ new ∷ []) k) k
      at_new k e =
          rw (get_or-append_last next new k none (omega (arith, size)))
            (subst (λ (n : ℕ). IsEntry p new n) (sym e) is_entry)

  -- What is left when a border cannot be extended.
  Longest-again :
      (e : Option ℕ) (t i : ℕ)
      → p t ≢ p i
      → Longest (some t) i
      → ((k : ℕ) → Border p k i → Above e k → k < t → p k ≡ p t)
      → Longest e i
  Longest-again e t i ne longest inner k bk ab = elim (dec_lt k t) [
    | yes lt ↦ λ q. ne (sym (inner k bk ab lt) ∙ q)
    | no ge ↦ elim (dec_lt t k) [
      | yes gt ↦ longest k bk gt
      | no le ↦ λ q. ne (ap p (let at_t : t ≡ k = omega arith in at_t) ∙ q)
    ]
  ]

  no_longer :
      (t : Option ℕ) (i : ℕ) (n : ℕ)
      → rank t ≡ n
      → Longest t i
      → (k : ℕ) → Border p k (suc i)
      → ¬ (n < k)
  no_longer t i n e longest zero b lt = omega arith
  no_longer none i n e longest (suc k) b lt = let q = Border-pred p k i b in longest k q.0 tt q.1
  no_longer (some t) i n e longest (suc k) b lt =
      let q = Border-pred p k i b in longest k q.0 (omega arith) q.1

  filled :
      (i : ℕ) (t : Option ℕ) (next : List (Option ℕ))
      → IsFilled i t next
      → i ≡ length pat
      → TableIs next (suc (length pat))
  filled i t next v e = subst (λ (n : ℕ). TableIs next (suc n)) e v.table

  -- With enough fuel the table is filled.
  build_lem :
      (fuel i : ℕ) (t : Option ℕ) (next : List (Option ℕ))
      → IsFilled i t next
      → i ≤ length pat
      → 2 * length pat + rank t ≤ fuel + 2 * i
      → TableIs (build fuel pat i t next) (suc (length pat))
  unfolding build
  build_lem zero i t next v le enough = filled i t next v (omega arith)
  build_lem (suc fuel) i none next v le enough = elim (Bool-cases (ltb i (length pat))) [
    | inl more ↦
        rw (more, build)
          (build_lem fuel (suc i) (some 0) (extended pat next (suc i) 0)
            (extended_lem next i 0 v.table (Border-zero p i) (no_longer none i 0 refl v.longest))
            (ground arith) (omega (arith, enough)))
    | inr done ↦ rw (done, build) (filled i none next v (ground arith))
  ]
  build_lem (suc fuel) i (some t) next v le enough = elim (Bool-cases (ltb i (length pat))) [
    | inl more ↦ elim (Bool-cases (char_at pat t == char_at pat i)) [
      | inl same ↦
          rw (more, same, build)
            (build_lem fuel (suc i) (some (suc t)) (extended pat next (suc i) (suc t))
              (extended_lem next i (suc t) v.table (Border-suc p t i v.border (ground arith))
                (no_longer (some t) i (suc t) refl v.longest))
              (ground arith) (omega (arith, enough)))
      | inr other ↦
          let ok = v.table.1 t (omega (arith, v.border.0)) in
          let f = fall_back (entry next t) t i ok v.border in
          rw (more, other, build)
            (build_lem fuel i (entry next t) next
              (record {
                table = v.table;
                border = f.0;
                longest = Longest-again (entry next t) t i (ground arith) v.longest f.1;
              })
              le (omega (arith, enough, rank_lt (entry next t) t ok.0)))
    ]
    | inr done ↦ rw (done, build) (filled i (some t) next v (ground arith))
  ]

  pub make_next-TableIs : TableIs (make_next pat) (suc (length pat))
  unfolding make_next
  make_next-TableIs =
      build_lem (2 * length pat + 1) 0 none (none ∷ [])
        (record {
          table = (refl, λ k lt. first k (omega arith));
          border = tt;
          longest = λ k b. absurd (omega (arith, b.0));
        })
        (omega arith) (omega arith)
    where
      first : (k : ℕ) → k ≡ 0 → IsEntry p (entry (none ∷ []) k) k
      first zero e = (tt, λ j b. absurd (omega (arith, b.0)))
      first (suc k) e = absurd (omega arith)
