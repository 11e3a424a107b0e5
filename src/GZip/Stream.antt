-- ===== src/GZip/Stream.antt =====
-- The loops put out what the pieces of the input give, one after the other.
use mathlib.Core.Path.{subst}
use native.Mathlib.Decide.{dec_le}
use ladder.Prelude.{
  inr, inl, ◌&&◌, Bool-cases, not, ℕ, zero, suc, ◌<◌, ◌≤◌, ◌≡◌, refl, sym, ap, ◌∙◌, Bool, true,
  false, Option, none, some, List, [], ◌∷◌, ◌++◌, length, take, drop, ltb, ◌==◌, length-take,
  length-drop, take-append-drop, take-eq_self, append-nil, arith,
}
use ladder.GZip.{Zlib, drain, then_rest, unless_finished, feed_file, deflate_file}

-- What zlib documents: an input with a flush gives an output and a stream behind it. A call puts out
-- as much as there is room for; a call that fills its room is to be repeated with what it left.
pub record Documented {Stream : Type 0} (z : Zlib Stream) : Type 0 where
  pub due : Bool → List ℕ → Stream → List ℕ
  pub after : Bool → List ℕ → Stream → Stream
  pub puts_out :
      (finish : Bool) (n : ℕ) (i : List ℕ) (s : Stream)
      → (z.deflate finish n i s).0 ≡ take n (due finish i s)
  pub due_left :
      (finish : Bool) (n : ℕ) (i : List ℕ) (s : Stream)
      → n ≤ length (due finish i s)
      → due finish (z.deflate finish n i s).1 (z.deflate finish n i s).2 ≡ drop n (due finish i s)
  pub after_left :
      (finish : Bool) (n : ℕ) (i : List ℕ) (s : Stream)
      → n ≤ length (due finish i s)
      → after finish (z.deflate finish n i s).1 (z.deflate finish n i s).2 ≡ after finish i s
  pub is_through :
      (finish : Bool) (n : ℕ) (i : List ℕ) (s : Stream)
      → length (due finish i s) < n
      → (z.deflate finish n i s).2 ≡ after finish i s

module _ {Stream : Type 0} (z : Zlib Stream) (d : Documented z) where
  pub drain_lem :
      (fuel size : ℕ) (finish : Bool) (i : List ℕ) (s : Stream)
      → 0 < size
      → length (d.due finish i s) < fuel
      → drain z fuel size finish i s ≡ some (d.due finish i s, d.after finish i s)
  unfolding drain
  drain_lem zero size finish i s pos enough = absurd (omega arith)
  drain_lem (suc fuel) size finish i s pos enough = elim (dec_le size (length (d.due finish i s))) [
    | yes le ↦
        let full : (length (z.deflate finish size i s).0 == size) ≡ true =
          ground
            (arith, ap length (d.puts_out finish size i s), length-take size (d.due finish i s)) in
        rw (full, drain)
          (rw
            (drain_lem fuel size finish (z.deflate finish size i s).1 (z.deflate finish size i s).2
              pos
              (omega (
                arith,
                ap length (d.due_left finish size i s le),
                length-drop size (d.due finish i s),
              )))
            (ap some (λ k. (joined le k, d.after_left finish size i s le k))))
    | no more ↦
        let part : (length (z.deflate finish size i s).0 == size) ≡ false =
          ground
            (arith, ap length (d.puts_out finish size i s), length-take size (d.due finish i s)) in
        rw (part, drain)
          (ap some (λ k. (
            (d.puts_out finish size i s ∙ take-eq_self size (d.due finish i s) (omega arith)) k,
            d.is_through finish size i s (omega arith) k,
          )))
  ]
    where
      joined :
          size ≤ length (d.due finish i s)
          → (z.deflate finish size i s).0
              ++ d.due finish (z.deflate finish size i s).1 (z.deflate finish size i s).2
            ≡ d.due finish i s
      joined le =
          ap
            (λ (l : List ℕ).
              l ++ d.due finish (z.deflate finish size i s).1 (z.deflate finish size i s).2)
            (d.puts_out finish size i s)
          ∙ ap (λ (l : List ℕ). take size (d.due finish i s) ++ l) (d.due_left finish size i s le)
          ∙ take-append-drop size (d.due finish i s)

lt_of_ltb : (m n : ℕ) → ltb m n ≡ true → m < n
lt_of_ltb m n h = ground arith

le_of_ltb : (m n : ℕ) → ltb m n ≡ false → n ≤ m
le_of_ltb m n h = ground arith

-- What the pieces hold together.
abbrev pub joined_pieces : List (Bool × List ℕ) → List ℕ
joined_pieces [] = []
joined_pieces ((finish, i) ∷ ps) = i ++ joined_pieces ps

-- The last piece, and no other, is told to finish.
abbrev pub finishes_last : List (Bool × List ℕ) → Bool
finishes_last [] = false
finishes_last ((finish, i) ∷ []) = finish
finishes_last ((finish, i) ∷ p ∷ ps) = not finish && finishes_last (p ∷ ps)

module _ {Stream : Type 0} (z : Zlib Stream) (d : Documented z) (fuel : ℕ)
    (bound : (finish : Bool) (i : List ℕ) (s : Stream)
      → length i ≤ 131072
      → length (d.due finish i s) < fuel) where
  -- The outputs of the pieces, each with the stream that the one before it leaves.
  abbrev pub outputs : List (Bool × List ℕ) → Stream → List ℕ
  outputs [] s = []
  outputs ((finish, i) ∷ ps) s = d.due finish i s ++ outputs ps (d.after finish i s)

  -- A result that is made of the pieces of a content.
  abbrev pub MadeOf : List ℕ → Stream → Option (List ℕ) → Type 0
  MadeOf content s r =
      (ps : List (Bool × List ℕ)) × (r ≡ some (outputs ps s))
      × (joined_pieces ps ≡ content)
      × (finishes_last ps ≡ true)

  one_more :
      (i rest : List ℕ) (s : Stream) (next : Stream → Option (List ℕ))
      → MadeOf rest (d.after false i s) (next (d.after false i s))
      → MadeOf (i ++ rest) s (then_rest z next (some (d.due false i s, d.after false i s)))
  one_more i rest s next ([], e, j, f) = absurd (cc)
  one_more i rest s next (p ∷ ps, e, j, f) =
      ((false, i) ∷ p ∷ ps, rw (e, then_rest) refl, ap (λ (l : List ℕ). i ++ l) j, f)

  of_drain :
      (finish : Bool) (i : List ℕ) (s : Stream)
      → length i ≤ 131072
      → drain z fuel 131072 finish i s ≡ some (d.due finish i s, d.after finish i s)
  of_drain finish i s h = drain_lem z d fuel 131072 finish i s (omega arith) (bound finish i s h)

  abbrev Round : List ℕ → Stream → (Stream → Option (List ℕ)) → Bool → Type 0
  Round rest s next finish = MadeOf rest s (
      then_rest z (unless_finished z finish next) (drain z fuel 131072 finish (take 131072 rest) s))

  small : (rest : List ℕ) → length (take 131072 rest) ≤ 131072
  small rest = omega (arith, length-take 131072 rest)

  last_round :
      (rest : List ℕ) (s : Stream) (next : Stream → Option (List ℕ))
      → length rest < 131072
      → Round rest s next true
  last_round rest s next h =
      subst
        (λ (r : Option (List ℕ × Stream)).
          MadeOf rest s (then_rest z (unless_finished z true next) r))
        (sym (of_drain true (take 131072 rest) s (small rest)))
        (
          (true, take 131072 rest) ∷ [],
          refl,
          append-nil (take 131072 rest) ∙ take-eq_self 131072 rest (omega arith),
          refl,
        )

  other_round :
      (rest : List ℕ) (s : Stream) (next : Stream → Option (List ℕ))
      → ((t : Stream) → MadeOf (drop 131072 rest) t (next t))
      → Round rest s next false
  other_round rest s next ih =
      subst
        (λ (r : Option (List ℕ × Stream)).
          MadeOf rest s (then_rest z (unless_finished z false next) r))
        (sym (of_drain false (take 131072 rest) s (small rest)))
        (subst
          (λ (l : List ℕ). MadeOf l s (
            then_rest z (unless_finished z false next)
              (some (d.due false (take 131072 rest) s, d.after false (take 131072 rest) s))))
          (take-append-drop 131072 rest)
          (one_more (take 131072 rest) (drop 131072 rest) s (unless_finished z false next) (ih _)))

  feed_file_lem :
      (rounds : ℕ) (rest : List ℕ) (s : Stream)
      → length rest < rounds
      → MadeOf rest s (feed_file z rounds fuel rest s)
  unfolding feed_file
  feed_file_lem zero rest s h = absurd (omega arith)
  feed_file_lem (suc rounds) rest s h = elim (Bool-cases (ltb (length rest) 131072)) [
    | inl short ↦ subst (Round rest s (feed_file z rounds fuel (drop 131072 rest))) (sym short) (
        last_round rest s (feed_file z rounds fuel (drop 131072 rest))
          (lt_of_ltb (length rest) 131072 short))
    | inr long ↦ subst (Round rest s (feed_file z rounds fuel (drop 131072 rest))) (sym long) (
        other_round rest s (feed_file z rounds fuel (drop 131072 rest)) (λ t.
          feed_file_lem rounds (drop 131072 rest) t
            (omega (arith, h, length-drop 131072 rest, le_of_ltb (length rest) 131072 long))))
  ]

  -- `DeflateFile` ends with the outputs of pieces that hold the whole file, the last of them, and no
  -- other, told to finish.
  pub deflate_file-MadeOf :
      (content : List ℕ) (s : Stream)
      → z.init ≡ some s
      → MadeOf content s (deflate_file z fuel (some content))
  unfolding deflate_file
  deflate_file-MadeOf content s h =
      subst
        (λ (m : Option Stream).
          MadeOf content s (elim m [
            | none ↦ some []
            | some t ↦ feed_file z (suc (length content)) fuel content t
          ]))
        (sym h) (feed_file_lem (suc (length content)) content s (omega arith))
