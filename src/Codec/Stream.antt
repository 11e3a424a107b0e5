-- ===== src/Codec/Stream.antt =====
-- A stream of packets, cut into arbitrary pieces on its way: `OnMessage` after each piece.
use mathlib.Core.Path.{subst, ap₂}
use ladder.Prelude.Word.{u32_load, u32_load-u32_bytes, swap32-lt, swap32-swap32}
use native.Mathlib.Decide.{dec_lt}
use ladder.Prelude.{
  ℕ, ◌+◌, ◌≤◌, ◌<◌, ◌≡◌, refl, sym, ap, ◌∙◌, inl, inr, List, [], ◌∷◌, ◌++◌, take, drop, length,
  length-append, append_assoc, take-append, drop-append, take-append-drop, take-append_left,
  drop-append_left, arith,
}
use ladder.Prelude.Word.{u32_bytes, swap32}
use ladder.Codec.{some, Crc, checksum, seal}
use ladder.Codec.Frame.{frame_header, Fits, Incomplete, length-seal, seal-frame}

abbrev pub AllFit : List (List ℕ) → Type 0
AllFit [] = Unit
AllFit (r ∷ rs) = Fits r × AllFit rs

pub AllFit-append : (xs ys : List (List ℕ)) → AllFit (xs ++ ys) → AllFit xs × AllFit ys
AllFit-append [] ys a = (tt, a)
AllFit-append (x ∷ xs) ys a = let (f, g) = AllFit-append xs ys a.1 in ((a.0, f), g)

-- The first four bytes of a list that is long enough are those of any list that it begins.
u32_prefix :
    (x : ℕ) (p q rest : List ℕ)
    → p ++ q ≡ u32_bytes x ++ rest
    → 4 ≤ length p
    → p ≡ u32_bytes x ++ drop 4 p
u32_prefix x p q rest e h =
    sym (take-append-drop 4 p)
    ∙ ap (λ (front : List ℕ). front ++ drop 4 p) (sym (take-append_left 4 p q h) ∙ ap (take 4) e)

Incomplete-prefix : (p q : List ℕ) → Incomplete (p ++ q) → Incomplete p
Incomplete-prefix p q (inl short) = inl (omega (arith, length-append p q))
Incomplete-prefix p q (inr (w, rest, h, e, l)) = elim (dec_lt (length p) 8) [
  | yes short ↦ inl short
  | no long ↦ inr (
    w,
    drop 4 p,
    h,
    u32_prefix (swap32 w) p q rest e (omega arith),
    omega (arith, length-append p q),
  )
]

module _ (crc : Crc) where
  abbrev pub frames : List (List ℕ) → List ℕ
  frames [] = []
  frames (r ∷ rs) = seal crc r ++ frames rs

  pub length-frames-ge : (rs : List (List ℕ)) → length rs ≤ length (frames rs)
  length-frames-ge [] = omega arith
  length-frames-ge (r ∷ rs) =
      omega (arith, length-frames-ge rs, length-append (seal crc r) (frames rs), length-seal crc r)

  pub frames-append : (xs ys : List (List ℕ)) → frames (xs ++ ys) ≡ frames xs ++ frames ys
  frames-append [] ys = refl
  frames-append (x ∷ xs) ys =
      ap (◌++◌ (seal crc x)) (frames-append xs ys)
      ∙ sym (append_assoc (seal crc x) (frames xs) (frames ys))

  Incomplete-seal :
      (r p q rest : List ℕ)
      → Fits r
      → p ++ q ≡ seal crc r ++ rest
      → length p < 8 + length r
      → Incomplete p
  Incomplete-seal r p q rest h e l = elim (dec_lt (length p) 8) [
    | yes short ↦ inl short
    | no long ↦ inr (
      8 + length r,
      drop 4 p,
      h,
      u32_prefix (swap32 (8 + length r)) p q ((u32_bytes (swap32 (checksum crc r)) ++ r) ++ rest)
          (e
            ∙ ap (λ (xs : List ℕ). xs ++ rest) (seal-frame crc r)
            ∙ frame_header crc (checksum crc r) r rest h)
          (omega arith),
      l,
    )
  ]

  -- A whole packet is not incomplete: the length in its header is its own.
  pub not-Incomplete-seal : (r rest : List ℕ) → Fits r → Incomplete (seal crc r ++ rest) → ⊥
  not-Incomplete-seal r rest h (inl short) =
      omega (arith, length-append (seal crc r) rest, length-seal crc r)
  not-Incomplete-seal r rest h (inr (w, more, hw, e, l)) =
      absurd (omega (arith, length-append (seal crc r) rest, length-seal crc r, same_length))
    where
      words : some (swap32 w) ≡ some (swap32 (8 + length r))
      words =
          sym (u32_load-u32_bytes (swap32 w) more (swap32-lt w))
          ∙ ap u32_load (
              sym e
              ∙ ap (λ (xs : List ℕ). xs ++ rest) (seal-frame crc r)
              ∙ frame_header crc (checksum crc r) r rest h)
          ∙ u32_load-u32_bytes (swap32 (8 + length r))
              ((u32_bytes (swap32 (checksum crc r)) ++ r) ++ rest) (swap32-lt (8 + length r))

      same_word : swap32 w ≡ swap32 (8 + length r)
      same_word = cc words

      same_length : w ≡ 8 + length r
      same_length = sym (swap32-swap32 w hw) ∙ ap swap32 same_word ∙ swap32-swap32 (8 + length r) h

  -- Where a stream of packets is cut: behind some of them, inside the next.
  abbrev pub Cut : List (List ℕ) → List ℕ → List ℕ → List ℕ → Type 0
  Cut raws tail p q =
      (done : List (List ℕ)) × (left : List (List ℕ)) × (t : List ℕ) × (raws ≡ done ++ left)
      × (p ≡ frames done ++ t)
      × Incomplete t
      × (t ++ q ≡ frames left ++ tail)

  pub cut :
      (raws : List (List ℕ)) (tail p q : List ℕ)
      → AllFit raws
      → Incomplete tail
      → p ++ q ≡ frames raws ++ tail
      → Cut raws tail p q
  cut [] tail p q a i e =
      ([], [], p, refl, refl, Incomplete-prefix p q (subst Incomplete (sym e) i), e)
  cut (r ∷ raws) tail p q a i e = elim (dec_lt (length p) (8 + length r)) [
    | yes inside ↦ (
      [],
      r ∷ raws,
      p,
      refl,
      refl,
      Incomplete-seal r p q (frames raws ++ tail) a.0 (e ∙ first) inside,
      e,
    )
    | no behind ↦
        let n = 8 + length r in
        let whole : take n p ≡ seal crc r =
          sym (take-append_left n p q (omega arith))
          ∙ ap (take n) (e ∙ first)
          ∙ take-append (seal crc r) (frames raws ++ tail) n (sym (length-seal crc r)) in
        let after : drop n p ++ q ≡ frames raws ++ tail =
          sym (drop-append_left n p q (omega arith))
          ∙ ap (drop n) (e ∙ first)
          ∙ drop-append (seal crc r) (frames raws ++ tail) n (sym (length-seal crc r)) in
        let (done, left, t, parts, front, inc, rest) = cut raws tail (drop n p) q a.1 i after in
        (
          r ∷ done,
          left,
          t,
          ap (◌∷◌ r) parts,
          sym (take-append-drop n p)
              ∙ ap₂ ◌++◌ whole front
              ∙ sym (append_assoc (seal crc r) (frames done) t),
          inc,
          rest,
        )
  ]
    where
      first : (seal crc r ++ frames raws) ++ tail ≡ seal crc r ++ (frames raws ++ tail)
      first = append_assoc (seal crc r) (frames raws) tail
