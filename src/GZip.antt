-- ===== src/GZip.antt =====
-- ladder/src/GZip.cpp: the loops that feed zlib piece by piece. zlib itself is a parameter.
pub mod Stream
mod Tests
use ladder.Prelude.{
  ℕ, zero, suc, ◌*◌, Bool, true, false, Option, none, some, List, [], ◌∷◌, ◌++◌, length, take, drop,
  ltb, leb, ◌==◌, if◌then◌else◌,
}

-- `init` is `deflateInit2`, none where it is not Z_OK. `deflate` is told whether to finish, how much
-- it may put out and what there is to take in; it gives the output, what it left and the stream. For
-- `Inflate` these are `inflateInit2` and `inflate`.
pub record Zlib (Stream : Type 0) : Type 0 where
  pub init : Option Stream
  pub deflate : Bool → ℕ → List ℕ → Stream → List ℕ × List ℕ × Stream

abbrev pub gzip_buffer_size : ℕ
gzip_buffer_size = 128

abbrev pub gzip_file_buffer_size : ℕ
gzip_file_buffer_size = 128 * 1024

module _ {Stream : Type 0} (z : Zlib Stream) where
  -- The inner loop, which goes on while the output fills its buffer; `none` where the fuel is used up.
  pub drain : ℕ → ℕ → Bool → List ℕ → Stream → Option (List ℕ × Stream)
  drain zero size finish input s = none
  drain (suc fuel) size finish input s =
      let (out, left, t) = z.deflate finish size input s in
      elim (length out == size) [
        | false ↦ some (out, t)
        | true ↦ elim (drain fuel size finish left t) [
          | none ↦ none
          | some (rest, u) ↦ some (out ++ rest, u)
        ]
      ]

  -- What a round of the outer loop adds before the rounds that follow.
  abbrev pub then_rest : (Stream → Option (List ℕ)) → Option (List ℕ × Stream) → Option (List ℕ)
  then_rest next none = none
  then_rest next (some (out, s)) = elim (next s) [ none ↦ none | some rest ↦ some (out ++ rest) ]

  -- The outer loop of `Deflate` and `Inflate`.
  pub feed : ℕ → ℕ → List ℕ → Stream → Option (List ℕ)
  unfolding drain
  feed zero fuel [] s = some []
  feed zero fuel (c ∷ rest) s = none
  feed (suc rounds) fuel [] s = some []
  feed (suc rounds) fuel (c ∷ rest) s =
      then_rest (feed rounds fuel (drop gzip_buffer_size (c ∷ rest))) (
        drain fuel gzip_buffer_size (leb (length (c ∷ rest)) gzip_buffer_size)
          (take gzip_buffer_size (c ∷ rest)) s)

  pub deflate_text : ℕ → List ℕ → Option (List ℕ)
  unfolding feed
  deflate_text fuel buf = elim z.init [ none ↦ some [] | some s ↦ feed (length buf) fuel buf s ]

  -- `while (flush != Z_FINISH)`.
  abbrev pub unless_finished : Bool → (Stream → Option (List ℕ)) → Stream → Option (List ℕ)
  unless_finished true next s = some []
  unless_finished false next s = next s

  -- The outer loop of `DeflateFile`: the end of a file is seen by a read that comes short.
  pub feed_file : ℕ → ℕ → List ℕ → Stream → Option (List ℕ)
  unfolding drain
  feed_file zero fuel rest s = none
  feed_file (suc rounds) fuel rest s =
      let finish = ltb (length rest) gzip_file_buffer_size in
      then_rest (unless_finished finish (feed_file rounds fuel (drop gzip_file_buffer_size rest)))
        (drain fuel gzip_file_buffer_size finish (take gzip_file_buffer_size rest) s)

  -- The argument is what `fopen` finds.
  pub deflate_file : ℕ → Option (List ℕ) → Option (List ℕ)
  unfolding feed_file
  deflate_file fuel none = some []
  deflate_file fuel (some content) = elim z.init [
    | none ↦ some []
    | some s ↦ feed_file (suc (length content)) fuel content s
  ]
