-- ===== src/Codec/Deliver.antt =====
-- `OnMessage` over a whole stream.
use mathlib.Core.Path.{subst}
use ladder.Prelude.{
  ◌≢◌, ℕ, zero, suc, ◌+◌, ◌≤◌, ◌<◌, ◌≡◌, refl, sym, ap, ◌∙◌, ◌^◌, List, [], ◌∷◌, ◌++◌, length,
  length-append, append_assoc, append-nil, arith,
}
use ladder.Buffer.{have_read, Buffer, write, readable_bytes}
use ladder.Buffer.Inv.{
  IsValid, contents, have_read-IsValid, write-IsValid, write_index-write, write_index-have_read_le,
  readable_bytes-eq-length,
}
use ladder.Buffer.Refine.{contents-write}
use ladder.Codec.{
  parse_and_handle, threw, Parsed, checksum, Crc, Format, Result, returns, fault, stuck, seal,
  on_message, parsed, unparsed, thrown,
}
use ladder.Codec.Frame.{
  decapsulate-frame, frame, Fits, Incomplete, decapsulate-seal, decapsulate-Incomplete,
}
use ladder.Codec.Stream.{not-Incomplete-seal, AllFit, AllFit-append, frames, length-frames-ge, cut}

module _ (crc : Crc) {Message : Type 0} (f : Format Message) where
  abbrev prepend : Parsed Message → List Message → List Message
  prepend (parsed m) ms = m ∷ ms
  prepend unparsed ms = ms
  prepend threw ms = ms

  -- What the handler gets of these packets.
  abbrev pub handled : List (List ℕ) → List Message
  handled [] = []
  handled (r ∷ rs) = prepend (f.parse_message r) (handled rs)

  -- Parsing none of these packets throws.
  abbrev pub AllParse : List (List ℕ) → Type 0
  AllParse [] = Unit
  AllParse (r ∷ rs) = (f.parse_message r ≢ threw) × AllParse rs

  AllParse-append : (xs ys : List (List ℕ)) → AllParse (xs ++ ys) → AllParse xs × AllParse ys
  AllParse-append [] ys a = (tt, a)
  AllParse-append (x ∷ xs) ys a = let (l, r) = AllParse-append xs ys a.1 in ((a.0, l), r)

  prepend-append :
      (p : Parsed Message) (xs ys : List Message) → prepend p xs ++ ys ≡ prepend p (xs ++ ys)
  prepend-append (parsed m) xs ys = refl
  prepend-append _ xs ys = refl

  handle_lem :
      (p : Parsed Message) (ms : List Message) (b : Buffer)
      → p ≢ threw
      → parse_and_handle crc p (returns (ms, b)) ≡ returns (prepend p ms, b)
  handle_lem (parsed m) ms b ne = refl
  handle_lem unparsed ms b ne = refl
  handle_lem threw ms b ne = absurd (ne refl)

  handled-append : (xs ys : List (List ℕ)) → handled (xs ++ ys) ≡ handled xs ++ handled ys
  handled-append [] ys = refl
  handled-append (x ∷ xs) ys =
      ap (prepend (f.parse_message x)) (handled-append xs ys)
      ∙ sym (prepend-append (f.parse_message x) (handled xs) (handled ys))

  -- `OnMessage` hands on exactly the messages of the packets that have arrived whole, in order, and
  -- leaves the incomplete rest in the buffer; a round for each packet and one more are enough.
  pub on_message-frames :
      (raws : List (List ℕ)) (tail : List ℕ) (fuel : ℕ) (packet : List ℕ) {b : Buffer}
      → IsValid b
      → AllFit raws
      → AllParse raws
      → Incomplete tail
      → contents b ≡ frames crc raws ++ tail
      → length raws < fuel
      → (b' : Buffer) × (on_message crc f fuel packet b ≡ returns (handled raws, b'))
        × IsValid b'
        × (contents b' ≡ tail)
        × (b'.write_index ≤ b.write_index)
  unfolding on_message
  on_message-frames raws tail zero packet v a p i e h = absurd (omega arith)
  on_message-frames [] tail (suc fuel) packet {b} v a p i e h = (
    b,
    rw (decapsulate-Incomplete crc packet v (subst Incomplete (sym e) i), on_message),
    v,
    e,
    omega arith,
  )
  on_message-frames (r ∷ raws) tail (suc fuel) packet {b} v a p i e h =
      let one =
        decapsulate-seal crc packet r (frames crc raws ++ tail) v a.0
          (e ∙ append_assoc (seal crc r) (frames crc raws) tail) in
      let (b', rest, v', c', w') =
        on_message-frames raws tail fuel r (have_read-IsValid (8 + length r) v) a.1 p.1 i one.1
          (omega arith) in
      (
        b',
        rw (one.0, on_message)
            (rw (rest, on_message) (handle_lem (f.parse_message r) (handled raws) b' p.0)),
        v',
        c',
        omega (arith, write_index-have_read_le (8 + length r) b),
      )

  -- The pieces of a stream as they arrive, with `OnMessage` after each.
  pub deliver : List (List ℕ) → Buffer → Result (List Message × Buffer)
  deliver [] b = returns ([], b)
  deliver (chunk ∷ chunks) b =
      elim (on_message crc f (suc (readable_bytes (write chunk b))) [] (write chunk b)) [
        | returns (ms, b') ↦ elim (deliver chunks b') [
          | returns (ms', b'') ↦ returns (ms ++ ms', b'')
          | fault ↦ fault
          | thrown ↦ thrown
          | stuck ↦ stuck
        ]
        | fault ↦ fault
        | thrown ↦ thrown
        | stuck ↦ stuck
      ]

  abbrev pub joined : List (List ℕ) → List ℕ
  joined [] = []
  joined (c ∷ cs) = c ++ joined cs

  -- However a stream of packets is cut into pieces, also inside a header, the handler gets every
  -- message once and in order, and an incomplete packet at the end stays in the buffer.
  pub deliver-frames :
      (chunks raws : List (List ℕ)) (tail : List ℕ) {b : Buffer}
      → IsValid b
      → AllFit raws
      → AllParse raws
      → Incomplete (contents b)
      → Incomplete tail
      → contents b ++ joined chunks ≡ frames crc raws ++ tail
      → b.write_index + length (joined chunks) < 2 ^ 32
      → (b' : Buffer) × (deliver chunks b ≡ returns (handled raws, b')) × (contents b' ≡ tail)
  unfolding deliver
  deliver-frames [] [] tail {b} v a p i t e room = (b, refl, sym (append-nil (contents b)) ∙ e)
  deliver-frames [] (r ∷ raws) tail {b} v a p i t e room = absurd (
      not-Incomplete-seal crc r (frames crc raws ++ tail) a.0 (
        subst Incomplete
          (sym (append-nil (contents b)) ∙ e ∙ append_assoc (seal crc r) (frames crc raws) tail) i))
  deliver-frames (chunk ∷ chunks) raws tail {b} v a p i t e room =
      let small : b.write_index + length chunk < 2 ^ 32 =
        omega (arith, length-append chunk (joined chunks)) in
      let v1 = write-IsValid chunk v small in
      let grown = contents-write chunk v small in
      let (done, left, t1, parts, front, inc, rest) =
        cut crc raws tail (contents b ++ chunk) (joined chunks) a t
          (append_assoc (contents b) chunk (joined chunks) ∙ e) in
      let fits = AllFit-append done left (subst AllFit parts a) in
      let clean = AllParse-append done left (subst AllParse parts p) in
      let (b', now, v', c', w') =
        on_message-frames done t1 (suc (readable_bytes (write chunk b))) [] v1 fits.0 clean.0 inc
          (grown ∙ front)
          (omega (
            arith,
            readable_bytes-eq-length v1,
            ap length (grown ∙ front),
            length-append (frames crc done) t1,
            length-frames-ge crc done,
          )) in
      let (b'', later, c'') =
        deliver-frames chunks left tail {b = b'} v' fits.1 clean.1
          (subst Incomplete {y = contents b'} (sym c') inc) t
          (ap (λ (xs : List ℕ). xs ++ joined chunks) c' ∙ rest)
          (omega (arith, write_index-write chunk b small, length-append chunk (joined chunks))) in
      (
        b'',
        rw (now, deliver)
            (rw (later, deliver)
              (ap (λ (ms : List Message). returns (ms, b''))
                (sym (handled-append done left) ∙ ap handled (sym parts)))),
        c'',
      )

  -- A packet with a wrong checksum is dropped, and ends the call: the packets that have already
  -- arrived behind it are not handled, but stay in the buffer until more data come.
  pub on_message_stops :
      (c : ℕ) (bad : List ℕ) (rest : List ℕ) (fuel : ℕ) (packet : List ℕ) {b : Buffer}
      → IsValid b
      → c < 2 ^ 32
      → Fits bad
      → c ≢ checksum crc bad
      → contents b ≡ frame c bad ++ rest
      → let b' = have_read (8 + length bad) b in
        (on_message crc f (suc fuel) packet b ≡ returns ([], b')) × (contents b' ≡ rest)
  unfolding on_message
  on_message_stops c bad rest fuel packet {b} v hc h ne e =
      let r = decapsulate-frame crc packet c bad rest v hc h e in (ground (arith, r.0), r.1)
