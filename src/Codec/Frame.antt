-- ===== src/Codec/Frame.antt =====
-- One packet: what `Decapsulate` does on each branch.
use ladder.Prelude.{
  ◌⊎◌, refl, ◌==◌, length-take, inl, inr, if◌then◌else◌, ℕ, ◌+◌, ◌≤◌, ◌<◌, ◌≡◌, sym, ap, ◌∙◌, ◌^◌,
  true, false, some, List, ◌++◌, take, drop, length, ltb, length-append, take-append, drop-append,
  arith,
}
use native.Mathlib.Decide.{dec_lt}
use ladder.Prelude.Word.{u32, u32_bytes, swap32, swap32-swap32, swap32-lt}
use ladder.Buffer.{Buffer, readable_bytes, peek, peek_u32, have_read}
use ladder.Buffer.Inv.{IsValid, contents, readable_bytes-eq-length}
use ladder.Buffer.Refine.{peek_lem, contents-have_read}
use ladder.Buffer.Queue.{read_u32-u32_bytes}
use ladder.Codec.{fault, Crc, returns, checksum, seal, check_packet, take_packet, decapsulate}

abbrev pub Fits : List ℕ → Type 0
Fits raw = 8 + length raw < 2 ^ 32

-- A packet with any checksum field.
abbrev pub frame : ℕ → List ℕ → List ℕ
frame c raw = u32_bytes (swap32 (u32 (8 + length raw))) ++ (u32_bytes (swap32 c) ++ raw)

-- Fewer bytes than a header, or than a header's length field names.
abbrev pub Incomplete : List ℕ → Type 0
Incomplete q =
    (length q < 8)
    ⊎ ((w : ℕ) × (rest : List ℕ) × (w < 2 ^ 32)
        × (q ≡ u32_bytes (swap32 w) ++ rest)
        × (length q < w))

module _ (crc : Crc) where
  pub checksum-lt : (raw : List ℕ) → checksum crc raw < 2 ^ 32
  unfolding checksum
  checksum-lt raw = omega arith

  pub seal-frame : (raw : List ℕ) → seal crc raw ≡ frame (checksum crc raw) raw
  unfolding seal
  seal-frame raw = refl

  pub length-seal : (raw : List ℕ) → length (seal crc raw) ≡ 8 + length raw
  unfolding seal
  length-seal raw = omega arith

  -- The verdict on a packet that is all there.
  check_frame :
      (raw_data : List ℕ) (c : ℕ) (raw : List ℕ) (b : Buffer)
      → c < 2 ^ 32
      → check_packet crc raw_data (frame c raw) b
        ≡ (if c == checksum crc raw then returns (true, raw, b) else returns (false, raw_data, b))
  unfolding check_packet
  check_frame raw_data c raw b h = ground (arith, swap32-swap32 c h)

  -- What `Decapsulate` sees of a buffer whose first four bytes are the word `w`.
  by_header :
      (raw_data : List ℕ) (w : ℕ) (rest : List ℕ) {b : Buffer}
      → IsValid b
      → w < 2 ^ 32
      → contents b ≡ u32_bytes (swap32 w) ++ rest
      → 4 ≤ length rest
      → decapsulate crc raw_data b ≡ take_packet crc raw_data b w
  unfolding decapsulate
  by_header raw_data w rest {b} v h e more =
      rw (enough, shown) (ap (take_packet crc raw_data b) (swap32-swap32 w h))
    where
      enough : ltb (readable_bytes b) 8 ≡ false
      enough = ground (arith, readable_bytes-eq-length v, ap length e)

      shown : peek_u32 b ≡ some (swap32 w)
      shown = (read_u32-u32_bytes (swap32 w) rest v (swap32-lt w) e).0

  take_whole :
      (raw_data packet rest : List ℕ) (w : ℕ) {b : Buffer}
      → IsValid b
      → w < 2 ^ 32
      → length packet ≡ w
      → contents b ≡ packet ++ rest
      → (take_packet crc raw_data b w ≡ check_packet crc raw_data packet (have_read w b))
        × (contents (have_read w b) ≡ rest)
  unfolding take_packet
  take_whole raw_data packet rest w {b} v h len e = (
    rw enough (ap (λ (buf : List ℕ). check_packet crc raw_data buf (have_read w b)) shown),
    contents-have_read w v h ∙ ap (drop w) e ∙ drop-append packet rest w (sym len),
  )
    where
      enough : ltb (readable_bytes b) w ≡ false
      enough = ground (arith, readable_bytes-eq-length v, ap length e, length-append packet rest)

      shown : (peek w b).1 ≡ packet
      shown =
          ap (λ (p : ℕ × List ℕ). p.1) (peek_lem w v h)
          ∙ ap (take w) e
          ∙ take-append packet rest w (sym len)

  pub frame_header :
      (c : ℕ) (raw rest : List ℕ)
      → Fits raw
      → frame c raw ++ rest
        ≡ u32_bytes (swap32 (8 + length raw)) ++ ((u32_bytes (swap32 c) ++ raw) ++ rest)
  frame_header c raw rest h =
      ap (λ (n : ℕ). u32_bytes (swap32 n) ++ ((u32_bytes (swap32 c) ++ raw) ++ rest))
        (let e : u32 (8 + length raw) ≡ 8 + length raw = omega arith in e)

  -- A packet at the front of the buffer, whatever its checksum field, is taken out of the buffer,
  -- and what follows stays; its data are returned exactly when the field is the checksum.
  pub decapsulate-frame :
      (raw_data : List ℕ) (c : ℕ) (raw rest : List ℕ) {b : Buffer}
      → IsValid b
      → c < 2 ^ 32
      → Fits raw
      → contents b ≡ frame c raw ++ rest
      → let b' = have_read (8 + length raw) b in
        (decapsulate crc raw_data b ≡ (
          if c == checksum crc raw then returns (true, raw, b') else returns (false, raw_data, b')))
        × (contents b' ≡ rest)
  decapsulate-frame raw_data c raw rest {b} v hc h e =
      let taken = take_whole raw_data (frame c raw) rest (8 + length raw) v h (omega arith) e in
      (
        by_header raw_data (8 + length raw) ((u32_bytes (swap32 c) ++ raw) ++ rest) v h
              (e ∙ frame_header c raw rest h) (omega arith)
            ∙ taken.0
            ∙ check_frame raw_data c raw (have_read (8 + length raw) b) hc,
        taken.1,
      )

  -- A whole packet at the front of the buffer is taken out, and its data returned.
  pub decapsulate-seal :
      (raw_data raw rest : List ℕ) {b : Buffer}
      → IsValid b
      → Fits raw
      → contents b ≡ seal crc raw ++ rest
      → (decapsulate crc raw_data b ≡ returns (true, raw, have_read (8 + length raw) b))
        × (contents (have_read (8 + length raw) b) ≡ rest)
  decapsulate-seal raw_data raw rest {b} v h e =
      let r =
        decapsulate-frame raw_data (checksum crc raw) raw rest v (checksum-lt raw) h
          (e ∙ ap (λ (xs : List ℕ). xs ++ rest) (seal-frame raw)) in
      (ground (arith, r.0), r.1)

  -- Less than a packet at the front: nothing is taken.
  pub decapsulate-Incomplete :
      (raw_data : List ℕ) {b : Buffer}
      → IsValid b
      → Incomplete (contents b)
      → decapsulate crc raw_data b ≡ returns (false, raw_data, b)
  unfolding decapsulate
  decapsulate-Incomplete raw_data {b} v (inl short) = ground (arith, readable_bytes-eq-length v)
  decapsulate-Incomplete raw_data {b} v (inr (w, rest, h, e, l)) =
      elim (dec_lt (length (contents b)) 8) [
        | yes short ↦ ground (arith, readable_bytes-eq-length v)
        | no long ↦ by_header raw_data w rest v h e (omega (arith, ap length e)) ∙ waits
      ]
    where
      waits : take_packet crc raw_data b w ≡ returns (false, raw_data, b)
      waits = unfold take_packet in ground (arith, readable_bytes-eq-length v)

  -- A header whose length field is below its own size makes `Decapsulate` read outside the packet:
  -- every stream that begins so does it, whatever the codec.
  decapsulate_short_length :
      (raw_data : List ℕ) (w : ℕ) (rest : List ℕ) {b : Buffer}
      → IsValid b
      → w < 8
      → 4 ≤ length rest
      → contents b ≡ u32_bytes (swap32 w) ++ rest
      → decapsulate crc raw_data b ≡ fault
  decapsulate_short_length raw_data w rest {b} v h l e =
      by_header raw_data w rest v (omega arith) e l ∙ outside
    where
      outside : take_packet crc raw_data b w ≡ fault
      outside =
          unfold take_packet check_packet in
          ground (
            arith,
            readable_bytes-eq-length v,
            ap length e,
            ap (λ (p : ℕ × List ℕ). length p.1) (peek_lem w v (omega arith)),
            length-take w (contents b),
          )
