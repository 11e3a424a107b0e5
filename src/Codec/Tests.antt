-- ===== src/Codec/Tests.antt =====
-- The codec's theorems at concrete streams, over a simple checksum and a text format.
use ladder.Prelude.{ℕ, ◌+◌, ◌≡◌, refl, inl, List, [], ◌∷◌, ◌++◌, length, true, arith}
use ladder.Buffer.{Buffer, empty_buffer, have_read}
use ladder.Buffer.Inv.{contents, empty_buffer-IsValid}
use ladder.Codec.{
  Parsed, parsed, unparsed, Crc, Format, returns, seal, checksum, decapsulate, on_message,
}
use ladder.Codec.Frame.{frame, decapsulate-frame}
use ladder.Codec.Stream.{frames}
use ladder.Codec.Deliver.{deliver, deliver-frames, on_message_stops}

sum_bytes : ℕ → List ℕ → ℕ
sum_bytes c [] = c
sum_bytes c (b ∷ bs) = sum_bytes (c + b + 1) bs

abbrev toy_crc : Crc
toy_crc = record { init = 7; update = sum_bytes }

-- An empty packet carries no message.
abbrev texts : Format (List ℕ)
texts = record { compose_message = λ m. m; parse_message = nonempty }
  where
    nonempty : List ℕ → Parsed (List ℕ)
    nonempty [] = unparsed
    nonempty (b ∷ bs) = parsed (b ∷ bs)

-- `sum_bytes` of 65 is 73, of 1, 2 is 12.
abbrev stream : List ℕ
stream = 0 ∷ 0 ∷ 0 ∷ 9 ∷ 0 ∷ 0 ∷ 0 ∷ 73 ∷ 65 ∷ 0 ∷ 0 ∷ 0 ∷ 10 ∷ 0 ∷ 0 ∷ 0 ∷ 12 ∷ 1 ∷ 2 ∷ 0 ∷ 0 ∷ []

abbrev filled : List ℕ → Buffer
filled s = record { read_index = 0; write_index = length s; storage = s }

frames-stream : frames toy_crc ((65 ∷ []) ∷ (1 ∷ 2 ∷ []) ∷ []) ++ (0 ∷ 0 ∷ []) ≡ stream
unfolding seal sum_bytes
frames-stream = refl

deliver-frames_example :
    (b' : Buffer) × (deliver toy_crc texts
        ((0 ∷ 0 ∷ []) ∷ (0 ∷ 9 ∷ 0 ∷ 0 ∷ 0 ∷ 73 ∷ 65 ∷ 0 ∷ []) ∷ []
          ++ ((0 ∷ 0 ∷ 10 ∷ 0 ∷ 0 ∷ 0 ∷ 12 ∷ 1 ∷ 2 ∷ 0 ∷ 0 ∷ []) ∷ []))
        empty_buffer
      ≡ returns ((65 ∷ []) ∷ (1 ∷ 2 ∷ []) ∷ [], b'))
    × (contents b' ≡ 0 ∷ 0 ∷ [])
unfolding seal sum_bytes
deliver-frames_example =
    deliver-frames toy_crc texts
      ((0 ∷ 0 ∷ []) ∷ (0 ∷ 9 ∷ 0 ∷ 0 ∷ 0 ∷ 73 ∷ 65 ∷ 0 ∷ []) ∷ []
        ++ ((0 ∷ 0 ∷ 10 ∷ 0 ∷ 0 ∷ 0 ∷ 12 ∷ 1 ∷ 2 ∷ 0 ∷ 0 ∷ []) ∷ []))
      ((65 ∷ []) ∷ (1 ∷ 2 ∷ []) ∷ []) (0 ∷ 0 ∷ []) {b = empty_buffer} empty_buffer-IsValid
      (omega arith) ((λ e. cc), ((λ e. cc), tt)) (inl (omega arith)) (inl (omega arith)) refl
      (omega arith)

decapsulate-frame_example :
    decapsulate toy_crc [] (filled stream) ≡ returns (true, 65 ∷ [], have_read 9 (filled stream))
unfolding sum_bytes checksum
decapsulate-frame_example =
    (decapsulate-frame toy_crc [] 73 (65 ∷ [])
      (0 ∷ 0 ∷ 0 ∷ 10 ∷ 0 ∷ 0 ∷ 0 ∷ 12 ∷ 1 ∷ 2 ∷ 0 ∷ 0 ∷ []) {b = filled stream} (omega arith)
      (omega arith) (omega arith) refl).0

on_message_stops_example :
    (on_message toy_crc texts 5 [] (filled (frame 3 (65 ∷ []) ++ stream))
      ≡ returns ([], have_read 9 (filled (frame 3 (65 ∷ []) ++ stream))))
    × (contents (have_read 9 (filled (frame 3 (65 ∷ []) ++ stream))) ≡ stream)
unfolding sum_bytes checksum
on_message_stops_example =
    on_message_stops toy_crc texts 3 (65 ∷ []) stream 4 []
      {b = filled (frame 3 (65 ∷ []) ++ stream)} (omega arith) (omega arith) (omega arith)
      (omega arith) refl
