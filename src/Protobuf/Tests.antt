-- ===== src/Protobuf/Tests.antt =====
-- The protobuf codec's theorems over a runtime with one message type, named "A".
use native.Mathlib.Decide.{ℕ_discrete}
use ladder.Prelude.{ℕ, ◌+◌, ◌≡◌, refl, true, Option, some, none, List, [], ◌∷◌, arith}
use ladder.Buffer.{write_u32, write, read_all, Buffer, empty_buffer}
use ladder.Buffer.Inv.{contents, empty_buffer-IsValid}
use ladder.Codec.{encapsulate, checksum, Crc, returns, parsed}
use ladder.Codec.Deliver.{deliver}
use ladder.Protobuf.{Runtime, format, parse_message, compose_message}
use ladder.Protobuf.RoundTrip.{Documented, parse_message-compose_message}
use ladder.Protobuf.Dispatch.{deliver-sent}

abbrev named_type : List ℕ → Option ℕ
named_type [] = none
named_type (c ∷ cs) = some 0

-- A message is the list of its bytes.
abbrev one_type : Runtime
one_type = record {
  Descriptor = ℕ;
  same = ℕ_discrete;
  Message = List ℕ;
  get_type_name = λ m. 65 ∷ [];
  get_descriptor = λ m. 0;
  serialize_as_string = λ m. m;
  find_message_type_by_name = named_type;
  get_prototype = λ d. true;
  parse_from_string = λ d s. some s;
}

one_type-Documented : Documented one_type
one_type-Documented = record { known = λ m. refl; has_prototype = λ m. refl; parses = λ m. refl }

abbrev toy_crc : Crc
toy_crc = record { init = 0; update = λ c bytes. c + 3 }

parse_message-compose_message_example :
    parse_message one_type (compose_message one_type (1 ∷ 2 ∷ [])) ≡ parsed (1 ∷ 2 ∷ [])
parse_message-compose_message_example =
    parse_message-compose_message one_type one_type-Documented (1 ∷ 2 ∷ []) (omega arith)

deliver-sent_example :
    (b' : Buffer) × (deliver toy_crc
        (format one_type)
        ((0 ∷ 0 ∷ 0 ∷ 14 ∷ 0 ∷ 0 ∷ []) ∷ (0 ∷ 3 ∷ 0 ∷ 0 ∷ 0 ∷ 1 ∷ 65 ∷ 9 ∷ []) ∷ [])
        empty_buffer
      ≡ returns ((9 ∷ []) ∷ [], b'))
    × (contents b' ≡ [])
unfolding encapsulate checksum compose_message write_u32 write read_all
deliver-sent_example =
    deliver-sent one_type toy_crc one_type-Documented
      ((0 ∷ 0 ∷ 0 ∷ 14 ∷ 0 ∷ 0 ∷ []) ∷ (0 ∷ 3 ∷ 0 ∷ 0 ∷ 0 ∷ 1 ∷ 65 ∷ 9 ∷ []) ∷ []) ((9 ∷ []) ∷ [])
      {b = empty_buffer} empty_buffer-IsValid refl (omega arith) refl (omega arith)
