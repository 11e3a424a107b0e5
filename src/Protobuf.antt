-- ===== src/Protobuf.antt =====
-- ladder/src/codec/ProtobufCodec.cpp: a message's type name and serialized form in one packet.
-- The protobuf runtime is a parameter.
pub mod RoundTrip
pub mod Dispatch
mod Tests
use mathlib.Core.Logic.{ite}
use ladder.Prelude.{
  ℕ, ◌+◌, ◌-◌, ◌≡◌, ◌^◌, ◌%◌, Bool, true, false, Option, some, none, List, [], ◌∷◌, ◌++◌, take,
  drop, length, ltb, if◌then◌else◌,
}
use ladder.Prelude.Word.{u32, u32_load, swap32}
use ladder.Buffer.{Buffer, empty_buffer, write, write_u32, read_all}
use ladder.Codec.{Format, Parsed, parsed, unparsed, threw}

-- `Descriptor`, `Message` and what the code calls of them. A new message is known by its type.
pub record Runtime : Type 1 where
  pub Descriptor : Type 0
  pub same : Discrete Descriptor
  pub Message : Type 0
  pub get_type_name : Message → List ℕ
  pub get_descriptor : Message → Descriptor
  pub serialize_as_string : Message → List ℕ
  pub find_message_type_by_name : List ℕ → Option Descriptor
  pub get_prototype : Descriptor → Bool
  pub parse_from_string : Descriptor → List ℕ → Option Message

abbrev pub min_message_length : ℕ
min_message_length = 4

-- `std::string::substr`, which throws behind the end.
abbrev pub substr : List ℕ → ℕ → ℕ → Option (List ℕ)
substr s pos n = if ltb (length s) pos then none else some (take n (drop pos s))

module _ (rt : Runtime) where
  open rt use {
    Descriptor, same, Message, get_type_name, get_descriptor, serialize_as_string,
    find_message_type_by_name, get_prototype, parse_from_string,
  }

  pub create_message : List ℕ → Option Descriptor
  create_message type_name = elim (find_message_type_by_name type_name) [
    | none ↦ none
    | some descriptor ↦ if get_prototype descriptor then some descriptor else none
  ]

  pub compose_message : Message → List ℕ
  compose_message message =
      let name = get_type_name message in
      let b1 = write_u32 (swap32 (u32 (length name))) empty_buffer in
      let b2 = write name b1 in (read_all (write (serialize_as_string message) b2)).0

  parse_body : List ℕ → ℕ → Descriptor → Parsed Message
  parse_body packet name_length descriptor =
      -- `size_t` arithmetic, cut to `uint32_t`
      let buffer_length = u32 (2 ^ 64 + length packet - min_message_length - name_length) in
      elim (substr packet (4 + name_length) buffer_length) [
        | none ↦ threw
        | some message_buffer ↦ elim (parse_from_string descriptor message_buffer) [
          | none ↦ unparsed
          | some message ↦ parsed message
        ]
      ]

  parse_named : List ℕ → ℕ → Parsed Message
  unfolding create_message parse_body
  parse_named packet name_length = elim (create_message (take name_length (drop 4 packet))) [
    | none ↦ unparsed
    | some descriptor ↦ parse_body packet name_length descriptor
  ]

  -- `message_type_name_length + kMinMessageLength` wraps in `uint32_t`.
  pub parse_message : List ℕ → Parsed Message
  unfolding parse_named
  parse_message packet =
      if ltb (length packet) min_message_length then unparsed else elim (u32_load packet) [
        | none ↦ unparsed
        | some word ↦
            if ltb (length packet) (u32 (swap32 word + min_message_length))
            then unparsed
            else parse_named packet (swap32 word)
      ]

  -- The codec as `Codec` sees it.
  abbrev pub format : Format Message
  format = record { compose_message = compose_message; parse_message = parse_message }

  -- `callbacks_` and `default_callback_`. A handler is known by a number; `none` is an empty function.
  pub record Callbacks : Type 0 where
    pub callbacks : List (Descriptor × ℕ)
    pub default_callback : Option ℕ

  -- The map's `operator[]` and assignment.
  assign : Descriptor → ℕ → List (Descriptor × ℕ) → List (Descriptor × ℕ)
  assign d callback [] = (d, callback) ∷ []
  assign d callback ((e, old) ∷ rest) =
      ite (same e d) ((e, callback) ∷ rest) ((e, old) ∷ assign d callback rest)

  pub register_message_callback : Descriptor → ℕ → Callbacks → Callbacks
  unfolding assign
  register_message_callback d callback c = record c { callbacks = assign d callback c.callbacks }

  pub register_default_message_callback : ℕ → Callbacks → Callbacks
  register_default_message_callback callback c = record c { default_callback = some callback }

  find : Descriptor → List (Descriptor × ℕ) → Option ℕ
  find d [] = none
  find d ((e, callback) ∷ rest) = ite (same e d) (some callback) (find d rest)

  -- Which handler gets the message; `none` is the exception that an empty function throws.
  pub handle_message : Callbacks → Message → Option ℕ
  unfolding find
  handle_message c message = elim (find (get_descriptor message) c.callbacks) [
    | some callback ↦ some callback
    | none ↦ c.default_callback
  ]
