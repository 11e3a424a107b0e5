-- ===== src/Protobuf/RoundTrip.antt =====
-- What one side composes, the other parses; which handler gets it.
use ladder.Prelude.{
  ℕ, ◌+◌, ◌-◌, ◌≤◌, ◌<◌, ◌≡◌, refl, sym, ap, ◌∙◌, ◌^◌, true, false, Option, some, none, List, ◌++◌,
  take, drop, length, ltb, if◌then◌else◌, take-append, drop-append, length-append, take-eq_self,
  append_assoc, arith,
}
use ladder.Prelude.Word.{
  u32, u32_bytes, u32_load, u32_load-u32_bytes, swap32, swap32-swap32, swap32-lt,
}
use ladder.Buffer.{empty_buffer, write, write_u32}
use ladder.Buffer.Inv.{empty_buffer-IsValid, write-IsValid, write_index-write}
use ladder.Buffer.Refine.{contents-write}
use ladder.Buffer.Queue.{contents-write_u32, write_u32-IsValid, read_all_lem}
use ladder.Codec.{Parsed, parsed, unparsed, threw}
use ladder.Protobuf.{
  Runtime, substr, create_message, compose_message, parse_body, parse_named, parse_message,
}

-- What the protobuf library documents: the generated pool knows the type of every message, the
-- factory has its prototype, and parsing inverts serializing.
pub record Documented (rt : Runtime) : Type 1 where
  pub known :
      (m : rt.Message)
      → rt.find_message_type_by_name (rt.get_type_name m) ≡ some (rt.get_descriptor m)
  pub has_prototype : (m : rt.Message) → rt.get_prototype (rt.get_descriptor m) ≡ true
  pub parses :
      (m : rt.Message)
      → rt.parse_from_string (rt.get_descriptor m) (rt.serialize_as_string m) ≡ some m

module _ (rt : Runtime) where
  abbrev pub Short : rt.Message → Type 0
  Short m = 4 + length (rt.get_type_name m) + length (rt.serialize_as_string m) < 2 ^ 32

  -- `ComposeMessage` writes the name's length in network order, the name and the serialized message.
  pub compose_message_lem :
      (m : rt.Message)
      → Short m
      → compose_message rt m
        ≡ u32_bytes (swap32 (length (rt.get_type_name m)))
          ++ (rt.get_type_name m ++ rt.serialize_as_string m)
  unfolding compose_message
  compose_message_lem m h =
      let name = rt.get_type_name m in
      let body = rt.serialize_as_string m in
      let n = swap32 (u32 (length name)) in
      let (v1, w1) = write_u32-IsValid {b = empty_buffer} n empty_buffer-IsValid (omega arith) in
      let b1 = write_u32 n empty_buffer in
      let room1 : b1.write_index + length name < 2 ^ 32 = omega (arith, w1) in
      let v2 = write-IsValid name v1 room1 in
      let room2 : (write name b1).write_index + length body < 2 ^ 32 =
        omega (arith, w1, write_index-write name b1 room1) in
      (read_all_lem (write-IsValid body v2 room2)).0
      ∙ contents-write body v2 room2
      ∙ ap (λ (xs : List ℕ). xs ++ body) (contents-write name v1 room1)
      ∙ ap (λ (xs : List ℕ). (xs ++ name) ++ body)
          (contents-write_u32 {b = empty_buffer} n empty_buffer-IsValid (omega arith))
      ∙ ap (λ (k : ℕ). u32_bytes (swap32 k) ++ (name ++ body))
          (let e : u32 (length name) ≡ length name = omega arith in e)

  abbrev to_parsed : Option rt.Message → Parsed rt.Message
  to_parsed none = unparsed
  to_parsed (some message) = parsed message

  by_word :
      (packet : List ℕ) (w : ℕ)
      → ltb (length packet) 4 ≡ false
      → u32_load packet ≡ some w
      → parse_message rt packet ≡ (
          if ltb (length packet) (u32 (swap32 w + 4))
          then unparsed
          else parse_named rt packet (swap32 w))
  unfolding parse_message
  by_word packet w long load = rw (long, load, parse_message)

  -- A packet of four bytes or more is read by the name length in front.
  by_name_length :
      (n : ℕ) (rest : List ℕ)
      → n < 2 ^ 32
      → let packet = u32_bytes (swap32 n) ++ rest in
        parse_message rt packet
        ≡ (if ltb (length packet) (u32 (n + 4)) then unparsed else parse_named rt packet n)
  by_name_length n rest h =
      by_word (u32_bytes (swap32 n) ++ rest) (swap32 n) (ground arith)
        (u32_load-u32_bytes (swap32 n) rest (swap32-lt n))
      ∙ ap
          (λ (k : ℕ).
            if ltb (length (u32_bytes (swap32 n) ++ rest)) (u32 (k + 4))
            then unparsed
            else parse_named rt (u32_bytes (swap32 n) ++ rest) k)
          (swap32-swap32 n h)

  by_name :
      (packet : List ℕ) (n : ℕ) (d : rt.Descriptor)
      → create_message rt (take n (drop 4 packet)) ≡ some d
      → parse_named rt packet n ≡ parse_body rt packet n d
  unfolding parse_named
  by_name packet n d e = rw (e, parse_named)

  by_body :
      (packet : List ℕ) (n : ℕ) (d : rt.Descriptor) (part : Option (List ℕ))
      → substr packet (4 + n) (u32 (2 ^ 64 + length packet - 4 - n)) ≡ part
      → parse_body rt packet n d
        ≡ (elim part [ none ↦ threw | some body ↦ to_parsed (rt.parse_from_string d body) ])
  unfolding parse_body
  by_body packet n d part e = rw (← e) (ground arith)

  -- The part behind the name goes to the parser of the named type.
  parse_body-layout :
      (front name body : List ℕ) (d : rt.Descriptor)
      → length front ≡ 4
      → 4 + length name + length body < 2 ^ 32
      → parse_body rt (front ++ (name ++ body)) (length name) d
        ≡ to_parsed (rt.parse_from_string d body)
  parse_body-layout front name body d f h = by_body packet (length name) d (some body) cut
    where
      packet : List ℕ
      packet = front ++ (name ++ body)

      size : length packet ≡ 4 + length name + length body
      size = omega (arith, f, length-append front (name ++ body), length-append name body)

      behind : drop (4 + length name) packet ≡ body
      behind =
          ap (drop (4 + length name)) (sym (append_assoc front name body))
          ∙ drop-append (front ++ name) body (4 + length name)
              (omega (arith, f, length-append front name))

      cut :
          substr packet (4 + length name) (u32 (2 ^ 64 + length packet - 4 - length name))
          ≡ some body
      cut = ground (
        arith,
        size,
        behind,
        take-eq_self (u32 (2 ^ 64 + length packet - 4 - length name)) body (omega (arith, size)),
      )

  parse_layout :
      (name body : List ℕ) (d : rt.Descriptor)
      → 4 + length name + length body < 2 ^ 32
      → create_message rt name ≡ some d
      → parse_message rt (u32_bytes (swap32 (length name)) ++ (name ++ body))
        ≡ to_parsed (rt.parse_from_string d body)
  parse_layout name body d h e =
      by_name_length (length name) (name ++ body) (omega arith) ∙ enough ∙ named
    where
      front : List ℕ
      front = u32_bytes (swap32 (length name))

      enough :
          (if ltb (length (front ++ (name ++ body))) (u32 (length name + 4))
            then unparsed
            else parse_named rt (front ++ (name ++ body)) (length name))
          ≡ parse_named rt (front ++ (name ++ body)) (length name)
      enough = ground (arith, length-append name body)

      named :
          parse_named rt (front ++ (name ++ body)) (length name)
          ≡ to_parsed (rt.parse_from_string d body)
      named =
          by_name (front ++ (name ++ body)) (length name) d
            (ap (create_message rt) (take-append name body (length name) refl) ∙ e)
          ∙ parse_body-layout front name body d refl h

  created :
      (doc : Documented rt) (m : rt.Message)
      → create_message rt (rt.get_type_name m) ≡ some (rt.get_descriptor m)
  unfolding create_message
  created doc m = rw (doc.known m, create_message) (rw (doc.has_prototype m, create_message))

  -- `ParseMessage` gives back the message that `ComposeMessage` was given, where the packet fits
  -- 32 bits and the protobuf library does what it documents.
  pub parse_message-compose_message :
      (doc : Documented rt) (m : rt.Message)
      → Short m
      → parse_message rt (compose_message rt m) ≡ parsed m
  parse_message-compose_message doc m h =
      ap (parse_message rt) (compose_message_lem m h)
      ∙ parse_layout (rt.get_type_name m) (rt.serialize_as_string m) (rt.get_descriptor m) h
          (created doc m)
      ∙ ap to_parsed (doc.parses m)

  -- A name length of 2 ^ 32 - 4 or more passes the length check, since adding 4 wraps. If the bytes
  -- behind it are the name of a known type, `ParseMessage` throws.
  parse_message_throws :
      (n : ℕ) (name : List ℕ) (d : rt.Descriptor)
      → 2 ^ 32 - 4 ≤ n
      → n < 2 ^ 32
      → length name < 2 ^ 32 - 4
      → create_message rt name ≡ some d
      → parse_message rt (u32_bytes (swap32 n) ++ name) ≡ threw
  parse_message_throws n name d lo hi l e = by_name_length n name hi ∙ enough ∙ named
    where
      packet : List ℕ
      packet = u32_bytes (swap32 n) ++ name

      enough :
          (if ltb (length packet) (u32 (n + 4)) then unparsed else parse_named rt packet n)
          ≡ parse_named rt packet n
      enough = ground arith

      named : parse_named rt packet n ≡ threw
      named =
          by_name packet n d (ap (create_message rt) (take-eq_self n name (omega arith)) ∙ e)
          ∙ by_body packet n d none (ground arith)
