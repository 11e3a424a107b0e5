-- ===== src/Codec.antt =====
-- ladder/src/codec/Codec.cpp: length-prefixed, checksummed packets over a byte stream.
-- zlib's `crc32` and the virtual functions of a codec are parameters.
pub mod Frame
pub mod Stream
pub mod Deliver
mod Tests
use ladder.Prelude.{
  ℕ, zero, suc, ◌+◌, ◌≡◌, Bool, true, false, Option, some, none, List, [], ◌∷◌, ◌++◌, drop, length,
  ltb, ◌==◌, if◌then◌else◌,
}
use ladder.Prelude.Word.{u32, u32_bytes, swap32}
use ladder.Buffer.{Buffer, readable_bytes, peek, peek_u32, have_read, string_u32}

-- `crc32(0L, Z_NULL, 0)` and `crc32(c, bytes, n)`.
pub record Crc : Type 0 where
  pub init : ℕ
  pub update : ℕ → List ℕ → ℕ

-- What `ParseMessage` does: `parsed` is true and a message, `unparsed` is false or a null message,
-- and `threw` is an exception, which leaves `OnMessage`.
pub data Parsed (Message : Type 0) : Type 0 where
  parsed : Message → Parsed Message
  unparsed : Parsed Message
  threw : Parsed Message

pub record Format (Message : Type 0) : Type 0 where
  pub compose_message : Message → List ℕ
  pub parse_message : List ℕ → Parsed Message

-- `fault` is a read outside the packet, `thrown` an exception; `stuck` is no result of the code: the fuel ran out.
pub data Result (A : Type 0) : Type 0 where
  returns : A → Result A
  fault : Result A
  thrown : Result A
  stuck : Result A

abbrev pub header_length : ℕ
header_length = 8

module _ (crc : Crc) where
  unfoldable pub checksum : List ℕ → ℕ
  checksum raw = u32 (crc.update (u32 crc.init) raw)

  pub seal : List ℕ → List ℕ
  unfolding checksum
  seal raw =
      u32_bytes (swap32 (u32 (header_length + length raw)))
      ++ (u32_bytes (swap32 (checksum raw)) ++ raw)

  unfoldable pub encapsulate : {Message : Type 0} → Format Message → Message → List ℕ
  unfolding seal
  encapsulate f message = seal (f.compose_message message)

  -- `buf.size() - kHeaderLength` wraps for a packet shorter than its header, and the checksum is
  -- then taken over memory behind the packet.
  check_packet : List ℕ → List ℕ → Buffer → Result (Bool × List ℕ × Buffer)
  unfolding checksum
  check_packet raw_data buf b =
      if ltb (length buf) header_length then fault else elim (string_u32 (drop 4 buf)) [
        | none ↦ fault
        | some word ↦
            if swap32 word == checksum (drop header_length buf)
            then returns (true, drop header_length buf, b)
            else returns (false, raw_data, b)
      ]

  take_packet : List ℕ → Buffer → ℕ → Result (Bool × List ℕ × Buffer)
  unfolding check_packet
  take_packet raw_data b len =
      if ltb (readable_bytes b) len
      then returns (false, raw_data, b)
      else check_packet raw_data (peek len b).1 (have_read len b)

  -- The result, `raw_data` and the buffer afterwards.
  pub decapsulate : List ℕ → Buffer → Result (Bool × List ℕ × Buffer)
  unfolding take_packet
  decapsulate raw_data b =
      if ltb (readable_bytes b) header_length
      then returns (false, raw_data, b)
      else elim (peek_u32 b) [ none ↦ fault | some word ↦ take_packet raw_data b (swap32 word) ]

  -- The message of this packet, before what the later rounds hand on.
  abbrev pub parse_and_handle :
      {Message : Type 0}
      → Parsed Message
      → Result (List Message × Buffer)
      → Result (List Message × Buffer)
  parse_and_handle (parsed m) (returns (ms, b)) = returns (m ∷ ms, b)
  parse_and_handle (parsed m) rest = rest
  parse_and_handle unparsed rest = rest
  parse_and_handle threw rest = thrown

  -- The messages handed to `HandleMessage`, in order, and the buffer afterwards. The loop's string
  -- keeps its contents from round to round.
  pub on_message :
      {Message : Type 0} → Format Message → ℕ → List ℕ → Buffer → Result (List Message × Buffer)
  on_message f zero packet b = stuck
  on_message f (suc fuel) packet b = elim (decapsulate packet b) [
    | returns (true, packet', b') ↦
        parse_and_handle (f.parse_message packet') (on_message f fuel packet' b')
    | returns (false, packet', b') ↦ returns ([], b')
    | fault ↦ fault
    | thrown ↦ thrown
    | stuck ↦ stuck
  ]
