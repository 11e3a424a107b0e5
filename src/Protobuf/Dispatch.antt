-- ===== src/Protobuf/Dispatch.antt =====
-- Protobuf messages through the packet codec, and to their handlers.
use mathlib.Core.Logic.{ite}
use ladder.Prelude.{
  append-nil, length-append, inl, ℕ, ◌+◌, ◌<◌, ◌≡◌, refl, sym, ap, ◌∙◌, ◌^◌, some, List, [], ◌∷◌,
  ◌++◌, length, arith,
}
use ladder.Buffer.{Buffer}
use ladder.Buffer.Inv.{IsValid, contents}
use ladder.Codec.{Crc, seal, encapsulate, returns}
use ladder.Codec.Stream.{AllFit, frames}
use ladder.Codec.Deliver.{deliver, joined, deliver-frames, handled, AllParse}
use ladder.Protobuf.{
  Runtime, Callbacks, format, compose_message, assign, find, register_message_callback,
  handle_message,
}
use ladder.Protobuf.RoundTrip.{Documented, parse_message-compose_message, compose_message_lem}

module _ (rt : Runtime) where
  find-assign :
      (d e : rt.Descriptor) (callback : ℕ) (l : List (rt.Descriptor × ℕ))
      → find rt e (assign rt d callback l) ≡ ite (rt.same d e) (some callback) (find rt e l)
  unfolding find assign
  find-assign d e callback [] = refl
  find-assign d e callback ((x, old) ∷ l) = ground (arith, find-assign d e callback l)

  -- A message goes to the handler last registered for its type, and a registration changes where
  -- no other message goes.
  handle_message-register_message_callback :
      (d : rt.Descriptor) (callback : ℕ) (c : Callbacks rt) (m : rt.Message)
      → handle_message rt (register_message_callback rt d callback c) m
        ≡ ite (rt.same d (rt.get_descriptor m)) (some callback) (handle_message rt c m)
  unfolding handle_message register_message_callback
  handle_message-register_message_callback d callback c m =
      ground (arith, find-assign d (rt.get_descriptor m) callback c.callbacks)

  -- Each fits a packet with its header.
  abbrev pub AllShort : List rt.Message → Type 0
  AllShort [] = Unit
  AllShort (m ∷ ms) =
      (12 + length (rt.get_type_name m) + length (rt.serialize_as_string m) < 2 ^ 32) × AllShort ms

  module _ (crc : Crc) where
    -- What the peer sends for these messages.
    abbrev pub sent : List rt.Message → List ℕ
    sent [] = []
    sent (m ∷ ms) = encapsulate crc (format rt) m ++ sent ms

    abbrev composed : List rt.Message → List (List ℕ)
    composed [] = []
    composed (m ∷ ms) = compose_message rt m ∷ composed ms

    sent-frames : (ms : List rt.Message) → sent ms ≡ frames crc (composed ms)
    unfolding encapsulate
    sent-frames [] = refl
    sent-frames (m ∷ ms) = ap (◌++◌ (seal crc (compose_message rt m))) (sent-frames ms)

    composed-AllFit : (ms : List rt.Message) → AllShort ms → AllFit (composed ms)
    composed-AllFit [] a = tt
    composed-AllFit (m ∷ ms) a = (
      omega (
        arith,
        ap length (compose_message_lem rt m (omega arith)),
        length-append (rt.get_type_name m) (rt.serialize_as_string m),
      ),
      composed-AllFit ms a.1,
    )

    module _ (doc : Documented rt) where
      composed-AllParse :
          (ms : List rt.Message) → AllShort ms → AllParse crc (format rt) (composed ms)
      composed-AllParse [] a = tt
      composed-AllParse (m ∷ ms) a =
          (λ e. cc (parse_message-compose_message rt doc m (omega arith)), composed-AllParse ms a.1)

      handled-composed :
          (ms : List rt.Message) → AllShort ms → handled crc (format rt) (composed ms) ≡ ms
      handled-composed [] a = refl
      handled-composed (m ∷ ms) a =
          rw (parse_message-compose_message rt doc m (omega arith))
            (ap (◌∷◌ m) (handled-composed ms a.1))

      -- From `Encapsulate` on one side to the handlers on the other: the messages that were sent
      -- are handled once each, in the order of sending, however the stream is cut on its way, and
      -- nothing stays in the buffer.
      pub deliver-sent :
          (chunks : List (List ℕ)) (ms : List rt.Message) {b : Buffer}
          → IsValid b
          → contents b ≡ []
          → AllShort ms
          → joined crc (format rt) chunks ≡ sent ms
          → b.write_index + length (joined crc (format rt) chunks) < 2 ^ 32
          → (b' : Buffer) × (deliver crc (format rt) chunks b ≡ returns (ms, b'))
            × (contents b' ≡ [])
      deliver-sent chunks ms {b} v empty a e room =
          let (b', run, rest) =
            deliver-frames crc (format rt) chunks (composed ms) [] v (composed-AllFit ms a)
              (composed-AllParse ms a) (inl (omega (arith, ap length empty))) (inl (omega arith))
              (ap (λ (xs : List ℕ). xs ++ joined crc (format rt) chunks) empty
                ∙ e
                ∙ sent-frames ms
                ∙ sym (append-nil (frames crc (composed ms))))
              room in
          (b', run ∙ ap (λ (xs : List rt.Message). returns (xs, b')) (handled-composed ms a), rest)
