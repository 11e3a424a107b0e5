-- ===== src/Http/Codec/Framing.antt =====
-- What the codec does with the contents of the buffer.
use ladder.Prelude.{
  drop-append, append_assoc, length-append, take-eq_self, ℕ, ◌+◌, ◌<◌, ◌≡◌, sym, ap, ◌∙◌, Bool,
  Option, List, [], ◌++◌, length, drop, arith,
}
use ladder.Prelude.Text.{pos}
use ladder.Buffer.{Buffer, readable_bytes, peek, have_read}
use ladder.Buffer.Inv.{
  IsValid, contents, readable_bytes-eq-length, length-contents, have_read-IsValid,
}
use ladder.Buffer.Refine.{contents-have_read, peek_lem}
use ladder.Utils.Occurrences.{occurrences}
use ladder.Utils.Places.{Unplaced}
use ladder.Http.Message.{
  HttpContext, new_context, clear, Parsed, parsed, parse_message, handle_request,
}
use ladder.Http.Message.Frame.{blank_line, Says, Announces, parse_message_complete, handled_lem}
use ladder.Http.Codec.{
  World, MessageCallback, Handled, answer, with_status, on_parsed, on_client_message, skip,
}

peek_all : {b : Buffer} → IsValid b → (peek (readable_bytes b) b).1 ≡ contents b
peek_all {b} v =
    ap (λ (p : ℕ × List ℕ). p.1)
      (peek_lem (readable_bytes b) v
        (omega (arith, readable_bytes-eq-length v, length-contents v, v.in_word)))
    ∙ take-eq_self (readable_bytes b) (contents b) (omega (arith, readable_bytes-eq-length v))

-- The block and what follows a message is not there yet, or less of it than is announced.
pub data IsIncomplete : List ℕ → Type 0 where
  no_end : {message : List ℕ} → occurrences message blank_line ≡ [] → IsIncomplete message
  short :
      {message : List ℕ} (block start : List ℕ) (headers : List (ℕ × List ℕ)) (payload : List ℕ)
      (n : ℕ)
      → message ≡ block ++ (blank_line ++ payload)
      → Unplaced block blank_line
      → Says block start headers
      → Announces headers n
      → length payload < n
      → IsIncomplete message

module _ (w : World) (send_file : Bool) (callback : Option MessageCallback)
    (raw : HttpContext) where
  by_contents :
      {b : Buffer} (message : List ℕ) (result : Parsed)
      → IsValid b
      → contents b ≡ message
      → parse_message handle_request (new_context raw) message ≡ result
      → on_client_message w send_file callback raw b ≡ on_parsed w send_file callback raw b result
  unfolding on_client_message
  by_contents {b} message result v e h =
      ap (on_parsed w send_file callback raw b)
        (ap (parse_message handle_request (new_context raw)) (peek_all v ∙ e) ∙ h)

  -- A complete message, alone or with more behind it, is handed over with its own payload, answered
  -- once and taken from the buffer, which keeps what is behind it.
  pub on_client_message_complete :
      (b : Buffer) (block start : List ℕ) (headers : List (ℕ × List ℕ)) (payload rest : List ℕ)
      (status : ℕ) (request : HttpContext)
      → IsValid b
      → contents b ≡ block ++ (blank_line ++ (payload ++ rest))
      → Unplaced block blank_line
      → Says block start headers
      → Announces headers (length payload)
      → handle_request (record (clear (new_context raw)) {
        start_line = start;
        headers = headers;
        payload = payload;
      })
        ≡ (pos status, request)
      → (b' : Buffer) × (on_client_message w send_file callback raw b
          ≡ Handled.handled (answer w send_file callback raw (with_status (pos status) request)) b')
        × IsValid b'
        × (contents b' ≡ rest)
  unfolding skip
  on_client_message_complete b block start headers payload rest status request v e unplaced says
        announced h =
      let total = length block + 4 + length payload in
      let split : length (contents b) ≡ total + length rest =
        ap length e
        ∙ omega (
          arith,
          length-append block (blank_line ++ (payload ++ rest)),
          length-append payload rest,
        ) in
      (
        have_read total b,
        by_contents (block ++ (blank_line ++ (payload ++ rest)))
            (parsed (pos status) (pos total) request) v e
            (parse_message_complete handle_request (new_context raw) block start headers payload
                rest unplaced says announced
              ∙ handled_lem handle_request _ request (pos status) (pos total) h),
        have_read-IsValid total v,
        contents-have_read total v (omega (arith, split, length-contents v, v.in_word))
            ∙ ap (drop total) (
                e
                ∙ sym (append_assoc block blank_line (payload ++ rest))
                ∙ sym (append_assoc (block ++ blank_line) payload rest))
            ∙ drop-append ((block ++ blank_line) ++ payload) rest total (
                omega (
                  arith,
                  length-append (block ++ blank_line) payload,
                  length-append block blank_line,
                )),
      )
