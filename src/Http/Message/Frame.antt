-- ===== src/Http/Message/Frame.antt =====
-- Where a message ends: the blank line, and the payload behind it.
use ladder.Prelude.{
  inr, drop-append_right, inl, length-append, ◌-◌, if◌then◌else◌, ◌<◌, ◌⊎◌, take-append, ℕ, zero,
  suc, ◌+◌, ◌≡◌, refl, ap, ◌∙◌, none, some, List, [], ◌∷◌, ◌++◌, length, arith,
}
use ladder.Prelude.Text.{ℤ, pos, negsuc, find_number, atoi}
use ladder.Utils.Search.{find_substr-occurrences}
use ladder.Utils.Occurrences.{NoZero, occurrences}
use ladder.Utils.Places.{Unplaced, first_place}
use ladder.Http.Tables.{header_break, field_content_length}
use ladder.Http.Split.{split_string}
use ladder.Http.Message.{
  status_bad_request, bad_line, take, ltb, handled, payload_length, parse_payload, parse_places,
  HttpContext, clear, headers_are, parse_lines, parsed, parse_block, parse_message,
}

abbrev pub blank_line : List ℕ
blank_line = header_break ++ header_break

blank_line-NoZero : NoZero blank_line
blank_line-NoZero zero h e = omega arith
blank_line-NoZero (suc zero) h e = omega arith
blank_line-NoZero (suc (suc zero)) h e = omega arith
blank_line-NoZero (suc (suc (suc zero))) h e = omega arith
blank_line-NoZero (suc (suc (suc (suc k)))) h e = omega arith

module _ (handle_message : HttpContext → ℤ × HttpContext) (c : HttpContext) where
  pub parse_message-block :
      (block behind : List ℕ)
      → Unplaced block blank_line
      → parse_message handle_message c (block ++ (blank_line ++ behind))
        ≡ parse_block handle_message
            (block ++ (blank_line ++ behind))
            (length block + 4)
            (split_string block header_break)
            (clear c)
  unfolding parse_message parse_places
  parse_message-block block behind unplaced =
      let (ps, e) = first_place block blank_line behind unplaced in
      ap (parse_places handle_message c (block ++ (blank_line ++ behind)))
        (find_substr-occurrences (block ++ (blank_line ++ behind)) blank_line blank_line-NoZero ∙ e)
      ∙ ap
          (λ (t : List ℕ).
            parse_block handle_message (block ++ (blank_line ++ behind)) (length block + 4)
              (split_string t header_break) (clear c))
          (take-append block (blank_line ++ behind) (length block) refl)

  pub parse_message-no_end :
      (message : List ℕ)
      → occurrences message blank_line ≡ []
      → parse_message handle_message c message ≡ parsed (negsuc 0) (pos 0) c
  unfolding parse_message parse_places
  parse_message-no_end message h =
      ap (parse_places handle_message c message)
        (find_substr-occurrences message blank_line blank_line-NoZero ∙ h)

-- What the header block says: its first line, the headers of the others.
pub record Says (block start : List ℕ) (headers : List (ℕ × List ℕ)) : Type 0 where
  pub rest_lines : List (List ℕ)
  pub has_lines : split_string block header_break ≡ start ∷ rest_lines
  pub has_headers : parse_lines rest_lines [] ≡ headers_are headers

-- How much payload the headers announce.
abbrev pub Announces : List (ℕ × List ℕ) → ℕ → Type 0
Announces headers n =
    (find_number field_content_length headers ≡ none) × (n ≡ 0)
    ⊎ (value : List ℕ) × (find_number field_content_length headers ≡ some value)
      × (atoi value ≡ pos n)

payload_length_lem :
    (headers : List (ℕ × List ℕ)) (n available : ℕ)
    → Announces headers n
    → payload_length headers available ≡ (if ltb available n then none else some (pos n))
unfolding payload_length
payload_length_lem headers n available (inl (absent, e)) =
    rw (absent, payload_length) (ground arith)
payload_length_lem headers n available (inr (value, present, e)) =
    rw (present, payload_length) (rw e refl)

module _ (handle_message : HttpContext → ℤ × HttpContext) (c : HttpContext) where
  parse_block-Says :
      (message : List ℕ) (before : ℕ) (block start : List ℕ) (headers : List (ℕ × List ℕ))
      → Says block start headers
      → parse_block handle_message message before (split_string block header_break) (clear c)
        ≡ parse_payload handle_message message before
            (record (clear c) { start_line = start; headers = headers })
  unfolding parse_block clear
  parse_block-Says message before block start headers says =
      ap (λ (lines : List (List ℕ)). parse_block handle_message message before lines (clear c))
        (says.has_lines)
      ∙ rw (says.has_headers, parse_block) refl

  behind_length :
      (block behind : List ℕ)
      → length (block ++ (blank_line ++ behind)) - (length block + 4) ≡ length behind
  behind_length block behind = omega (arith, length-append block (blank_line ++ behind))

  pub parse_message_complete :
      (block start : List ℕ) (headers : List (ℕ × List ℕ)) (payload rest : List ℕ)
      → Unplaced block blank_line
      → Says block start headers
      → Announces headers (length payload)
      → parse_message handle_message c (block ++ (blank_line ++ (payload ++ rest)))
        ≡ handled handle_message
            (record (clear c) { start_line = start; headers = headers; payload = payload })
            (pos (length block + 4 + length payload))
  unfolding parse_payload clear
  parse_message_complete block start headers payload rest unplaced says announced =
      let message = block ++ (blank_line ++ (payload ++ rest)) in
      let enough : payload_length headers (length message - (length block + 4))
          ≡ some (pos (length payload)) =
        payload_length_lem headers (length payload) (length message - (length block + 4)) announced
        ∙ ground (arith, behind_length block (payload ++ rest), length-append payload rest) in
      parse_message-block handle_message c block (payload ++ rest) unplaced
      ∙ parse_block-Says message (length block + 4) block start headers says
      ∙ rw (enough, parse_payload)
          (ap
            (λ (p : List ℕ).
              handled handle_message
                (record (clear c) { start_line = start; headers = headers; payload = p })
                (pos (length block + 4 + length payload)))
            (ap (take (length payload))
                (drop-append_right block (blank_line ++ (payload ++ rest)) (length block) 4 refl)
              ∙ take-append payload rest (length payload) refl))

  pub parse_message-short :
      (block start : List ℕ) (headers : List (ℕ × List ℕ)) (payload : List ℕ) (n : ℕ)
      → Unplaced block blank_line
      → Says block start headers
      → Announces headers n
      → length payload < n
      → parse_message handle_message c (block ++ (blank_line ++ payload))
        ≡ parsed (negsuc 0) (pos 0) (record (clear c) { start_line = start; headers = headers })
  unfolding parse_payload clear
  parse_message-short block start headers payload n unplaced says announced short =
      let message = block ++ (blank_line ++ payload) in
      let enough : payload_length headers (length message - (length block + 4)) ≡ none =
        payload_length_lem headers n (length message - (length block + 4)) announced
        ∙ ground (arith, behind_length block payload) in
      parse_message-block handle_message c block payload unplaced
      ∙ parse_block-Says message (length block + 4) block start headers says
      ∙ rw (enough, parse_payload) refl

pub handled_lem :
    (handle_message : HttpContext → ℤ × HttpContext) (c c' : HttpContext) (status total : ℤ)
    → handle_message c ≡ (status, c')
    → handled handle_message c total ≡ parsed status total c'
unfolding handled
handled_lem handle_message c c' status total h =
    ap (λ (p : ℤ × HttpContext). parsed p.0 total p.1) h

pub parse_message-bad_line :
    (handle_message : HttpContext → ℤ × HttpContext) (c : HttpContext) (block start : List ℕ)
    (lines : List (List ℕ)) (headers : List (ℕ × List ℕ)) (behind : List ℕ)
    → Unplaced block blank_line
    → split_string block header_break ≡ start ∷ lines
    → parse_lines lines [] ≡ bad_line headers
    → parse_message handle_message c (block ++ (blank_line ++ behind))
      ≡ parsed
          (pos status_bad_request)
          (pos 0)
          (record (clear c) { start_line = start; headers = headers })
unfolding parse_block clear
parse_message-bad_line handle_message c block start lines headers behind unplaced split bad =
    parse_message-block handle_message c block behind unplaced
    ∙ ap
        (λ (ls : List (List ℕ)).
          parse_block handle_message (block ++ (blank_line ++ behind)) (length block + 4) ls
            (clear c))
        split
    ∙ rw (bad, parse_block) refl
