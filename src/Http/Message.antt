-- ===== src/Http/Message.antt =====
-- Messages of examples/http/HttpCodec.cpp: parsing and composing.
pub mod Frame
pub mod StartLine
use ladder.Prelude.{
  ℕ, suc, ◌+◌, ◌-◌, ◌*◌, Bool, true, false, ◌||◌, Option, none, some, List, [], ◌∷◌, ◌++◌, length,
  take, drop, ltb, ◌==◌, if◌then◌else◌,
}
use ladder.Prelude.Text.{
  codes, ℤ, pos, negsuc, substr, find_text, find_number, assign_number, to_string, atoi,
}
use ladder.Utils.{find_substr}
use ladder.Http.Tables.{
  header_break, http_status, http_request_methods, http_request_method_strs, header_fields,
  header_field_strs, content_encodings, encoding_gzip, encoding_identity, field_content_length,
  field_connection, field_accept_encoding, status_ok, status_bad_request, status_method_not_allowed,
  status_not_acceptable,
}
use ladder.Http.Split.{split_string}

pub record HttpContext : Type 0 where
  pub method : ℤ
  pub uri : List ℕ
  pub version : List ℕ
  pub start_line : List ℕ
  pub headers : List (ℕ × List ℕ)
  pub payload : List ℕ
  pub status_code : ℕ
  pub content_encoding : ℕ
  pub content_length : ℕ

-- The constructors set no number; the argument holds what the numbers are before.
unfoldable pub new_context : HttpContext → HttpContext
new_context raw = record raw {
  uri = [];
  version = codes "HTTP/1.1";
  start_line = [];
  headers = assign_number field_connection (codes "close") [];
  payload = [];
}

unfoldable pub clear : HttpContext → HttpContext
clear c = record c { uri = []; headers = []; start_line = []; payload = [] }

pub encoding_supported : ℕ → Bool
encoding_supported encoding = (encoding == encoding_identity) || (encoding == encoding_gzip)

-- The place of the first colon.
unfoldable pub position_colon : List ℕ → Option ℕ
position_colon [] = none
position_colon (c ∷ line) =
    if c == b':' then some 0 else elim (position_colon line) [ none ↦ none | some j ↦ some (suc j) ]

-- The headers so far, or a line without a colon behind them, or the exception of `substr`.
pub data Headers : Type 0 where
  headers_are : List (ℕ × List ℕ) → Headers
  bad_line : List (ℕ × List ℕ) → Headers
  throws : Headers

-- One line behind the first.
unfoldable pub parse_line : List ℕ → List (ℕ × List ℕ) → Headers
unfolding position_colon
parse_line line headers = elim (position_colon line) [
  | none ↦ bad_line headers
  | some colon ↦ elim (find_text (take colon line) header_fields) [
    | none ↦ headers_are headers
    | some field ↦ elim (substr line (colon + 2) (length line - colon - 2)) [
      | none ↦ throws
      | some value ↦ headers_are (assign_number field value headers)
    ]
  ]
]

unfoldable pub parse_lines : List (List ℕ) → List (ℕ × List ℕ) → Headers
unfolding parse_line
parse_lines [] headers = headers_are headers
parse_lines (line ∷ lines) headers = elim (parse_line line headers) [
  | headers_are more ↦ parse_lines lines more
  | bad_line more ↦ bad_line more
  | throws ↦ throws
]

-- The result of `ParseMessage`, its `length` and the context afterwards; `thrown` is an exception.
pub data Parsed : Type 0 where
  parsed : ℤ → ℤ → HttpContext → Parsed
  thrown : Parsed

-- How much payload there is: `none` is too little so far.
pub payload_length : List (ℕ × List ℕ) → ℕ → Option ℤ
payload_length headers available = elim (find_number field_content_length headers) [
  | none ↦ some (pos 0)
  | some value ↦ elim (atoi value) [
    | pos n ↦ if ltb available n then none else some (pos n)
    | negsuc n ↦ some (negsuc n)
  ]
]

-- `length` and the payload, where the header block with its blank line takes so many characters.
-- A negative count is the largest of all counts for `substr`.
abbrev pub total_length : ℕ → ℤ → ℤ
total_length before (pos n) = pos (before + n)
total_length before (negsuc n) = if ltb n before then pos (before - suc n) else negsuc (n - before)

abbrev pub payload_of : List ℕ → ℕ → ℤ → List ℕ
payload_of message before (pos n) = take n (drop before message)
payload_of message before (negsuc n) = drop before message

module _ (handle_message : HttpContext → ℤ × HttpContext) where
  pub handled : HttpContext → ℤ → Parsed
  handled c total = let (status, c') = handle_message c in parsed status total c'

  pub parse_payload : List ℕ → ℕ → HttpContext → Parsed
  unfolding handled payload_length
  parse_payload message before c = elim (payload_length c.headers (length message - before)) [
    | none ↦ parsed (negsuc 0) (pos 0) c
    | some n ↦ handled (record c { payload = payload_of message before n }) (total_length before n)
  ]

  -- The header block: its lines, the first of them apart.
  pub parse_block : List ℕ → ℕ → List (List ℕ) → HttpContext → Parsed
  unfolding parse_lines parse_payload
  parse_block message before [] c = parse_payload message before c
  parse_block message before (first ∷ lines) c = elim (parse_lines lines c.headers) [
    | headers_are headers ↦
        parse_payload message before (record c { start_line = first; headers = headers })
    | bad_line headers ↦
        parsed (pos status_bad_request) (pos 0) (record c { start_line = first; headers = headers })
    | throws ↦ thrown
  ]

  -- By the places of the blank line.
  pub parse_places : HttpContext → List ℕ → List ℕ → Parsed
  unfolding parse_block clear
  parse_places c message [] = parsed (negsuc 0) (pos 0) c
  parse_places c message (b ∷ more) =
      parse_block message (b + 2 * length header_break) (split_string (take b message) header_break)
        (clear c)

  pub parse_message : HttpContext → List ℕ → Parsed
  unfolding parse_places
  parse_message c message =
      parse_places c message (find_substr message (header_break ++ header_break))

-- The first of the encodings offered that the server has.
pub choose_encoding : List (List ℕ) → ℕ → ℕ
unfolding encoding_supported
choose_encoding [] chosen = chosen
choose_encoding (enc ∷ rest) chosen = elim (find_text enc content_encodings) [
  | none ↦ choose_encoding rest chosen
  | some encoding ↦ elim (encoding_supported encoding) [
    | true ↦ encoding
    | false ↦ choose_encoding rest chosen
  ]
]

pub accepted_encoding : List (ℕ × List ℕ) → ℕ
unfolding choose_encoding
accepted_encoding headers = elim (find_number field_accept_encoding headers) [
  | none ↦ encoding_identity
  | some offered ↦ choose_encoding (split_string offered (codes ", ")) encoding_identity
]

-- `HttpRequest::HandleMessage`, by the fields of the start line.
pub handle_fields : List (List ℕ) → HttpContext → ℤ × HttpContext
unfolding accepted_encoding
handle_fields (method ∷ [] ∷ version ∷ []) c = elim (find_text method http_request_methods) [
  | none ↦ (pos status_method_not_allowed, c)
  | some code ↦ (pos status_bad_request, record c { method = pos code })
]
handle_fields (method ∷ (slash ∷ path) ∷ version ∷ []) c =
    elim (find_text method http_request_methods) [
      | none ↦ (pos status_method_not_allowed, c)
      | some code ↦
          if slash == b'/'
          then (
            pos status_ok,
            record c {
              method = pos code;
              uri = path;
              version = version;
              content_encoding = accepted_encoding c.headers;
            },
          )
          else (pos status_bad_request, record c { method = pos code })
    ]
handle_fields _ c = (pos status_bad_request, c)

pub handle_request : HttpContext → ℤ × HttpContext
unfolding handle_fields
handle_request c = handle_fields (split_string c.start_line (codes " ")) c

-- `HttpResponse::HandleMessage`.
pub handle_response_encoding : HttpContext → ℤ × HttpContext
unfolding encoding_supported
handle_response_encoding c = elim (find_number field_accept_encoding c.headers) [
  | none ↦ (pos 0, c)
  | some offered ↦ elim (split_string offered (codes ", ")) [
    | [] ↦ (pos 0, c)
    | (first ∷ rest) ↦ elim (find_text first content_encodings) [
      | none ↦ (pos status_not_acceptable, c)
      | some encoding ↦
          if encoding_supported encoding
          then (pos 0, record c { content_encoding = encoding })
          else (pos status_not_acceptable, c)
    ]
  ]
]

pub handle_response_fields : List (List ℕ) → HttpContext → ℤ × HttpContext
unfolding handle_response_encoding
handle_response_fields (version ∷ status ∷ phrase ∷ []) c =
    elim (find_text version http_request_methods) [
      | none ↦ (negsuc 0, c)
      | some code ↦ handle_response_encoding (record c {
        version = version;
        method = atoi status;
        content_encoding = encoding_identity;
      })
    ]
handle_response_fields _ c = (negsuc 0, c)

pub handle_response : HttpContext → ℤ × HttpContext
unfolding handle_response_fields
handle_response c = handle_response_fields (split_string c.start_line (codes " ")) c

-- `kHttpRequestMethodStrs`, which has no negative number.
unfoldable pub method_name : ℤ → Option (List ℕ)
method_name (pos code) = find_number code http_request_method_strs
method_name (negsuc n) = none

-- `PrepareMessage`: the start line, if there is one.
unfoldable pub start_line_of : Option (List ℕ) → HttpContext → Option (List ℕ)
start_line_of none c = none
start_line_of (some name) c = some (name ++ (codes " " ++ (c.uri ++ (codes " " ++ c.version))))

unfoldable pub prepare_request : HttpContext → Option (List ℕ)
unfolding method_name start_line_of
prepare_request c = start_line_of (method_name c.method) c

pub prepare_response : HttpContext → Option (List ℕ)
prepare_response c = elim (find_number c.status_code http_status) [
  | none ↦ none
  | some phrase ↦ some (c.version ++ (codes " " ++ phrase))
]

pub compose_lines : List (ℕ × List ℕ) → List ℕ
compose_lines [] = []
compose_lines ((field, value) ∷ headers) = elim (find_number field header_field_strs) [
  | none ↦ compose_lines headers
  | some name ↦ name ++ (codes ": " ++ (value ++ (header_break ++ compose_lines headers)))
]

-- What `ComposeHeaders` appends, by the result of `PrepareMessage`.
pub compose_headers : Option (List ℕ) → HttpContext → List ℕ
unfolding compose_lines
compose_headers none c = []
compose_headers (some start) c =
    start
    ++ (header_break
        ++ (compose_lines
              (assign_number field_content_length (to_string c.content_length) c.headers)
            ++ header_break))
