-- ===== src/Http/Codec.antt =====
-- `HttpCodec::OnClientMessage` of examples/http/HttpCodec.cpp.
pub mod Framing
use ladder.Prelude.{
  ◌-◌, ◌^◌, ℕ, suc, Bool, not, ◌||◌, Option, none, some, List, [], ◌∷◌, ◌++◌, length, ◌==◌,
  if◌then◌else◌,
}
use ladder.Prelude.Text.{or_empty, codes, ℤ, pos, negsuc, same_text, assign_number}
use ladder.GZip.{Zlib}
use ladder.GZip
use ladder.Buffer.{is_empty, Buffer, readable_bytes, peek, have_read}
use ladder.Http.Tables.{encoding_gzip, field_content_encoding, status_ok}
use ladder.Http.Message.{
  HttpContext, new_context, Parsed, parsed, thrown, parse_message, handle_request, prepare_response,
  compose_headers,
}

-- `ReadFileAsString` gives no characters for a file that is not there.
pub record World : Type 0 where
  pub files : List ℕ → Option (List ℕ)
  pub deflate_file : List ℕ → List ℕ

-- The world with files and zlib, whose loops run on so much fuel.
abbrev pub world_of : {Stream : Type 0} → Zlib Stream → ℕ → (List ℕ → Option (List ℕ)) → World
world_of z fuel found = record {
  files = found;
  deflate_file = λ path. or_empty (GZip.deflate_file z fuel (found path));
}

unfoldable pub read_file_as_string : World → List ℕ → List ℕ
read_file_as_string w path = elim (w.files path) [ none ↦ [] | some content ↦ content ]

-- What is asked of the connection.
pub data Act : Type 0 where
  sends : List ℕ → Act
  sends_file : List ℕ → List ℕ → Act
  shuts_down_write : Act

-- A callback of the server changes both contexts.
abbrev pub MessageCallback : Type 0
MessageCallback = HttpContext → HttpContext → HttpContext × HttpContext

unfoldable pub call_server :
    Option MessageCallback → HttpContext → HttpContext → HttpContext × HttpContext
call_server none request response = (request, response)
call_server (some callback) request response = callback request response

pub composed : HttpContext → List ℕ
composed response = compose_headers (prepare_response response) response

-- The answer where the status is that of success.
unfoldable pub respond_ok : World → Bool → HttpContext → HttpContext → Act
unfolding composed read_file_as_string
respond_ok w send_file request response =
    if not send_file || (request.content_encoding == encoding_gzip)
    then (if request.content_encoding == encoding_gzip
        then (let filebuf = w.deflate_file response.uri in
            sends (
              composed (record response {
                headers = assign_number field_content_encoding (codes "gzip") response.headers;
                content_length = length filebuf;
              })
              ++ filebuf))
        else (let filebuf = read_file_as_string w response.uri in
            sends (composed (record response { content_length = length filebuf }) ++ filebuf)))
    else sends_file (composed response) response.uri

unfoldable pub respond : World → Bool → HttpContext → HttpContext → List Act
unfolding respond_ok composed
respond w send_file request response =
    (if response.status_code == status_ok
      then respond_ok w send_file request response
      else sends (composed response))
    ∷ (if same_text request.version (codes "HTTP/1.0") then shuts_down_write ∷ [] else [])

-- `HaveRead(length)`: a negative `length` becomes a `size_t` beyond all contents.
pub skip : ℤ → Buffer → Buffer
skip (pos n) b = have_read n b
skip (negsuc n) b = have_read (2 ^ 64 - suc n) b

-- `request->context()->status_code_ = status`; a request's status is never negative here.
abbrev pub with_status : ℤ → HttpContext → HttpContext
with_status (pos n) c = record c { status_code = n }
with_status (negsuc n) c = c

-- What comes of one message; `raised` is an exception.
pub data Handled : Type 0 where
  handled : List Act → Buffer → Handled
  raised : Handled

-- What is asked of the connection once the server has seen the request.
abbrev pub answer : World → Bool → Option MessageCallback → HttpContext → HttpContext → List Act
answer w send_file callback raw request =
    let (request', response) = call_server callback request (new_context raw) in
    respond w send_file request' response

abbrev pub on_parsed :
    World → Bool → Option MessageCallback → HttpContext → Buffer → Parsed → Handled
on_parsed w send_file callback raw b thrown = raised
on_parsed w send_file callback raw b (parsed (negsuc n) total request) = handled [] b
on_parsed w send_file callback raw b (parsed (pos status) total request) =
    handled (answer w send_file callback raw (with_status (pos status) request)) (skip total b)

-- The contexts are made from memory that holds `raw`.
pub on_client_message : World → Bool → Option MessageCallback → HttpContext → Buffer → Handled
on_client_message w send_file callback raw b =
    on_parsed w send_file callback raw b
      (parse_message handle_request (new_context raw) (peek (readable_bytes b) b).1)
