-- ===== src/Http/Server.antt =====
-- examples/http/HttpServer.cpp, and the handler of examples/http/server.cpp.
pub mod Get
pub mod Serve
use ladder.Prelude.{
  ℕ, Bool, true, Option, none, some, List, [], ◌∷◌, ◌++◌, length, leb, ◌==◌, if◌then◌else◌,
}
use ladder.Prelude.Text.{or_empty, codes, ℤ, pos, negsuc, find_text, find_number, assign_number}
use ladder.Http.Tables.{
  status_ok, status_not_found, status_not_implemented, field_content_type, encoding_identity,
}
use ladder.Http.Mime.{file_format_compressible, file_mime_type_codes, file_mime_types}
use ladder.Http.Message.{HttpContext, clear}
use ladder.Http.Codec.{World, MessageCallback}

-- `callbacks_`, by method.
pub register_callback :
    ℕ → MessageCallback → List (ℕ × MessageCallback) → List (ℕ × MessageCallback)
register_callback method callback callbacks = assign_number method callback callbacks

pub find_callback : ℤ → List (ℕ × MessageCallback) → Option MessageCallback
find_callback (pos method) callbacks = find_number method callbacks
find_callback (negsuc n) callbacks = none

-- `HttpServer::OnMessage`.
pub on_message : List (ℕ × MessageCallback) → MessageCallback
unfolding find_callback clear
on_message callbacks ctx1 ctx2 =
    let fresh = record (clear ctx2) { version = ctx1.version } in
    elim (find_callback ctx1.method callbacks) [
      | none ↦ (ctx1, record fresh { status_code = status_not_implemented })
      | some callback ↦ callback ctx1 fresh
    ]

abbrev pub unknown_file_mime_type : List ℕ
unknown_file_mime_type = codes "application/octet-stream"

abbrev pub compressible_file_size_threshold : ℕ
compressible_file_size_threshold = 2048

-- What follows the last dot; there is none without a dot.
pub last_suffix : List ℕ → Option (List ℕ)
last_suffix [] = none
last_suffix (c ∷ rest) = elim (last_suffix rest) [
  | some suffix ↦ some suffix
  | none ↦ if c == b'.' then some rest else none
]

-- `none` is -1.
pub get_file_suffix : List ℕ → Option ℕ
unfolding last_suffix
get_file_suffix filename = find_text (or_empty (last_suffix filename)) file_mime_type_codes

pub mime_type : Option ℕ → List ℕ
mime_type none = unknown_file_mime_type
mime_type (some fmt) = elim (find_number fmt file_mime_types) [
  | none ↦ unknown_file_mime_type
  | some type ↦ type
]

-- `fmt <= kFileFormatCompressible`; -1 is.
abbrev pub keeps_format : Option ℕ → Bool
keeps_format none = true
keeps_format (some fmt) = leb fmt file_format_compressible

-- The size of a file; `none` is -1.
pub get_file_size : World → List ℕ → Option ℕ
get_file_size w path = elim (w.files path) [ none ↦ none | some content ↦ some (length content) ]

-- `file_size <= kCompressibleFileSizeThreshold`; -1 is.
abbrev pub is_small : Option ℕ → Bool
is_small none = true
is_small (some size) = leb size compressible_file_size_threshold

-- The first argument is `kResourceRoot`.
pub handle_found : Option ℕ → HttpContext → HttpContext
handle_found none c = record c { content_length = 0; status_code = status_not_found }
handle_found (some size) c = record c { status_code = status_ok; content_length = size }

abbrev pub default_uri : List ℕ → List ℕ
default_uri [] = codes "index.html"
default_uri (c ∷ cs) = c ∷ cs

pub handle_http_get : World → List ℕ → MessageCallback
unfolding get_file_suffix mime_type get_file_size handle_found
handle_http_get w root ctx1 ctx2 =
    let uri = default_uri ctx1.uri in
    let fmt = get_file_suffix uri in
    let path = root ++ uri in
    let file_size = get_file_size w path in
    if ctx1.status_code == status_ok
    then (
      record ctx1 {
        uri = uri;
        content_encoding =
            if is_small file_size
            then encoding_identity
            else if keeps_format fmt
            then encoding_identity
            else ctx1.content_encoding;
      },
      handle_found file_size (record ctx2 {
        headers = assign_number field_content_type (mime_type fmt) ctx2.headers;
        uri = path;
      }),
    )
    else (ctx1, ctx2)
