-- ===== src/Http/Server/Get.antt =====
-- What the server answers to a GET request.
use ladder.Prelude.{
  inr, inl, Bool-cases, ℕ, ◌≤◌, ◌≡◌, refl, ap, ◌∙◌, Bool, true, none, some, List, [], ◌∷◌, ◌++◌,
  length, if◌then◌else◌, arith,
}
use ladder.Prelude.Text.{codes, pos, same_text}
use ladder.Http.Tables.{
  http_get, status_ok, status_not_found, field_content_type, encoding_identity,
}
use ladder.Http.Message.{HttpContext, new_context, clear}
use ladder.Http.Codec.{
  World, MessageCallback, Act, sends, sends_file, shuts_down_write, composed, respond, respond_ok,
  answer, call_server, read_file_as_string,
}
use ladder.Http.Server.{
  leb, register_callback, find_callback, on_message, get_file_suffix, mime_type, get_file_size,
  handle_found, default_uri, handle_http_get,
}

-- A connection is closed behind the answer in the older version.
abbrev pub closing : List ℕ → List Act
closing version = if same_text version (codes "HTTP/1.0") then shuts_down_write ∷ [] else []

module _ (w : World) (root : List ℕ) (send_file : Bool) (raw request : HttpContext) where
  abbrev pub serve : MessageCallback
  serve = on_message (register_callback http_get (handle_http_get w root) [])

  -- A request that was understood.
  abbrev pub asked : HttpContext
  asked = record request { method = pos http_get; status_code = status_ok }

  abbrev pub path : List ℕ
  path = root ++ default_uri request.uri

  -- What the server makes of both contexts.
  abbrev identity_request : HttpContext
  identity_request = record asked {
    uri = default_uri request.uri;
    content_encoding = encoding_identity;
  }

  abbrev pub response : ℕ → ℕ → HttpContext
  response status size = record (new_context raw) {
    version = request.version;
    headers = (field_content_type, mime_type (get_file_suffix (default_uri request.uri))) ∷ [];
    uri = path;
    status_code = status;
    content_length = size;
  }

  size_found :
      (content : List ℕ)
      → w.files path ≡ some content
      → get_file_size w path ≡ some (length content)
  unfolding get_file_size
  size_found content h = rw (h, get_file_size) refl

  size_missing : w.files path ≡ none → get_file_size w path ≡ none
  unfolding get_file_size
  size_missing h = rw (h, get_file_size) refl

  serve-found :
      (size : ℕ)
      → get_file_size w path ≡ some size
      → size ≤ 2048
      → serve asked (new_context raw) ≡ (identity_request, response status_ok size)
  unfolding on_message find_callback register_callback handle_http_get handle_found new_context
      clear
  serve-found size h small =
      rw (h, handle_http_get) (rw (let e : leb size 2048 ≡ true = ground arith in e) refl)

  serve-missing :
      get_file_size w path ≡ none
      → serve asked (new_context raw) ≡ (identity_request, response status_not_found 0)
  unfolding on_message find_callback register_callback handle_http_get handle_found new_context
      clear
  serve-missing h = rw (h, handle_http_get) refl

  -- A file of at most 2048 characters is sent as it is.
  pub answer-found :
      (content : List ℕ)
      → w.files path ≡ some content
      → length content ≤ 2048
      → answer w send_file (some serve) raw asked
        ≡ (if send_file
            then sends_file (composed (response status_ok (length content))) path
            else sends (composed (response status_ok (length content)) ++ content))
          ∷ closing request.version
  unfolding respond respond_ok call_server read_file_as_string new_context
  answer-found content found small =
      ap (λ (p : HttpContext × HttpContext). respond w send_file p.0 p.1)
        (serve-found (length content) (size_found content found) small)
      ∙ elim (Bool-cases send_file) [
        | inl t ↦ rw t refl
        | inr f ↦ rw f (rw (found, read_file_as_string) refl)
      ]

  pub answer-missing :
      w.files path ≡ none
      → answer w send_file (some serve) raw asked
        ≡ sends (composed (response status_not_found 0)) ∷ closing request.version
  unfolding respond call_server new_context
  answer-missing missing =
      ap (λ (p : HttpContext × HttpContext). respond w send_file p.0 p.1)
        (serve-missing (size_missing missing))
