-- ===== src/Http/Server/Serve.antt =====
-- The codec and the server together: from the contents of the buffer to the answer.
use ladder.Prelude.{
  false, ℕ, ◌≤◌, ◌≡◌, refl, ap, ◌∙◌, Bool, some, List, ◌∷◌, ◌++◌, length, if◌then◌else◌,
}
use ladder.Prelude.Text.{codes, pos}
use ladder.Buffer.{Buffer}
use ladder.Buffer.Inv.{IsValid, contents}
use ladder.Utils.Places.{Unplaced}
use ladder.Http.Tables.{http_get, status_ok}
use ladder.Http.Message.{HttpContext, new_context, clear, accepted_encoding}
use ladder.Http.Message.StartLine.{request_line, handle_request-request_line}
use ladder.Http.Split.Rejoin.{has_char}
use ladder.Http.Server.{default_uri}
use ladder.Http.Message.Frame.{blank_line, Says, Announces}
use ladder.Http.Codec.{World, Act, sends, sends_file, composed, Handled, on_client_message}
use ladder.Http.Codec.Framing.{on_client_message_complete}
use ladder.Http.Server.Get.{serve, response, closing, answer-found}

-- The context of the request.
abbrev pub understood :
    HttpContext → List ℕ → List (ℕ × List ℕ) → List ℕ → List ℕ → List ℕ → HttpContext
understood raw start headers payload uri version = record (clear (new_context raw)) {
  method = pos http_get;
  start_line = start;
  headers = headers;
  payload = payload;
  uri = uri;
  version = version;
  content_encoding = accepted_encoding headers;
}

module _ (w : World) (root : List ℕ) (send_file : Bool) (raw : HttpContext)
    (headers : List (ℕ × List ℕ)) (payload uri version : List ℕ) where
  abbrev request : HttpContext
  request = understood raw (request_line (codes "GET") uri version) headers payload uri version

  -- A complete GET request for a file of at most 2048 characters is answered with its contents, or
  -- with the order to send it, behind headers that give its size; what is behind the request stays.
  pub on_client_message-answer-found :
      (b : Buffer) (block rest content : List ℕ)
      → IsValid b
      → contents b ≡ block ++ (blank_line ++ (payload ++ rest))
      → Unplaced block blank_line
      → Says block (request_line (codes "GET") uri version) headers
      → Announces headers (length payload)
      → has_char 32 uri ≡ false
      → has_char 32 version ≡ false
      → w.files (root ++ default_uri uri) ≡ some content
      → length content ≤ 2048
      → (b' : Buffer) × (on_client_message w send_file
            (some (serve w root send_file raw request))
            raw
            b
          ≡ Handled.handled
              ((if send_file
                  then sends_file
                      (composed (response w root send_file raw request status_ok (length content)))
                      (root ++ default_uri uri)
                  else sends (
                      composed (response w root send_file raw request status_ok (length content))
                      ++ content))
                ∷ closing version)
              b')
        × IsValid b'
        × (contents b' ≡ rest)
  unfolding new_context clear
  on_client_message-answer-found b block rest content v e unplaced says announced uri_free
        version_free found small =
      let (b', answered, v', left) =
        on_client_message_complete w send_file (some (serve w root send_file raw request)) raw b
          block (request_line (codes "GET") uri version) headers payload rest status_ok request v e
          unplaced says announced
          (handle_request-request_line
            (record (clear (new_context raw)) {
              start_line = request_line (codes "GET") uri version;
              headers = headers;
              payload = payload;
            })
            (codes "GET") uri version http_get (refl, refl) uri_free version_free refl) in
      (
        b',
        answered
            ∙ ap (λ (acts : List Act). Handled.handled acts b')
                (answer-found w root send_file raw request content found small),
        v',
        left,
      )
