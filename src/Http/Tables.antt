-- ===== src/Http/Tables.antt =====
-- examples/http/http_defs.h: the numbers and names of HTTP.
use ladder.Prelude.{ℕ, List, [], ◌∷◌}
use ladder.Prelude.Text.{codes}

-- `kHttpRequestMethod`.
abbrev pub http_get : ℕ
http_get = 0

abbrev pub http_head : ℕ
http_head = 1

abbrev pub http_post : ℕ
http_post = 2

abbrev pub http_put : ℕ
http_put = 3

abbrev pub http_delete : ℕ
http_delete = 4

abbrev pub http_connect : ℕ
http_connect = 5

abbrev pub http_options : ℕ
http_options = 6

abbrev pub http_trace : ℕ
http_trace = 7

abbrev pub http_patch : ℕ
http_patch = 8

-- `kHttpHeaderField`.
abbrev pub field_accept : ℕ
field_accept = 0

abbrev pub field_content_type : ℕ
field_content_type = 1

abbrev pub field_user_agent : ℕ
field_user_agent = 2

abbrev pub field_content_length : ℕ
field_content_length = 3

abbrev pub field_content_encoding : ℕ
field_content_encoding = 4

abbrev pub field_accept_encoding : ℕ
field_accept_encoding = 5

abbrev pub field_host : ℕ
field_host = 6

abbrev pub field_connection : ℕ
field_connection = 7

-- `kHttpStatusCode`.
abbrev pub status_ok : ℕ
status_ok = 200

abbrev pub status_bad_request : ℕ
status_bad_request = 400

abbrev pub status_unauthorized : ℕ
status_unauthorized = 401

abbrev pub status_forbidden : ℕ
status_forbidden = 403

abbrev pub status_not_found : ℕ
status_not_found = 404

abbrev pub status_method_not_allowed : ℕ
status_method_not_allowed = 405

abbrev pub status_not_acceptable : ℕ
status_not_acceptable = 406

abbrev pub status_payload_too_large : ℕ
status_payload_too_large = 413

abbrev pub status_uri_too_long : ℕ
status_uri_too_long = 414

abbrev pub status_internal_server_error : ℕ
status_internal_server_error = 500

abbrev pub status_not_implemented : ℕ
status_not_implemented = 501

abbrev pub status_http_version_not_supported : ℕ
status_http_version_not_supported = 505

-- `kAcceptContentEncoding`.
abbrev pub encoding_gzip : ℕ
encoding_gzip = 0

abbrev pub encoding_compress : ℕ
encoding_compress = 1

abbrev pub encoding_deflate : ℕ
encoding_deflate = 2

abbrev pub encoding_br : ℕ
encoding_br = 3

abbrev pub encoding_identity : ℕ
encoding_identity = 4

abbrev pub encoding_all : ℕ
encoding_all = 5

-- `kHeaderBreak`: a carriage return and a line feed.
abbrev pub header_break : List ℕ
header_break = 13 ∷ 10 ∷ []

abbrev pub http_status : List (ℕ × List ℕ)
http_status =
    (status_ok, codes "200 OK")
    ∷ (status_bad_request, codes "400 Bad Request")
    ∷ (status_unauthorized, codes "401 Unauthorized")
    ∷ (status_forbidden, codes "403 Forbidden")
    ∷ (status_not_found, codes "404 Not Found")
    ∷ (status_method_not_allowed, codes "405 Method Not Allowed")
    ∷ (status_not_acceptable, codes "406 Not Acceptable")
    ∷ (status_payload_too_large, codes "413 Payload Too Large")
    ∷ (status_uri_too_long, codes "414 URI Too Long")
    ∷ (status_internal_server_error, codes "500 Internal Server Error")
    ∷ (status_not_implemented, codes "501 Not Implemented")
    ∷ (status_http_version_not_supported, codes "505 HTTP Version Not Supported")
    ∷ []

abbrev pub http_request_methods : List (List ℕ × ℕ)
http_request_methods =
    (codes "GET", http_get)
    ∷ (codes "HEAD", http_head)
    ∷ (codes "POST", http_post)
    ∷ (codes "PUT", http_put)
    ∷ (codes "DELETE", http_delete)
    ∷ (codes "CONNECT", http_connect)
    ∷ (codes "OPTIONS", http_options)
    ∷ (codes "TRACE", http_trace)
    ∷ (codes "PATCH", http_patch)
    ∷ []

abbrev pub http_request_method_strs : List (ℕ × List ℕ)
http_request_method_strs =
    (http_get, codes "GET")
    ∷ (http_head, codes "HEAD")
    ∷ (http_post, codes "POST")
    ∷ (http_put, codes "PUT")
    ∷ (http_delete, codes "DELETE")
    ∷ (http_connect, codes "CONNECT")
    ∷ (http_options, codes "OPTIONS")
    ∷ (http_trace, codes "TRACE")
    ∷ (http_patch, codes "PATCH")
    ∷ []

abbrev pub header_fields : List (List ℕ × ℕ)
header_fields =
    (codes "Accept", field_accept)
    ∷ (codes "Content-Type", field_content_type)
    ∷ (codes "User-Agent", field_user_agent)
    ∷ (codes "Content-Length", field_content_length)
    ∷ (codes "Content-Encoding", field_content_encoding)
    ∷ (codes "Accept-Encoding", field_accept_encoding)
    ∷ (codes "Host", field_host)
    ∷ (codes "Connection", field_connection)
    ∷ []

abbrev pub header_field_strs : List (ℕ × List ℕ)
header_field_strs =
    (field_accept, codes "Accept")
    ∷ (field_content_type, codes "Content-Type")
    ∷ (field_user_agent, codes "User-Agent")
    ∷ (field_content_length, codes "Content-Length")
    ∷ (field_content_encoding, codes "Content-Encoding")
    ∷ (field_accept_encoding, codes "Accept-Encoding")
    ∷ (field_host, codes "Host")
    ∷ (field_connection, codes "Connection")
    ∷ []

abbrev pub content_encodings : List (List ℕ × ℕ)
content_encodings =
    (codes "gzip", encoding_gzip)
    ∷ (codes "compress", encoding_compress)
    ∷ (codes "deflate", encoding_deflate)
    ∷ (codes "br", encoding_br)
    ∷ (codes "identity", encoding_identity)
    ∷ (codes "*", encoding_all)
    ∷ []
