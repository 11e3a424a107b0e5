-- ===== src/Http/Tests.antt =====
-- Requests, whole and in part.
use ladder.Prelude.{
  inl, drop, ◌<◌, if◌then◌else◌, ℕ, zero, suc, ◌≡◌, refl, false, none, some, List, [], ◌∷◌, ◌++◌,
  length, arith,
}
use ladder.Prelude.Text.{codes, pos, same_text}
use ladder.Buffer.{Buffer}
use ladder.Buffer.Inv.{IsValid, contents}
use ladder.Utils.Occurrences.{starts_with, NoZero}
use ladder.Utils.Places.{Unplaced, is_unplaced_below-Unplaced}
use ladder.Http.Tables.{header_break, status_ok}
use ladder.Http.Split.{split_string}
use ladder.Http.Split.Rejoin.{join, IsSeparator, split_string-join, join-split_string}
use ladder.Http.Message.{
  start_line_of, method_name, accepted_encoding, HttpContext, parse_line, parse_lines,
  position_colon, prepare_request, handle_request,
}
use ladder.Http.Message.Frame.{blank_line, Says}
use ladder.Http.Message.StartLine.{request_line, handle_request-prepare_request}
use ladder.GZip.{Zlib}
use ladder.Http.Codec.{
  world_of, World, sends, shuts_down_write, composed, Handled, on_client_message,
}
use ladder.Http.Server.Get.{serve, response}
use ladder.Http.Server.Serve.{understood, on_client_message-answer-found}

header_break-IsSeparator : IsSeparator header_break
header_break-IsSeparator = record {
  no_zero = zero_free;
  not_empty = omega arith;
  unbordered = no_border;
}
  where
    zero_free : NoZero header_break
    zero_free zero h e = omega arith
    zero_free (suc zero) h e = omega arith
    zero_free (suc (suc k)) h e = absurd (omega arith)

    no_border : (k : ℕ) → 0 < k → k < 2 → starts_with (drop k header_break) header_break ≡ false
    no_border zero h lt = absurd (omega arith)
    no_border (suc zero) h lt = refl
    no_border (suc (suc k)) h lt = absurd (omega arith)

join-split_string_example :
    join header_break (split_string (13 ∷ 10 ∷ 1 ∷ 13 ∷ 13 ∷ 10 ∷ 2 ∷ []) header_break)
    ≡ 13 ∷ 10 ∷ 1 ∷ 13 ∷ 13 ∷ 10 ∷ 2 ∷ []
join-split_string_example =
    join-split_string header_break header_break-IsSeparator (13 ∷ 10 ∷ 1 ∷ 13 ∷ 13 ∷ 10 ∷ 2 ∷ [])

abbrev raw : HttpContext
raw = record {
  method = pos 77;
  uri = [];
  version = [];
  start_line = [];
  headers = [];
  payload = [];
  status_code = 77;
  content_encoding = 77;
  content_length = 77;
}

-- A zlib that cannot be set up.
abbrev no_zlib : Zlib ℕ
no_zlib = record { init = none; deflate = λ finish n i s. ([], i, s) }

abbrev world : World
world =
    world_of no_zlib 1
      (λ path. if same_text path (codes "www/a") then some (7 ∷ 8 ∷ 9 ∷ []) else none)

abbrev asking : HttpContext
asking = record raw { method = pos 0; uri = codes "/a"; version = codes "HTTP/1.1" }

handle_request-prepare_request_example :
    handle_request (record asking { start_line = codes "GET /a HTTP/1.1" }) ≡ (
      pos status_ok,
      record asking {
        start_line = codes "GET /a HTTP/1.1";
        uri = codes "a";
        content_encoding = accepted_encoding [];
      },
    )
unfolding prepare_request method_name start_line_of
handle_request-prepare_request_example =
    handle_request-prepare_request asking (codes "a") (codes "GET /a HTTP/1.1") refl refl refl refl

abbrev holding : List ℕ → Buffer
holding s = record { read_index = 0; write_index = length s; storage = s }

-- A header block of a start_text line and one header.
abbrev start_text : List ℕ
start_text = request_line (codes "GET") (codes "a") (codes "HTTP/1.0")

abbrev line : List ℕ
line = codes "X: 1"

block-Says : Says (start_text ++ (header_break ++ line)) start_text []
unfolding parse_lines parse_line position_colon
block-Says = record {
  rest_lines = line ∷ [];
  has_lines = split_string-join header_break header_break-IsSeparator start_text (line ∷ []) (
    is_unplaced_below-Unplaced start_text header_break refl,
    (is_unplaced_below-Unplaced line header_break refl, omega arith),
  );
  has_headers = refl;
}

block-Unplaced : Unplaced (start_text ++ (header_break ++ line)) blank_line
block-Unplaced = is_unplaced_below-Unplaced (start_text ++ (header_break ++ line)) blank_line refl

abbrev request_text : List ℕ
request_text = (start_text ++ (header_break ++ line)) ++ (blank_line ++ codes "GE")

holding-IsValid : IsValid (holding request_text)
holding-IsValid = omega arith

on_client_message-answer-found_example :
    (b' : Buffer) × (on_client_message world false
        (some (
          serve world
            (codes "www/")
            false
            raw
            (understood raw start_text [] [] (codes "a") (codes "HTTP/1.0"))))
        raw
        (holding request_text)
      ≡ Handled.handled
          (sends (
              composed (
                response world
                  (codes "www/")
                  false
                  raw
                  (understood raw start_text [] [] (codes "a") (codes "HTTP/1.0"))
                  status_ok
                  3)
              ++ (7 ∷ 8 ∷ 9 ∷ []))
            ∷ shuts_down_write
            ∷ [])
          b')
    × IsValid b'
    × (contents b' ≡ codes "GE")
on_client_message-answer-found_example =
    on_client_message-answer-found world (codes "www/") false raw [] [] (codes "a")
      (codes "HTTP/1.0") (holding request_text) (start_text ++ (header_break ++ line)) (codes "GE")
      (7 ∷ 8 ∷ 9 ∷ []) holding-IsValid refl block-Unplaced block-Says (inl (refl, refl)) refl refl
      refl (omega arith)

abbrev bad_block : List ℕ
bad_block = start_text ++ (header_break ++ codes "no")
