-- ===== src/Http/Message/StartLine.antt =====
-- The start line of a request, written and read again.
use mathlib.Core.Path.{subst}
use ladder.Prelude.{
  inr, inl, Bool-cases, ℕ, ◌≡◌, refl, sym, ap, ◌∙◌, false, Option, none, some, List, [], ◌==◌, ◌∷◌,
  arith,
}
use ladder.Prelude.Text.{codes, ℤ, pos, negsuc, find_text, find_number}
use ladder.Http.Tables.{http_request_methods, http_request_method_strs, status_ok}
use ladder.Http.Split.{split_string}
use ladder.Http.Split.Rejoin.{
  join, has_char, has_char-Unplaced, char-IsSeparator, split_string-join,
}
use ladder.Http.Message.{
  HttpContext, method_name, prepare_request, start_line_of, handle_fields, handle_request,
  accepted_encoding,
}

-- A name is known as the method that it names, and holds no space.
abbrev pub IsName : ℕ → List ℕ → Type 0
IsName code name = (find_text name http_request_methods ≡ some code) × (has_char 32 name ≡ false)

abbrev AllPairs : (ℕ → List ℕ → Type 0) → List (ℕ × List ℕ) → Type 0
AllPairs P [] = Unit
AllPairs P ((k, v) ∷ m) = P k v × AllPairs P m

find_number-AllPairs :
    (P : ℕ → List ℕ → Type 0) (m : List (ℕ × List ℕ)) (code : ℕ) (name : List ℕ)
    → AllPairs P m
    → find_number code m ≡ some name
    → P code name
find_number-AllPairs P [] code name all h = absurd (cc)
find_number-AllPairs P ((k, n) ∷ m) code name (first, all) h = elim (Bool-cases (k == code)) [
  | inl t ↦
      let e : k ≡ code = ground arith in
      let f : n ≡ name = ground arith in subst (λ (x : ℕ). P x name) e (subst (P k) f first)
  | inr f ↦ find_number-AllPairs P m code name all (rw f at h)
]

names : AllPairs IsName http_request_method_strs
names = (
  (refl, refl),
  (
    (refl, refl),
    (
      (refl, refl),
      (
        (refl, refl),
        ((refl, refl), ((refl, refl), ((refl, refl), ((refl, refl), ((refl, refl), omega arith))))),
      ),
    ),
  ),
)

method_name-IsName :
    (m : ℤ) (name : List ℕ)
    → method_name m ≡ some name
    → (code : ℕ) × (m ≡ pos code) × IsName code name
unfolding method_name
method_name-IsName (pos code) name h =
    (code, refl, find_number-AllPairs IsName http_request_method_strs code name names h)
method_name-IsName (negsuc n) name h = absurd (cc)

start_line_of-inv :
    (m : Option (List ℕ)) (c : HttpContext) (line : List ℕ)
    → start_line_of m c ≡ some line
    → (name : List ℕ) × (m ≡ some name) × (line ≡ join (codes " ") (name ∷ c.uri ∷ c.version ∷ []))
unfolding start_line_of
start_line_of-inv none c line h = absurd (cc)
start_line_of-inv (some name) c line h = (name, refl, ground arith)

-- A start line with the name of a method, a slash with the path, and the version.
abbrev pub request_line : List ℕ → List ℕ → List ℕ → List ℕ
request_line name path version = join (codes " ") (name ∷ (b'/' ∷ path) ∷ version ∷ [])

pub handle_request-request_line :
    (c : HttpContext) (name path version : List ℕ) (code : ℕ)
    → IsName code name
    → has_char 32 path ≡ false
    → has_char 32 version ≡ false
    → c.start_line ≡ request_line name path version
    → handle_request c ≡ (
      pos status_ok,
      record c {
        method = pos code;
        uri = path;
        version = version;
        content_encoding = accepted_encoding c.headers;
      },
    )
unfolding handle_request handle_fields
handle_request-request_line c name path version code (known, free) path_free version_free h =
    ap (λ (l : List ℕ). handle_fields (split_string l (codes " ")) c) h
    ∙ ap (λ (fields : List (List ℕ)). handle_fields fields c)
        (split_string-join (codes " ") (char-IsSeparator 32 (omega arith)) name
          ((b'/' ∷ path) ∷ version ∷ [])
          (
            has_char-Unplaced 32 name free,
            (
              has_char-Unplaced 32 (b'/' ∷ path) path_free,
              (has_char-Unplaced 32 version version_free, omega arith),
            ),
          ))
    ∙ rw (known, handle_fields) refl

-- What is written is read again, less the slash before the path.
pub handle_request-prepare_request :
    (c : HttpContext) (path line : List ℕ)
    → c.uri ≡ b'/' ∷ path
    → has_char 32 path ≡ false
    → has_char 32 c.version ≡ false
    → prepare_request c ≡ some line
    → handle_request (record c { start_line = line }) ≡ (
      pos status_ok,
      record c { start_line = line; uri = path; content_encoding = accepted_encoding c.headers },
    )
unfolding prepare_request
handle_request-prepare_request c path line slash path_free version_free prepared =
    let (name, named, shown) = start_line_of-inv (method_name c.method) c line prepared in
    let (code, is_code, is_name) = method_name-IsName c.method name named in
    handle_request-request_line (record c { start_line = line }) name path c.version code is_name
      path_free version_free
      (shown ∙ ap (λ (u : List ℕ). join (codes " ") (name ∷ u ∷ c.version ∷ [])) slash)
    ∙ ap
        (λ (m : ℤ). (
          pos status_ok,
          record c {
            method = m;
            start_line = line;
            uri = path;
            content_encoding = accepted_encoding c.headers;
          },
        ))
        (sym is_code)
