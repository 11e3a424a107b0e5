-- ===== src/FileBuffer/Order.antt =====
-- What is queued is sent in order.
use ladder.Prelude.{ℕ, ◌+◌, ◌<◌, ◌≡◌, ◌^◌, Option, none, some, List, [], ◌∷◌, ◌++◌, length, drop}
use ladder.Buffer.{Buffer}
use ladder.Buffer.Inv.{IsValid, contents}
use ladder.FileBuffer.{FileInfo, FileBuffer, opened}

module _ (files : List ℕ → Option (List ℕ)) where
  abbrev pub file_of : Option (List ℕ) → List ℕ
  file_of none = []
  file_of (some content) = content

  -- What the headers and files of a queue come to.
  abbrev pub payloads : List FileInfo → List ℕ
  payloads [] = []
  payloads (i ∷ is) = i.header ++ (file_of (opened files i.filename) ++ payloads is)

  abbrev pub headers : List FileInfo → ℕ
  headers [] = 0
  headers (i ∷ is) = length i.header + headers is

  -- What is queued behind the buffer: the rest of the open file, and the other entries.
  abbrev pub left : Option (List ℕ) → List FileInfo → ℕ → List ℕ
  left none is n = payloads is
  left (some f) [] n = drop n f
  left (some f) (i ∷ is) n = drop n f ++ payloads is

  abbrev pub headers_left : Option (List ℕ) → List FileInfo → ℕ
  headers_left none is = headers is
  headers_left (some f) [] = 0
  headers_left (some f) (i ∷ is) = headers is

  -- An open file belongs to the front of the queue, and its bytes are counted.
  abbrev pub Counted : Option (List ℕ) → List FileInfo → ℕ → ℕ → Type 0
  Counted none is sent pending = Unit
  Counted (some f) [] sent pending = ⊥
  Counted (some f) (i ∷ is) sent pending = sent + pending ≡ length f

  pub record Inv (b : Buffer) (fd : Option (List ℕ)) (is : List FileInfo) (sent pending : ℕ)
      : Type 0 where
    pub valid : IsValid b
    pub counted : Counted fd is sent pending
    pub room : b.write_index + headers_left fd is < 2 ^ 32

  abbrev pub IsSound : FileBuffer → Type 0
  IsSound b = Inv b.buffer b.fd b.pending_files b.bytes_sent b.bytes_pending

  abbrev pub queued : FileBuffer → List ℕ
  queued b = contents b.buffer ++ left b.fd b.pending_files b.bytes_sent

  -- The bytes that go out, before those still queued, are those that were queued.
  abbrev Sends : List ℕ → List ℕ × FileBuffer → Type 0
  Sends before r = (r.0 ++ queued r.1 ≡ before) × IsSound r.1

  -- An open file is that of the entry in front.
  abbrev AtFront : Option (List ℕ) → List FileInfo → FileInfo → List FileInfo → Type 0
  AtFront none is info rest = Unit
  AtFront (some f) is info rest = is ≡ info ∷ rest
