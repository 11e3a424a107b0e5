-- ===== src/TlsConnection/Documented.antt =====
-- What OpenSSL documents of the calls, as far as the code relies on it.
use ladder.Prelude.{ℕ, ◌<◌, ◌≡◌, true, Option, none, some, List, [], ◌∷◌, ◌++◌, take, drop}
use ladder.TlsConnection.{Engine}

-- What has passed an engine so far: plain bytes from the program, bytes of the peer that were put
-- into one memory buffer, and bytes for the peer that were taken from the other.
pub record Passed : Type 0 where
  pub plain : List ℕ
  pub from_peer : List ℕ
  pub to_peer : List ℕ

abbrev pub unless_empty : List ℕ → Option (List ℕ)
unless_empty [] = none
unless_empty (c ∷ cs) = some (c ∷ cs)

pub record Documented {S : Type 0} (e : Engine S) : Type 0 where
  pub passed : S → Passed
  -- what is in the memory buffer for the peer
  pub pending : S → List ℕ
  pub bio_read_gives : (n : ℕ) (s : S) → (e.bio_read n s).0 ≡ unless_empty (take n (pending s))
  pub bio_read_leaves : (n : ℕ) (s : S) → pending (e.bio_read n s).1 ≡ drop n (pending s)
  pub bio_read_passes :
      (n : ℕ) (s : S)
      → passed (e.bio_read n s).1
        ≡ record (passed s) { to_peer = (passed s).to_peer ++ take n (pending s) }
  pub bio_read_finished :
      (n : ℕ) (s : S) → e.is_init_finished (e.bio_read n s).1 ≡ e.is_init_finished s
  -- a memory buffer takes something of what it is given
  pub bio_write_takes :
      (c : ℕ) (cs : List ℕ) (s : S) → (n : ℕ) × ((e.bio_write (c ∷ cs) s).0 ≡ some n) × (0 < n)
  pub bio_write_passes :
      (i : List ℕ) (s : S) (n : ℕ)
      → (e.bio_write i s).0 ≡ some n
      → passed (e.bio_write i s).1
        ≡ record (passed s) { from_peer = (passed s).from_peer ++ take n i }
  pub bio_write_finished :
      (i : List ℕ) (s : S) → e.is_init_finished (e.bio_write i s).1 ≡ e.is_init_finished s
  pub ssl_write_positive : (i : List ℕ) (s : S) (n : ℕ) → (e.ssl_write i s).0 ≡ some n → 0 < n
  pub ssl_write_passes :
      (i : List ℕ) (s : S) (n : ℕ)
      → (e.ssl_write i s).0 ≡ some n
      → passed (e.ssl_write i s).1 ≡ record (passed s) { plain = (passed s).plain ++ take n i }
  pub ssl_write_finished :
      (i : List ℕ) (s : S) → e.is_init_finished (e.ssl_write i s).1 ≡ e.is_init_finished s
  pub ssl_read_passes : (n : ℕ) (s : S) → passed (e.ssl_read n s).1 ≡ passed s
  pub ssl_read_finished :
      (n : ℕ) (s : S) → e.is_init_finished (e.ssl_read n s).1 ≡ e.is_init_finished s
  pub do_handshake_passes : (s : S) → passed (e.do_handshake s).1 ≡ passed s
  pub do_handshake_finished :
      (s : S) → e.is_init_finished (e.do_handshake s).1 ≡ (e.do_handshake s).0

-- Behind the handshake SSL_write takes something of what it is given; with a memory buffer it need
-- not wait.
abbrev pub IsWilling : {S : Type 0} → Engine S → Type 0
IsWilling {S} e =
    (c : ℕ) (cs : List ℕ) (s : S)
    → e.is_init_finished s ≡ true
    → (n : ℕ) × ((e.ssl_write (c ∷ cs) s).0 ≡ some n)
