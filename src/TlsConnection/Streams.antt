-- ===== src/TlsConnection/Streams.antt =====
-- What `Send` and the handshake do to the bytes: `Send`, `OnSslHandshakeFinished`,
-- `HandleSslError` and the two steps of `ReadFromBuffer` lose nothing.
use mathlib.Core.Path.{subst}
use ladder.Prelude.{
  ℕ, zero, suc, ◌≤◌, ◌≡◌, refl, sym, ap, ◌∙◌, true, false, Option, none, some, List, [], ◌∷◌, ◌++◌,
  length, take, drop, append_assoc, append-nil, length-drop, take-append-drop, ◌⊎◌, inl, inr, arith,
}
use ladder.Buffer.Inv.{contents}
use ladder.TlsConnection.{Engine, TlsConnection, encrypt, write_all}
use ladder.TlsConnection.Documented.{Passed, Documented, IsWilling}
use ladder.TlsConnection.Sound.{Kept, Quiet, encrypt-Quiet}

module _ {S : Type 0} (e : Engine S) (d : Documented e) (willing : IsWilling e) where
  -- Behind the handshake nothing waits for it.
  abbrev pub NoneWaits : TlsConnection S → Type 0
  NoneWaits t = (contents t.pre_write_buffer ≡ []) ⊎ (e.is_init_finished t.engine ≡ false)

  pub record Sound (size : ℕ) (given : List ℕ) (t : TlsConnection S) : Type 0 where
    pub kept : Kept e d size given t
    pub none_waits : NoneWaits t

  pub Quiet-Sound :
      {m : ℕ} {g g' : List ℕ} {t u : TlsConnection S}
      → Sound m g t
      → Quiet e d m g' t u
      → Sound m g' u
  Quiet-Sound h q = record {
    kept = q.kept;
    none_waits = elim h.none_waits [
      | inl a ↦ inl (ap contents q.waits ∙ a)
      | inr b ↦ inr (q.finish ∙ b)
    ];
  }

  after_ssl_write :
      {m : ℕ} {g : List ℕ} (i : List ℕ) (n : ℕ) (t : TlsConnection S)
      → (e.ssl_write i t.engine).0 ≡ some n
      → contents t.pre_write_buffer ≡ []
      → Kept e d m g t
      → Kept e d m (g ++ take n i) (record t { engine = (e.ssl_write i t.engine).1 })
  after_ssl_write {m} {g} i n t q none_wait h =
      let p = d.ssl_write_passes i t.engine n q in
      let plain = (d.passed t.engine).plain in
      record {
        waits_valid = h.waits_valid;
        waits_small = h.waits_small;
        plain_kept =
            ap (λ (l : List ℕ). l ++ take n i)
              (h.plain_kept ∙ ap (λ (l : List ℕ). plain ++ l) none_wait ∙ append-nil plain)
            ∙ sym (append-nil (plain ++ take n i))
            ∙ ap (λ (l : List ℕ). (plain ++ take n i) ++ l) (sym none_wait)
            ∙ ap (λ (v : Passed). v.plain ++ contents t.pre_write_buffer) (sym p);
        in_kept = h.in_kept ∙ ap (λ (v : Passed). v.from_peer) (sym p);
        out_kept = h.out_kept ∙ ap (λ (v : Passed). v.to_peer) (sym p);
        is_open = h.is_open;
      }

  pub given_is :
      {m : ℕ} {g g' : List ℕ} {t : TlsConnection S} → g ≡ g' → Kept e d m g t → Kept e d m g' t
  given_is {m} {t} p h = subst (λ (l : List ℕ). Kept e d m l t) p h

  -- What `write_all` does with one answer of SSL_write.
  abbrev written_by : ℕ → ℕ → List ℕ → TlsConnection S → S → Option ℕ → TlsConnection S
  written_by rounds fuel buf t s none = record t { engine = s }
  written_by rounds fuel buf t s (some k) =
      write_all e rounds fuel (drop k buf) (encrypt e fuel (record t { engine = s }))

  -- The loop of `Send` gives all of `buf` to the engine.
  pub write_all-Quiet :
      {m : ℕ} {g : List ℕ} (rounds fuel : ℕ) (buf : List ℕ) (t : TlsConnection S)
      → length buf ≤ rounds
      → e.is_init_finished t.engine ≡ true
      → contents t.pre_write_buffer ≡ []
      → Kept e d m g t
      → Quiet e d m (g ++ buf) t (write_all e rounds fuel buf t)
  unfolding write_all
  write_all-Quiet {m} {g} rounds fuel [] t r f w h = record {
    kept = given_is (sym (append-nil g)) h;
    finish = refl;
    waits = refl;
  }
  write_all-Quiet zero fuel (c ∷ cs) t r f w h = absurd (omega arith)
  write_all-Quiet {m} {g} (suc rounds) fuel (c ∷ cs) t r f w h =
      go (willing c cs t.engine f).0 (willing c cs t.engine f).1
        (λ g' k u. write_all-Quiet {g = g'} rounds fuel (drop k (c ∷ cs)) u)
    where
      s : S
      s = (e.ssl_write (c ∷ cs) t.engine).1

      go :
          (n : ℕ)
          → (e.ssl_write (c ∷ cs) t.engine).0 ≡ some n
          → ((g' : List ℕ) (k : ℕ) (u : TlsConnection S)
              → length (drop k (c ∷ cs)) ≤ rounds
              → e.is_init_finished u.engine ≡ true
              → contents u.pre_write_buffer ≡ []
              → Kept e d m g' u
              → Quiet e d m (g' ++ drop k (c ∷ cs)) u (write_all e rounds fuel (drop k (c ∷ cs)) u))
          → Quiet e d m
              (g ++ (c ∷ cs))
              t
              (written_by rounds fuel (c ∷ cs) t s (e.ssl_write (c ∷ cs) t.engine).0)
      go n q ih =
          let first =
            encrypt-Quiet e d fuel (record t { engine = s }) (after_ssl_write (c ∷ cs) n t q w h) in
          let same = first.finish ∙ d.ssl_write_finished (c ∷ cs) t.engine in
          let rest =
            ih (g ++ take n (c ∷ cs)) n _
              (omega (arith, r, length-drop n (c ∷ cs), d.ssl_write_positive (c ∷ cs) t.engine n q))
              (same ∙ f) (ap contents first.waits ∙ w) first.kept in
          let whole =
            append_assoc g (take n (c ∷ cs)) (drop n (c ∷ cs))
            ∙ ap (λ (l : List ℕ). g ++ l) (take-append-drop n (c ∷ cs)) in
          subst
            (λ (o : Option ℕ).
              Quiet e d m (g ++ (c ∷ cs)) t (written_by rounds fuel (c ∷ cs) t s o))
            (sym q)
            (record {
              kept = given_is whole rest.kept;
              finish = rest.finish ∙ same;
              waits = rest.waits ∙ first.waits;
            })
