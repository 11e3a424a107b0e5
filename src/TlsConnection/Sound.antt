-- ===== src/TlsConnection/Sound.antt =====
-- Nothing is lost between the program, the engine and the buffers.
use mathlib.Core.Path.{subst}
use ladder.Prelude.{
  ℕ, zero, suc, ◌≤◌, ◌≡◌, refl, sym, ap, ◌∙◌, false, Option, none, some, List, [], ◌∷◌, ◌++◌, take,
  append-nil,
}
use ladder.Buffer.{write}
use ladder.Buffer.Inv.{IsValid, contents}
use ladder.Buffer.Io.{End, returned, failed, exited, waiting}
use ladder.Connection.{Connection, Status, running, ended, starved, flush, enable_by, put_out}
use ladder.TlsConnection.{
  Engine, max_buffer_size, TlsConnection, with_status, post, encrypt, decrypt, while_alive,
  first_answers,
}
use ladder.TlsConnection.Documented.{Passed, Documented, unless_empty}

module _ {S : Type 0} (e : Engine S) (d : Documented e) where
  -- The bytes `given` to `Send` are those that the engine took and those that wait for the handshake;
  -- those read from the socket are in the engine, and those for the peer that were taken out of it
  -- are in the output.
  pub record Kept (size : ℕ) (given : List ℕ) (t : TlsConnection S) : Type 0 where
    pub waits_valid : IsValid t.pre_write_buffer
    pub waits_small : t.pre_write_buffer.write_index ≤ size
    pub plain_kept : given ≡ (d.passed t.engine).plain ++ contents t.pre_write_buffer
    pub in_kept : t.fed ≡ (d.passed t.engine).from_peer
    pub out_kept : t.base.accepted ≡ (d.passed t.engine).to_peer
    pub is_open : t.base.shut_down ≡ false

  -- From `t` to `u` that is kept, and neither the handshake nor what waits for it is touched.
  pub record Quiet (size : ℕ) (given : List ℕ) (t u : TlsConnection S) : Type 0 where
    pub kept : Kept size given u
    pub finish : e.is_init_finished u.engine ≡ e.is_init_finished t.engine
    pub waits : u.pre_write_buffer ≡ t.pre_write_buffer

  pub with_engine :
      {m : ℕ} {g : List ℕ} (t : TlsConnection S) (s : S)
      → d.passed s ≡ d.passed t.engine
      → Kept m g t
      → Kept m g (record t { engine = s })
  with_engine t s p h = record {
    waits_valid = h.waits_valid;
    waits_small = h.waits_small;
    plain_kept = h.plain_kept ∙ ap (λ (v : Passed). v.plain ++ contents t.pre_write_buffer) (sym p);
    in_kept = h.in_kept ∙ ap (λ (v : Passed). v.from_peer) (sym p);
    out_kept = h.out_kept ∙ ap (λ (v : Passed). v.to_peer) (sym p);
    is_open = h.is_open;
  }

  pub with_status-Kept :
      {m : ℕ} {g : List ℕ} (status : Status) (t : TlsConnection S)
      → Kept m g t
      → Kept m g (with_status status t)
  with_status-Kept status t h = record {
    waits_valid = h.waits_valid;
    waits_small = h.waits_small;
    plain_kept = h.plain_kept;
    in_kept = h.in_kept;
    out_kept = h.out_kept;
    is_open = h.is_open;
  }

  pub then_Quiet :
      {m : ℕ} {g : List ℕ} {t u v : TlsConnection S} → Quiet m g t u → Quiet m g u v → Quiet m g t v
  then_Quiet p q = record { kept = q.kept; finish = q.finish ∙ p.finish; waits = q.waits ∙ p.waits }

  enable_by-Same :
      (how : End) (c : Connection)
      → ((enable_by how c).accepted ≡ c.accepted) × ((enable_by how c).shut_down ≡ c.shut_down)
  unfolding enable_by
  enable_by-Same returned c = (refl, refl)
  enable_by-Same (failed x) c = (refl, refl)
  enable_by-Same (exited x) c = (refl, refl)
  enable_by-Same waiting c = (refl, refl)

  pub post-Quiet : {m : ℕ} {g : List ℕ} (t : TlsConnection S) → Kept m g t → Quiet m g t (post t)
  unfolding post flush
  post-Quiet t h =
      let f = flush (first_answers t.answers) t.base in
      let same = enable_by-Same f.0 f.1 in
      record {
        kept = record {
          waits_valid = h.waits_valid;
          waits_small = h.waits_small;
          plain_kept = h.plain_kept;
          in_kept = h.in_kept;
          out_kept = same.0 ∙ h.out_kept;
          is_open = same.1 ∙ h.is_open;
        };
        finish = refl;
        waits = refl;
      }

  pub while_alive-Quiet :
      {m : ℕ} {g : List ℕ} (f : TlsConnection S → TlsConnection S) (t : TlsConnection S)
      → Kept m g t
      → Quiet m g t (f t)
      → Quiet m g t (while_alive e f t)
  while_alive-Quiet {m} {g} f t h k = go t.base.status
    where
      go : (status : Status) → Quiet m g t (elim status [ running ↦ f t | _ ↦ t ])
      go running = k
      go ended = record { kept = h; finish = refl; waits = refl }
      go starved = record { kept = h; finish = refl; waits = refl }

  -- What `encrypt` does with one answer of BIO_read.
  abbrev encrypted : ℕ → TlsConnection S → S → Option (List ℕ) → TlsConnection S
  encrypted fuel t s none = record t { engine = s }
  encrypted fuel t s (some bytes) =
      encrypt e fuel (record t { engine = s; base = put_out bytes t.base })

  after_bio_read :
      {m : ℕ} {g : List ℕ} (t : TlsConnection S) (xs : List ℕ)
      → take max_buffer_size (d.pending t.engine) ≡ xs
      → Kept m g t
      → Quiet m g t
          (record t { engine = (e.bio_read max_buffer_size t.engine).1; base = put_out xs t.base })
  unfolding put_out
  after_bio_read t xs q h =
      let s = (e.bio_read max_buffer_size t.engine).1 in
      let p = d.bio_read_passes max_buffer_size t.engine in
      record {
        kept = record {
          waits_valid = h.waits_valid;
          waits_small = h.waits_small;
          plain_kept =
              h.plain_kept ∙ ap (λ (v : Passed). v.plain ++ contents t.pre_write_buffer) (sym p);
          in_kept = h.in_kept ∙ ap (λ (v : Passed). v.from_peer) (sym p);
          out_kept =
              ap (λ (l : List ℕ). l ++ xs) h.out_kept
              ∙ ap (λ (l : List ℕ). (d.passed t.engine).to_peer ++ l) (sym q)
              ∙ ap (λ (v : Passed). v.to_peer) (sym p);
          is_open = h.is_open;
        };
        finish = d.bio_read_finished max_buffer_size t.engine;
        waits = refl;
      }

  bio_read-none :
      {m : ℕ} {g : List ℕ} (t : TlsConnection S)
      → take max_buffer_size (d.pending t.engine) ≡ []
      → Kept m g t
      → Quiet m g t (record t { engine = (e.bio_read max_buffer_size t.engine).1 })
  bio_read-none t q h = record {
    kept =
        with_engine t (e.bio_read max_buffer_size t.engine).1
          (d.bio_read_passes max_buffer_size t.engine
            ∙ ap (λ (l : List ℕ). record (d.passed t.engine) { to_peer = l })
                (ap (λ (l : List ℕ). (d.passed t.engine).to_peer ++ l) q
                  ∙ append-nil ((d.passed t.engine).to_peer)))
          h;
    finish = d.bio_read_finished max_buffer_size t.engine;
    waits = refl;
  }

  pub encrypt-Quiet :
      {m : ℕ} {g : List ℕ} (fuel : ℕ) (t : TlsConnection S)
      → Kept m g t
      → Quiet m g t (encrypt e fuel t)
  unfolding encrypt put_out
  encrypt-Quiet zero t h = record {
    kept = with_status-Kept starved t h;
    finish = refl;
    waits = refl;
  }
  encrypt-Quiet {m} {g} (suc fuel) t h =
      subst
        (λ (out : Option (List ℕ)).
          Quiet m g t (encrypted fuel t (e.bio_read max_buffer_size t.engine).1 out))
        (sym (d.bio_read_gives max_buffer_size t.engine))
        (go (take max_buffer_size (d.pending t.engine)) refl (λ u k. encrypt-Quiet fuel u k))
    where
      go :
          (xs : List ℕ)
          → take max_buffer_size (d.pending t.engine) ≡ xs
          → ((u : TlsConnection S) → Kept m g u → Quiet m g u (encrypt e fuel u))
          → Quiet m g t (encrypted fuel t (e.bio_read max_buffer_size t.engine).1 (unless_empty xs))
      go [] q ih = bio_read-none t q h
      go (c ∷ cs) q ih =
          let first = after_bio_read t (c ∷ cs) q h in then_Quiet first (ih _ first.kept)

  abbrev decrypted : ℕ → TlsConnection S → S → Option (List ℕ) → TlsConnection S
  decrypted fuel t s none = record t { engine = s }
  decrypted fuel t s (some bytes) = decrypt e fuel (record t {
    engine = s;
    base = record (t.base) { read_buffer = write bytes t.base.read_buffer };
  })

  pub decrypt-Quiet :
      {m : ℕ} {g : List ℕ} (fuel : ℕ) (t : TlsConnection S)
      → Kept m g t
      → Quiet m g t (decrypt e fuel t)
  unfolding decrypt
  decrypt-Quiet zero t h = record {
    kept = with_status-Kept starved t h;
    finish = refl;
    waits = refl;
  }
  decrypt-Quiet {m} {g} (suc fuel) t h =
      go (e.ssl_read max_buffer_size t.engine).0 (λ u k. decrypt-Quiet fuel u k)
    where
      s : S
      s = (e.ssl_read max_buffer_size t.engine).1

      same_finish : e.is_init_finished s ≡ e.is_init_finished t.engine
      same_finish = d.ssl_read_finished max_buffer_size t.engine

      after-Kept : Kept m g (record t { engine = s })
      after-Kept = with_engine t s (d.ssl_read_passes max_buffer_size t.engine) h

      go :
          (out : Option (List ℕ))
          → ((u : TlsConnection S) → Kept m g u → Quiet m g u (decrypt e fuel u))
          → Quiet m g t (decrypted fuel t s out)
      go none ih = record { kept = after-Kept; finish = same_finish; waits = refl }
      go (some bytes) ih =
          let next = ih _ (record {
            waits_valid = after-Kept.waits_valid;
            waits_small = after-Kept.waits_small;
            plain_kept = after-Kept.plain_kept;
            in_kept = after-Kept.in_kept;
            out_kept = after-Kept.out_kept;
            is_open = after-Kept.is_open;
          }) in
          record { kept = next.kept; finish = next.finish ∙ same_finish; waits = next.waits }
