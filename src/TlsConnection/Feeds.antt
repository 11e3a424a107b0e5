-- ===== src/TlsConnection/Feeds.antt =====
-- `ReadFromBuffer`, `ReadBuffer` and `WriteBuffer` lose nothing.
use mathlib.Core.Path.{subst}
use ladder.Prelude.{
  ℕ, zero, suc, ◌≡◌, sym, ap, ◌∙◌, Bool, true, false, not, ◌&&◌, Option, none, some, List, [], ◌∷◌,
  ◌++◌, take, drop, if◌then◌else◌, inl, inr,
}
use ladder.Buffer.{Buffer}
use ladder.Buffer.Io.{WriteReply, End, returned, failed, exited, waiting}
use ladder.Buffer.Inv.{contents}
use ladder.Connection.{Status, running, ended, starved, flush}
use ladder.TlsConnection.{
  Engine, TlsConnection, with_status, shake, shake_if_needed, decrypt_if_finished, go_on,
  read_from_buffer, read_by, write_buffer,
}
use ladder.TlsConnection.Documented.{Passed, Documented, IsWilling}
use ladder.TlsConnection.Sound.{with_status-Kept}
use ladder.TlsConnection.Streams.{Sound}
use ladder.TlsConnection.Steps.{shake-Sound, shake_if_needed-Sound, decrypt_if_finished-Sound}

module _ {S : Type 0} (e : Engine S) (d : Documented e) (willing : IsWilling e) where
  with_status-Sound :
      {m : ℕ} {g : List ℕ} (status : Status) (t : TlsConnection S)
      → Sound e d willing m g t
      → Sound e d willing m g (with_status status t)
  with_status-Sound status t h = record {
    kept = with_status-Kept e d status t h.kept;
    none_waits = h.none_waits;
  }

  abbrev went :
      (TlsConnection S → Bool × TlsConnection S) → TlsConnection S → Status → Bool × TlsConnection S
  went next t status = elim status [ running ↦ next t | _ ↦ (true, t) ]

  go_on-Sound :
      {m : ℕ} {g : List ℕ} (next : TlsConnection S → Bool × TlsConnection S)
      (r : Bool × TlsConnection S)
      → Sound e d willing m g r.1
      → (Sound e d willing m g r.1 → Sound e d willing m g (next r.1).1)
      → Sound e d willing m g (go_on e next r).1
  go_on-Sound next (false, t) h k = h
  go_on-Sound {m} {g} next (true, t) h k = go t.base.status
    where
      go : (status : Status) → Sound e d willing m g (went next t status).1
      go running = k h
      go ended = h
      go starved = h

  after_bio_write :
      {m : ℕ} {g : List ℕ} (i : List ℕ) (n : ℕ) (t : TlsConnection S)
      → (e.bio_write i t.engine).0 ≡ some n
      → Sound e d willing m g t
      → Sound e d willing m g
          (record t { engine = (e.bio_write i t.engine).1; fed = t.fed ++ take n i })
  after_bio_write i n t q h =
      let p = d.bio_write_passes i t.engine n q in
      record {
        kept = record {
          waits_valid = h.kept.waits_valid;
          waits_small = h.kept.waits_small;
          plain_kept =
              h.kept.plain_kept
              ∙ ap (λ (v : Passed). v.plain ++ contents t.pre_write_buffer) (sym p);
          in_kept =
              ap (λ (l : List ℕ). l ++ take n i) h.kept.in_kept
              ∙ ap (λ (v : Passed). v.from_peer) (sym p);
          out_kept = h.kept.out_kept ∙ ap (λ (v : Passed). v.to_peer) (sym p);
          is_open = h.kept.is_open;
        };
        none_waits = elim h.none_waits [
          | inl a ↦ inl a
          | inr b ↦ inr (d.bio_write_finished i t.engine ∙ b)
        ];
      }

  abbrev fed_by : ℕ → ℕ → List ℕ → TlsConnection S → S → Option ℕ → Bool × TlsConnection S
  fed_by rounds fuel i t s none = (true, with_status ended (record t { engine = s }))
  fed_by rounds fuel i t s (some k) = go_on e (read_from_buffer e rounds fuel (drop k i)) (
      go_on e (decrypt_if_finished e fuel)
        (shake_if_needed e fuel (record t { engine = s; fed = t.fed ++ take k i })))

  read_from_buffer-Sound :
      {m : ℕ} {g : List ℕ} (rounds fuel : ℕ) (i : List ℕ) (t : TlsConnection S)
      → Sound e d willing m g t
      → Sound e d willing m g (read_from_buffer e rounds fuel i t).1
  unfolding read_from_buffer
  read_from_buffer-Sound rounds fuel [] t h = h
  read_from_buffer-Sound zero fuel (c ∷ cs) t h = with_status-Sound starved t h
  read_from_buffer-Sound {m} {g} (suc rounds) fuel (c ∷ cs) t h =
      go (d.bio_write_takes c cs t.engine).0 (d.bio_write_takes c cs t.engine).1
        (λ k u. read_from_buffer-Sound rounds fuel (drop k (c ∷ cs)) u)
    where
      s : S
      s = (e.bio_write (c ∷ cs) t.engine).1

      go :
          (n : ℕ)
          → (e.bio_write (c ∷ cs) t.engine).0 ≡ some n
          → ((k : ℕ) (u : TlsConnection S)
              → Sound e d willing m g u
              → Sound e d willing m g (read_from_buffer e rounds fuel (drop k (c ∷ cs)) u).1)
          → Sound e d willing m g
              (fed_by rounds fuel (c ∷ cs) t s (e.bio_write (c ∷ cs) t.engine).0).1
      go n q ih =
          let u = record t { engine = s; fed = t.fed ++ take n (c ∷ cs) } in
          let shaken =
            shake_if_needed-Sound e d willing fuel u (after_bio_write (c ∷ cs) n t q h) in
          subst (λ (o : Option ℕ). Sound e d willing m g (fed_by rounds fuel (c ∷ cs) t s o).1)
            (sym q)
            (go_on-Sound (read_from_buffer e rounds fuel (drop n (c ∷ cs)))
              (go_on e (decrypt_if_finished e fuel) (shake_if_needed e fuel u))
              (go_on-Sound (decrypt_if_finished e fuel) (shake_if_needed e fuel u) shaken
                (λ k. decrypt_if_finished-Sound e d willing fuel (shake_if_needed e fuel u).1 k))
              (ih n (go_on e (decrypt_if_finished e fuel) (shake_if_needed e fuel u)).1))

  pub read_by-Sound :
      {m : ℕ} {g : List ℕ} (fuel : ℕ) (how : End) (b : Buffer) (t : TlsConnection S)
      → Sound e d willing m g t
      → Sound e d willing m g (read_by e fuel how b t).1
  unfolding read_by
  read_by-Sound fuel (exited x) b t h = with_status-Sound ended t h
  read_by-Sound fuel waiting b t h = with_status-Sound starved t h
  read_by-Sound fuel returned b t h = read_from_buffer-Sound _ fuel _ t h
  read_by-Sound fuel (failed x) b t h = read_from_buffer-Sound _ fuel _ t h

  flushed :
      {m : ℕ} {g : List ℕ} (ws : List WriteReply) (t : TlsConnection S)
      → Sound e d willing m g t
      → Sound e d willing m g (record t { base = (flush ws t.base).1 })
  unfolding flush
  flushed ws t h = record {
    kept = record {
      waits_valid = h.kept.waits_valid;
      waits_small = h.kept.waits_small;
      plain_kept = h.kept.plain_kept;
      in_kept = h.kept.in_kept;
      out_kept = h.kept.out_kept;
      is_open = h.kept.is_open;
    };
    none_waits = h.none_waits;
  }

  pub write_buffer-Sound :
      {m : ℕ} {g : List ℕ} (fuel : ℕ) (ws : List WriteReply) (t : TlsConnection S)
      → Sound e d willing m g t
      → Sound e d willing m g (write_buffer e fuel ws t).1
  unfolding write_buffer flush
  write_buffer-Sound {m} {g} fuel ws t h = go (not t.is_server && not (e.is_init_finished t.engine))
    where
      go :
          (b : Bool)
          → Sound e d willing m g (record (if b then (shake e fuel t).1 else t) {
            base = (flush ws (if b then (shake e fuel t).1 else t).base).1;
          })
      go true = flushed ws (shake e fuel t).1 (shake-Sound e d willing fuel t h)
      go false = flushed ws t h
