-- ===== src/TlsConnection/Steps.antt =====
-- `Send`, `OnSslHandshakeFinished`, `HandleSslError` and the steps of `ReadFromBuffer` lose nothing.
use mathlib.Core.Path.{subst}
use ladder.Prelude.{
  ℕ, ◌+◌, ◌^◌, ◌≤◌, ◌<◌, ◌≡◌, refl, sym, ap, ◌∙◌, Bool, true, false, List, [], ◌++◌, length,
  append_assoc, append-nil, if◌then◌else◌, inl, inr, arith,
}
use ladder.Buffer.{write, read_all}
use ladder.Buffer.Inv.{
  contents, write-IsValid, write_index-write, read_all-IsValid, write_index-read_all_le,
}
use ladder.Buffer.Refine.{contents-write}
use ladder.Buffer.Queue.{read_all_lem}
use ladder.TlsConnection.{
  SslError, no_error, want_read, want_write, other_error, Engine, TlsConnection, post, encrypt,
  decrypt, write_all, while_alive, send, on_ssl_handshake_finished, handle_error, handle_ssl_error,
  shake, shake_if_needed, decrypt_if_finished,
}
use ladder.TlsConnection.Documented.{Documented, IsWilling}
use ladder.TlsConnection.Sound.{
  Kept, Quiet, with_engine, then_Quiet, post-Quiet, while_alive-Quiet, encrypt-Quiet, decrypt-Quiet,
}
use ladder.TlsConnection.Streams.{given_is, NoneWaits, Sound, Quiet-Sound, write_all-Quiet}

module _ {S : Type 0} (e : Engine S) (d : Documented e) (willing : IsWilling e) where
  abbrev sent_by : ℕ → List ℕ → TlsConnection S → Bool → Bool → TlsConnection S
  sent_by fuel buf t shut finished =
      if shut
      then t
      else if finished
      then while_alive e post (write_all e (length buf) fuel buf t)
      else record t { pre_write_buffer = write buf t.pre_write_buffer }

  -- Behind the handshake.
  write_all_and_post :
      {m : ℕ} {g : List ℕ} (fuel : ℕ) (buf : List ℕ) (t : TlsConnection S)
      → e.is_init_finished t.engine ≡ true
      → contents t.pre_write_buffer ≡ []
      → Kept e d m g t
      → Quiet e d m (g ++ buf) t (while_alive e post (write_all e (length buf) fuel buf t))
  write_all_and_post fuel buf t f w h =
      let written = write_all-Quiet e d willing (length buf) fuel buf t (omega arith) f w h in
      then_Quiet e d written (
        while_alive-Quiet e d post (write_all e (length buf) fuel buf t) written.kept
          (post-Quiet e d (write_all e (length buf) fuel buf t) written.kept))

  send-Quiet :
      {m : ℕ} {g : List ℕ} (fuel : ℕ) (buf : List ℕ) (t : TlsConnection S)
      → e.is_init_finished t.engine ≡ true
      → contents t.pre_write_buffer ≡ []
      → Kept e d m g t
      → Quiet e d m (g ++ buf) t (send e fuel buf t)
  unfolding send
  send-Quiet {m} {g} fuel buf t f w h =
      subst (λ (b : Bool). Quiet e d m (g ++ buf) t (sent_by fuel buf t t.base.shut_down b)) (sym f)
        (subst (λ (b : Bool). Quiet e d m (g ++ buf) t (sent_by fuel buf t b true)) (sym h.is_open)
          (write_all_and_post fuel buf t f w h))

  -- Before it.
  send_waits :
      {m : ℕ} {g : List ℕ} (fuel : ℕ) (buf : List ℕ) (t : TlsConnection S)
      → e.is_init_finished t.engine ≡ false
      → m + length buf < 2 ^ 32
      → Kept e d m g t
      → Sound e d willing (m + length buf) (g ++ buf) (send e fuel buf t)
  unfolding send
  send_waits {m} {g} fuel buf t f fits h =
      subst
        (λ (b : Bool).
          Sound e d willing (m + length buf) (g ++ buf) (sent_by fuel buf t t.base.shut_down b))
        (sym f)
        (subst
          (λ (b : Bool). Sound e d willing (m + length buf) (g ++ buf) (sent_by fuel buf t b false))
          (sym h.is_open)
          (record {
            kept = record {
              waits_valid = write-IsValid buf h.waits_valid room;
              waits_small =
                  omega (arith, write_index-write buf t.pre_write_buffer room, h.waits_small);
              plain_kept =
                  ap (λ (l : List ℕ). l ++ buf) h.plain_kept
                  ∙ append_assoc ((d.passed t.engine).plain) (contents t.pre_write_buffer) buf
                  ∙ ap (λ (l : List ℕ). (d.passed t.engine).plain ++ l)
                      (sym (contents-write buf h.waits_valid room));
              in_kept = h.in_kept;
              out_kept = h.out_kept;
              is_open = h.is_open;
            };
            none_waits = inr f;
          }))
    where
      room : t.pre_write_buffer.write_index + length buf < 2 ^ 32
      room = omega (arith, h.waits_small)

  wider :
      {m : ℕ} (n : ℕ) {g : List ℕ} {t : TlsConnection S}
      → m ≤ n
      → Sound e d willing m g t
      → Sound e d willing n g t
  wider n le h = record {
    kept = record {
      waits_valid = h.kept.waits_valid;
      waits_small = omega (arith, h.kept.waits_small);
      plain_kept = h.kept.plain_kept;
      in_kept = h.kept.in_kept;
      out_kept = h.kept.out_kept;
      is_open = h.kept.is_open;
    };
    none_waits = h.none_waits;
  }

  pub send-Sound :
      {m : ℕ} {g : List ℕ} (fuel : ℕ) (buf : List ℕ) (t : TlsConnection S)
      → m + length buf < 2 ^ 32
      → Sound e d willing m g t
      → Sound e d willing (m + length buf) (g ++ buf) (send e fuel buf t)
  send-Sound {m} {g} fuel buf t fits h = go (e.is_init_finished t.engine) refl h.none_waits
    where
      go :
          (b : Bool)
          → e.is_init_finished t.engine ≡ b
          → NoneWaits e d willing t
          → Sound e d willing (m + length buf) (g ++ buf) (send e fuel buf t)
      go true f (inl w) =
          wider (m + length buf) (omega arith)
            (Quiet-Sound e d willing h (send-Quiet fuel buf t f w h.kept))
      go b f (inr f') = send_waits fuel buf t f' fits h.kept
      go false f w = send_waits fuel buf t f fits h.kept

  -- What waited goes to the engine once the handshake is over.
  on_ssl_handshake_finished-Sound :
      {m : ℕ} {g : List ℕ} (fuel : ℕ) (t : TlsConnection S)
      → e.is_init_finished t.engine ≡ true
      → Kept e d m g t
      → Sound e d willing m g (on_ssl_handshake_finished e fuel t)
  unfolding on_ssl_handshake_finished
  on_ssl_handshake_finished-Sound {m} {g} fuel t f h =
      let pre = t.pre_write_buffer in
      let all = read_all_lem h.waits_valid in
      let plain = (d.passed t.engine).plain in
      let u = record t { pre_write_buffer = (read_all pre).1 } in
      let sent = send-Quiet {g = plain} fuel (read_all pre).0 u f all.1 (record {
        waits_valid = read_all-IsValid h.waits_valid;
        waits_small = omega (arith, write_index-read_all_le pre, h.waits_small);
        plain_kept = sym (ap (λ (l : List ℕ). plain ++ l) all.1 ∙ append-nil plain);
        in_kept = h.in_kept;
        out_kept = h.out_kept;
        is_open = h.is_open;
      }) in
      record {
        kept =
            given_is e d willing (ap (λ (l : List ℕ). plain ++ l) all.0 ∙ sym h.plain_kept)
              sent.kept;
        none_waits = inl (ap contents sent.waits ∙ all.1);
      }

  encrypt_and_post :
      {m : ℕ} {g : List ℕ} (fuel : ℕ) (t : TlsConnection S)
      → Kept e d m g t
      → Quiet e d m g t (while_alive e post (encrypt e fuel t))
  encrypt_and_post fuel t h =
      let first = encrypt-Quiet e d fuel t h in
      then_Quiet e d first (
        while_alive-Quiet e d post (encrypt e fuel t) first.kept
          (post-Quiet e d (encrypt e fuel t) first.kept))

  handle_error-Quiet :
      {m : ℕ} {g : List ℕ} (fuel : ℕ) (x : SslError) (t : TlsConnection S)
      → Kept e d m g t
      → Quiet e d m g t (handle_error e fuel x t).1
  unfolding handle_error
  handle_error-Quiet fuel no_error t h = record { kept = h; finish = refl; waits = refl }
  handle_error-Quiet fuel want_read t h = encrypt_and_post fuel t h
  handle_error-Quiet fuel want_write t h = encrypt_and_post fuel t h
  handle_error-Quiet fuel other_error t h = record { kept = h; finish = refl; waits = refl }

  handle_ssl_error-Sound :
      {m : ℕ} {g : List ℕ} (fuel : ℕ) (positive : Bool) (t : TlsConnection S)
      → Sound e d willing m g t
      → Sound e d willing m g (handle_ssl_error e fuel positive t).1
  unfolding handle_ssl_error
  handle_ssl_error-Sound fuel true t h = h
  handle_ssl_error-Sound fuel false t h =
      Quiet-Sound e d willing h (handle_error-Quiet fuel (e.get_error t.engine) t h.kept)

  pub shake-Sound :
      {m : ℕ} {g : List ℕ} (fuel : ℕ) (t : TlsConnection S)
      → Sound e d willing m g t
      → Sound e d willing m g (shake e fuel t).1
  unfolding shake
  shake-Sound {m} {g} fuel t h = go (e.do_handshake t.engine).0 (d.do_handshake_finished t.engine)
    where
      shaken : TlsConnection S
      shaken = record t { engine = (e.do_handshake t.engine).1 }

      shaken-Kept : Kept e d m g shaken
      shaken-Kept =
          with_engine e d t (e.do_handshake t.engine).1 (d.do_handshake_passes t.engine) h.kept

      go :
          (done : Bool)
          → e.is_init_finished (e.do_handshake t.engine).1 ≡ done
          → Sound e d willing m g
              (if done
                then handle_ssl_error e fuel true (on_ssl_handshake_finished e fuel shaken)
                else handle_ssl_error e fuel false shaken).1
      go true f =
          handle_ssl_error-Sound fuel true (on_ssl_handshake_finished e fuel shaken)
            (on_ssl_handshake_finished-Sound fuel shaken f shaken-Kept)
      go false f =
          handle_ssl_error-Sound fuel false shaken
            (record { kept = shaken-Kept; none_waits = inr f })

  pub shake_if_needed-Sound :
      {m : ℕ} {g : List ℕ} (fuel : ℕ) (t : TlsConnection S)
      → Sound e d willing m g t
      → Sound e d willing m g (shake_if_needed e fuel t).1
  unfolding shake_if_needed
  shake_if_needed-Sound {m} {g} fuel t h = go (e.is_init_finished t.engine)
    where
      go : (b : Bool) → Sound e d willing m g (if b then (true, t) else shake e fuel t).1
      go true = h
      go false = shake-Sound fuel t h

  pub decrypt_if_finished-Sound :
      {m : ℕ} {g : List ℕ} (fuel : ℕ) (t : TlsConnection S)
      → Sound e d willing m g t
      → Sound e d willing m g (decrypt_if_finished e fuel t).1
  unfolding decrypt_if_finished
  decrypt_if_finished-Sound {m} {g} fuel t h = go (e.is_init_finished t.engine)
    where
      go :
          (b : Bool)
          → Sound e d willing m g
              (if b then handle_ssl_error e fuel false (decrypt e fuel t) else (true, t)).1
      go true =
          handle_ssl_error-Sound fuel false (decrypt e fuel t)
            (Quiet-Sound e d willing h (decrypt-Quiet e d fuel t h.kept))
      go false = h
