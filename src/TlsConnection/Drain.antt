-- ===== src/TlsConnection/Drain.antt =====
-- `Encrypt` empties the memory buffer for the peer.
use mathlib.Core.Path.{subst}
use ladder.Prelude.{
  length-take, ℕ, zero, suc, ◌<◌, ◌≡◌, refl, sym, ap, ◌∙◌, Option, none, some, List, [], ◌∷◌, ◌++◌,
  length, take, drop, append-nil, append_assoc, length-drop, take-append-drop, arith,
}
use ladder.Connection.{put_out}
use ladder.TlsConnection.{Engine, max_buffer_size, TlsConnection, encrypt}
use ladder.TlsConnection.Documented.{Documented, unless_empty}

module _ {S : Type 0} (e : Engine S) (d : Documented e) where
  -- `u` is `t` when all that was pending has come to the output.
  pub record Drained (t u : TlsConnection S) : Type 0 where
    pub none_pending : d.pending u.engine ≡ []
    pub all_put_out : u.base.accepted ≡ t.base.accepted ++ d.pending t.engine
    pub same_status : u.base.status ≡ t.base.status

  abbrev read_out : ℕ → TlsConnection S → S → Option (List ℕ) → TlsConnection S
  read_out fuel t s none = record t { engine = s }
  read_out fuel t s (some bytes) =
      encrypt e fuel (record t { engine = s; base = put_out bytes t.base })

  take_nil : (l : List ℕ) → take max_buffer_size l ≡ [] → l ≡ []
  take_nil [] p = refl
  take_nil (c ∷ cs) p = absurd (omega (arith, ap length p))

  -- Fuel for each byte pending and one more is enough: nothing stays pending, what was pending is
  -- put into the output in order, and the program goes on.
  pub encrypt-Drained :
      (fuel : ℕ) (t : TlsConnection S)
      → length (d.pending t.engine) < fuel
      → Drained t (encrypt e fuel t)
  unfolding encrypt put_out
  encrypt-Drained zero t h = absurd (omega arith)
  encrypt-Drained (suc fuel) t h =
      subst (λ (o : Option (List ℕ)). Drained t (read_out fuel t s o))
        (sym (d.bio_read_gives max_buffer_size t.engine))
        (go (take max_buffer_size (d.pending t.engine)) refl (λ u. encrypt-Drained fuel u))
    where
      s : S
      s = (e.bio_read max_buffer_size t.engine).1

      all : List ℕ
      all = d.pending t.engine

      left : d.pending s ≡ drop max_buffer_size all
      left = d.bio_read_leaves max_buffer_size t.engine

      go :
          (xs : List ℕ)
          → take max_buffer_size (d.pending t.engine) ≡ xs
          → ((u : TlsConnection S)
              → length (d.pending u.engine) < fuel
              → Drained u (encrypt e fuel u))
          → Drained t (read_out fuel t s (unless_empty xs))
      go [] q ih = record {
        none_pending = left ∙ ap (drop max_buffer_size) (take_nil all q);
        all_put_out = sym (
            ap (λ (l : List ℕ). t.base.accepted ++ l) (take_nil all q)
            ∙ append-nil (t.base.accepted));
        same_status = refl;
      }
      go (c ∷ cs) q ih =
          let u = record t { engine = s; base = put_out (c ∷ cs) t.base } in
          let next = ih u (
            omega (
              arith,
              h,
              ap length left,
              length-drop max_buffer_size all,
              ap length q,
              length-take max_buffer_size all,
            )) in
          record {
            none_pending = next.none_pending;
            all_put_out =
                next.all_put_out
                ∙ append_assoc (t.base.accepted) (c ∷ cs) (d.pending s)
                ∙ ap (λ (l : List ℕ). t.base.accepted ++ l)
                    (ap (λ (l : List ℕ). (c ∷ cs) ++ l) left
                      ∙ ap (λ (l : List ℕ). l ++ drop max_buffer_size all) (sym q)
                      ∙ take-append-drop max_buffer_size all);
            same_status = next.same_status;
          }
