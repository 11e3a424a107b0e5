-- ===== src/TlsConnection/Tests.antt =====
-- The TLS connection over an engine that does not encrypt.
use ladder.Prelude.{
  ℕ, ◌<◌, ◌≡◌, refl, sym, ap, ◌∙◌, Bool, true, false, Option, none, some, List, [], ◌∷◌, ◌++◌,
  length, take, drop, take-eq_self, arith,
}
use ladder.Buffer.Io.{wrote, got, WriteReply}
use ladder.TlsConnection.{no_error, Engine, new_tls_connection, encrypt}
use ladder.TlsConnection.Documented.{Passed, Documented, unless_empty}
use ladder.TlsConnection.Run.{Event, sends, reads, writes}
use ladder.TlsConnection.Drain.{Drained, encrypt-Drained}

record Clear : Type 0 where
  finished : Bool
  passed : Passed
  pending : List ℕ
  to_read : List ℕ

-- What one of the two takes, into what passed and into a memory buffer.
abbrev takes_all : (List ℕ → Clear → Clear) → List ℕ → Clear → Option ℕ × Clear
takes_all put [] s = (none, s)
takes_all put (c ∷ cs) s = (some (length (c ∷ cs)), put (c ∷ cs) s)

abbrev put_plain : List ℕ → Clear → Clear
put_plain i s = record s {
  passed = record (s.passed) { plain = s.passed.plain ++ i };
  pending = s.pending ++ i;
}

abbrev put_from_peer : List ℕ → Clear → Clear
put_from_peer i s = record s {
  passed = record (s.passed) { from_peer = s.passed.from_peer ++ i };
  to_read = s.to_read ++ i;
}

abbrev clear : Engine Clear
clear = record {
  is_init_finished = λ s. s.finished;
  do_handshake = λ s. (true, record s { finished = true });
  ssl_write = takes_all put_plain;
  ssl_read = λ n s. (unless_empty (take n s.to_read), record s { to_read = drop n s.to_read });
  get_error = λ s. no_error;
  bio_write = takes_all put_from_peer;
  bio_read = λ n s. (
    unless_empty (take n s.pending),
    record s {
      passed = record (s.passed) { to_peer = s.passed.to_peer ++ take n s.pending };
      pending = drop n s.pending;
    },
  );
}

abbrev or_zero : Option ℕ → ℕ
or_zero none = 0
or_zero (some n) = n

abbrev one_if_some : Option ℕ → ℕ
one_if_some none = 0
one_if_some (some n) = 1

takes_all-takes :
    (put : List ℕ → Clear → Clear) (i : List ℕ) (s : Clear) (n : ℕ)
    → (takes_all put i s).0 ≡ some n
    → (0 < n) × (take n i ≡ i) × ((takes_all put i s).1 ≡ put i s)
takes_all-takes put [] s n q = absurd (omega (arith, ap one_if_some q))
takes_all-takes put (c ∷ cs) s n q =
    let p = ap or_zero q in (omega (arith, p), take-eq_self n (c ∷ cs) (omega (arith, p)), refl)

takes_all-finished :
    (put : List ℕ → Clear → Clear)
    → ((i : List ℕ) (s : Clear) → (put i s).finished ≡ s.finished)
    → (i : List ℕ) (s : Clear) → (takes_all put i s).1.finished ≡ s.finished
takes_all-finished put same [] s = refl
takes_all-finished put same (c ∷ cs) s = same (c ∷ cs) s

abbrev clear-Documented : Documented clear
clear-Documented = record {
  passed = λ s. s.passed;
  pending = λ s. s.pending;
  bio_read_gives = λ n s. refl;
  bio_read_leaves = λ n s. refl;
  bio_read_passes = λ n s. refl;
  bio_read_finished = λ n s. refl;
  bio_write_takes = λ c cs s. (length (c ∷ cs), refl, omega arith);
  bio_write_passes = λ i s n q.
      let t = takes_all-takes put_from_peer i s n q in
      ap (λ (u : Clear). u.passed) t.2
      ∙ ap (λ (l : List ℕ). record (s.passed) { from_peer = s.passed.from_peer ++ l }) (sym t.1);
  bio_write_finished = takes_all-finished put_from_peer (λ i s. refl);
  ssl_write_positive = λ i s n q. (takes_all-takes put_plain i s n q).0;
  ssl_write_passes = λ i s n q.
      let t = takes_all-takes put_plain i s n q in
      ap (λ (u : Clear). u.passed) t.2
      ∙ ap (λ (l : List ℕ). record (s.passed) { plain = s.passed.plain ++ l }) (sym t.1);
  ssl_write_finished = takes_all-finished put_plain (λ i s. refl);
  ssl_read_passes = λ n s. refl;
  ssl_read_finished = λ n s. refl;
  do_handshake_passes = λ s. refl;
  do_handshake_finished = λ s. refl;
}

abbrev fresh : Clear
fresh = record {
  finished = false;
  passed = record { plain = []; from_peer = []; to_peer = [] };
  pending = 1 ∷ 2 ∷ 3 ∷ [];
  to_read = [];
}

abbrev socket_answers : List (List WriteReply)
socket_answers = (wrote 2 ∷ wrote 3 ∷ []) ∷ (wrote 1 ∷ []) ∷ []

-- A client sends, is called for the handshake, sends again and reads.
abbrev life : List Event
life = sends (4 ∷ 5 ∷ []) ∷ writes [] ∷ sends (6 ∷ []) ∷ reads (got (7 ∷ 8 ∷ []) ∷ []) ∷ []

encrypt-Drained_example :
    Drained clear clear-Documented
      (new_tls_connection 5 fresh false [])
      (encrypt clear 4 (new_tls_connection 5 fresh false []))
unfolding new_tls_connection
encrypt-Drained_example =
    encrypt-Drained clear clear-Documented 4 (new_tls_connection 5 fresh false []) (omega arith)
