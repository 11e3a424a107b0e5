-- ===== src/Iocp/Stranded.antt =====
-- The end of the stream on Windows while output waits: the rest stays.
use ladder.Prelude.{
  ℕ, ◌-◌, ◌^◌, ◌<◌, min, ◌≡◌, refl, ap, ◌∙◌, Bool, true, false, not, ◌&&◌, ◌||◌, List, [], ◌∷◌,
  ◌++◌, length, take, length-drop, arith,
}
use ladder.Buffer.{Buffer, have_read, is_empty}
use ladder.Buffer.Inv.{IsValid, contents, have_read-IsValid, length-contents}
use ladder.Buffer.Refine.{contents-have_read}
use ladder.Buffer.Queue.{is_empty_lem, is_nil}
use ladder.Iocp.{
  PostReply, Iocp, going, post_read, post_write, send, send_file_of, Call, sends, sends_file,
  consumes, call, calls, close_or, stay, run_read_callback, on_read_callback, on_write_callback,
  Event, calls_it, read_done, write_done, happens, step, run,
}
use ladder.Iocp.Branches.{by_true, by_false, either, true_or, ask_again}

-- A connection that is shut down, with no operation under way.
record Idle (closes : ℕ) (w : Buffer) (sent : List ℕ) (c : Iocp) : Type 0 where
  is_shut : c.shut_down ≡ true
  no_read : c.reads_now ≡ false
  no_write : c.writes_now ≡ false
  same_closes : c.close_calls ≡ closes
  same_buffer : c.write_buffer ≡ w
  same_sent : c.sent ≡ sent

module _ {closes : ℕ} {w : Buffer} {sent : List ℕ} where
  call-Idle : (k : Call) (c : Iocp) → Idle closes w sent c → Idle closes w sent (call k c)
  unfolding call send send_file_of
  call-Idle (sends s reply) c h = by_true (Idle closes w sent) c.shut_down _ _ h.is_shut h
  call-Idle (sends_file header filebuf reply) c h =
      by_true (Idle closes w sent) (c.shut_down || not c.send_file) _ _
        (true_or c.shut_down (not c.send_file) h.is_shut) h
  call-Idle (consumes n) c h = record {
    is_shut = h.is_shut;
    no_read = h.no_read;
    no_write = h.no_write;
    same_closes = h.same_closes;
    same_buffer = h.same_buffer;
    same_sent = h.same_sent;
  }

  happens-Idle : (ev : Event) (c : Iocp) → Idle closes w sent c → Idle closes w sent (happens ev c)
  unfolding happens
  happens-Idle (calls_it k) c h = call-Idle k c h
  happens-Idle (read_done bytes ks reply) c h =
      by_false (Idle closes w sent) c.reads_now _ _ h.no_read h
  happens-Idle (write_done n pieces reply) c h =
      by_false (Idle closes w sent) c.writes_now _ _ h.no_write h

  run-Idle : (evs : List Event) (c : Iocp) → Idle closes w sent c → Idle closes w sent (run evs c)
  unfolding run step
  run-Idle [] c h = h
  run-Idle (ev ∷ evs) c h =
      run-Idle evs (step ev c) (either (Idle closes w sent) c.ended _ _ h (happens-Idle ev c h))

-- Where output is left, nothing is closed.
and_false : (b : Bool) → (b && false) ≡ false
and_false true = refl
and_false false = refl

stays_open :
    (P : Iocp → Type 0) (f : Iocp → Iocp) (c : Iocp)
    → is_empty c.write_buffer ≡ false
    → P (f c)
    → P (close_or f c)
unfolding close_or
stays_open P f c e h =
    by_false P (c.shut_down && is_empty c.write_buffer) _ _
      (ap (λ (b : Bool). c.shut_down && b) e ∙ and_false c.shut_down) h

-- The end of the stream, with output left and a write under way.
abbrev at_end : Iocp → Iocp
at_end c = record c { reads_now = false; read_refs = c.read_refs - 1; shut_down = true }

read_done-at_end :
    (P : Iocp → Type 0) (reply : PostReply) (c : Iocp)
    → c.ended ≡ false
    → c.reads_now ≡ true
    → c.shut_down ≡ false
    → is_empty c.write_buffer ≡ false
    → P (at_end c)
    → P (step (read_done [] [] reply) c)
unfolding step happens on_read_callback run_read_callback calls post_read
read_done-at_end P reply c runs now not_shut left h = by_false P c.ended _ _ runs (
    by_true P c.reads_now _ _ now (
      by_false P c.shut_down _ _ not_shut (
        either (λ d. P (going (close_or (ask_again reply)) d))
          (c.has_read_callback && not (is_empty c.read_buffer)) (at_end c) (at_end c) after after)))
  where
    after : P (going (close_or (ask_again reply)) (at_end c))
    after = by_false P c.ended _ _ runs (
        stays_open P (ask_again reply) (at_end c) left
          (by_false P c.ended _ _ runs (stays_open P stay (at_end c) left h)))

abbrev write_ended : ℕ → Iocp → Iocp
write_ended k c = record c {
  writes_now = false;
  write_refs = c.write_refs - 1;
  sent = c.sent ++ take k c.write_wsa_buf;
  write_pending = false;
  write_buffer = have_read k c.write_buffer;
}

write_done-shut :
    (P : Iocp → Type 0) (n : ℕ) (reply : PostReply) (c : Iocp)
    → c.ended ≡ false
    → c.writes_now ≡ true
    → c.shut_down ≡ true
    → is_empty (have_read (min n (length c.write_wsa_buf)) c.write_buffer) ≡ false
    → P (write_ended (min n (length c.write_wsa_buf)) c)
    → P (step (write_done n [] reply) c)
unfolding step happens on_write_callback post_write
write_done-shut P n reply c runs now shut left h = by_false P c.ended _ _ runs (
    by_true P c.writes_now _ _ now (
      either (λ d. P (close_or (λ e. going (close_or stay) (post_write reply e)) d))
        c.has_write_callback d d after after))
  where
    d : Iocp
    d = write_ended (min n (length c.write_wsa_buf)) c

    after : P (close_or (λ e. going (close_or stay) (post_write reply e)) d)
    after =
        stays_open P (λ e. going (close_or stay) (post_write reply e)) d left
          (by_true (λ e. P (going (close_or stay) e)) (d.shut_down || d.write_pending) _ _
            (true_or d.shut_down d.write_pending shut)
            (by_false P c.ended _ _ runs (stays_open P stay d left h)))

not_nil : (l : List ℕ) → 0 < length l → is_nil l ≡ false
not_nil [] h = absurd (omega arith)
not_nil (x ∷ xs) h = refl

holds_some : {b : Buffer} → IsValid b → 0 < length (contents b) → is_empty b ≡ false
holds_some {b} v h = is_empty_lem v ∙ not_nil (contents b) h

-- When the other end has ended its stream while a write is under way and more output waits than that
-- write is of, and the callbacks do nothing then, the output behind that write is never sent and
-- the close callback is not called, whatever follows.
pub sent-run :
    (n : ℕ) (r r' : PostReply) (c : Iocp) (evs : List Event)
    → c.ended ≡ false
    → c.reads_now ≡ true
    → c.writes_now ≡ true
    → c.shut_down ≡ false
    → IsValid c.write_buffer
    → length c.write_wsa_buf < length (contents c.write_buffer)
    → ((run (read_done [] [] r ∷ write_done n [] r' ∷ evs) c).sent
        ≡ c.sent ++ take (min n (length c.write_wsa_buf)) c.write_wsa_buf)
      × (0 < length (contents (run (read_done [] [] r ∷ write_done n [] r' ∷ evs) c).write_buffer))
      × ((run (read_done [] [] r ∷ write_done n [] r' ∷ evs) c).close_calls ≡ c.close_calls)
unfolding run
sent-run n r r' c evs runs reading writing not_shut v more = (
  last.same_sent,
  omega (arith, rest, ap (λ (b : Buffer). length (contents b)) last.same_buffer),
  last.same_closes,
)
  where
    k : ℕ
    k = min n (length c.write_wsa_buf)

    w : Buffer
    w = have_read k c.write_buffer

    fits : k < 2 ^ 32
    fits = omega (arith, v, length-contents v, more)

    rest : 0 < length (contents w)
    rest = omega (
      arith,
      more,
      ap length (contents-have_read k v fits),
      length-drop k (contents c.write_buffer),
    )

    At : Iocp → Type 0
    At = Idle c.close_calls w (c.sent ++ take k c.write_wsa_buf)

    ended_both : At (step (write_done n [] r') (step (read_done [] [] r) c))
    ended_both =
        read_done-at_end (λ d. At (step (write_done n [] r') d)) r c runs reading not_shut
          (holds_some v (omega (arith, more)))
          (write_done-shut At n r' (at_end c) runs writing refl
            (holds_some (have_read-IsValid k v) rest)
            (record {
              is_shut = refl;
              no_read = refl;
              no_write = refl;
              same_closes = refl;
              same_buffer = refl;
              same_sent = refl;
            }))

    last : At (run evs (step (write_done n [] r') (step (read_done [] [] r) c)))
    last = run-Idle evs _ ended_both
