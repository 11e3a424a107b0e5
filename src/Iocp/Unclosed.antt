-- ===== src/Iocp/Unclosed.antt =====
-- A read that is refused on Windows: the connection is never closed.
use ladder.Prelude.{
  ℕ, suc, ◌-◌, min, ◌≡◌, refl, ap, Bool, true, false, not, ◌&&◌, ◌||◌, List, [], ◌∷◌, ◌++◌, length,
  take, if◌then◌else◌, arith, ◌==◌,
}
use ladder.Buffer.{have_read, write, is_empty}
use ladder.Iocp.{
  PostReply, reset, Iocp, going, post_read, post_write, put_out, send, send_file_of,
  on_close_callback, Call, sends, sends_file, consumes, call, calls, close_or, stay,
  run_read_callback, on_read_callback, put_all, on_write_callback, Event, calls_it, read_done,
  write_done, happens, step, run,
}
use ladder.Iocp.Branches.{by_true, by_false, either, true_or, ask_again}

-- A connection that is shut down and that counts a read which is not under way.
record Held (closes : ℕ) (c : Iocp) : Type 0 where
  pub is_shut : c.shut_down ≡ true
  pub no_read : c.reads_now ≡ false
  pub counted : (c.read_refs == 0) ≡ false
  pub same_closes : c.close_calls ≡ closes

module _ {closes : ℕ} where
  on_close_callback-Held : (c : Iocp) → Held closes c → Held closes (on_close_callback c)
  unfolding on_close_callback
  on_close_callback-Held c h =
      by_false (Held closes) (c.read_refs == 0 && c.has_close_callback) _ _
        (ap (λ (b : Bool). b && c.has_close_callback) h.counted) h

  post_write-Held :
      (reply : PostReply) (c : Iocp) → Held closes c → Held closes (post_write reply c)
  unfolding post_write
  post_write-Held reply c h =
      by_true (Held closes) (c.shut_down || c.write_pending) _ _
        (true_or c.shut_down c.write_pending h.is_shut) h

  call-Held : (k : Call) (c : Iocp) → Held closes c → Held closes (call k c)
  unfolding call send send_file_of
  call-Held (sends s reply) c h = by_true (Held closes) c.shut_down _ _ h.is_shut h
  call-Held (sends_file header filebuf reply) c h =
      by_true (Held closes) (c.shut_down || not c.send_file) _ _
        (true_or c.shut_down (not c.send_file) h.is_shut) h
  call-Held (consumes n) c h = record {
    is_shut = h.is_shut;
    no_read = h.no_read;
    counted = h.counted;
    same_closes = h.same_closes;
  }

  put_all-Held : (ss : List (List ℕ)) (c : Iocp) → Held closes c → Held closes (put_all ss c)
  put_all-Held [] c h = h
  put_all-Held (s ∷ ss) c h = put_all-Held ss (put_out s c) (record {
    is_shut = h.is_shut;
    no_read = h.no_read;
    counted = h.counted;
    same_closes = h.same_closes;
  })

  close_or-Held :
      (f : Iocp → Iocp) (c : Iocp) → Held closes c → Held closes (f c) → Held closes (close_or f c)
  unfolding close_or
  close_or-Held f c h k =
      either (Held closes) (c.shut_down && is_empty c.write_buffer) _ _ (on_close_callback-Held c h)
        k

  then_close-Held : (c : Iocp) → Held closes c → Held closes (going (close_or stay) c)
  then_close-Held c h = either (Held closes) c.ended _ _ h (close_or-Held stay c h h)

  on_write_callback-Held :
      (n : ℕ) (pieces : List (List ℕ)) (reply : PostReply) (c : Iocp)
      → Held closes c
      → Held closes (on_write_callback n pieces reply c)
  unfolding on_write_callback
  on_write_callback-Held n pieces reply c h =
      close_or-Held (λ e. going (close_or stay) (post_write reply e)) after after-Held
        (then_close-Held (post_write reply after) (post_write-Held reply after after-Held))
    where
      taken_off : Iocp
      taken_off = record c { write_pending = false; write_buffer = have_read n c.write_buffer }

      taken_off-Held : Held closes taken_off
      taken_off-Held = record {
        is_shut = h.is_shut;
        no_read = h.no_read;
        counted = h.counted;
        same_closes = h.same_closes;
      }

      after : Iocp
      after = if c.has_write_callback then put_all pieces taken_off else taken_off

      after-Held : Held closes after
      after-Held =
          either (Held closes) c.has_write_callback _ _
            (put_all-Held pieces taken_off taken_off-Held) taken_off-Held

  happens-Held : (ev : Event) (c : Iocp) → Held closes c → Held closes (happens ev c)
  unfolding happens
  happens-Held (calls_it k) c h = call-Held k c h
  happens-Held (read_done bytes ks reply) c h = by_false (Held closes) c.reads_now _ _ h.no_read h
  happens-Held (write_done n pieces reply) c h =
      let k = min n (length c.write_wsa_buf) in
      either (Held closes) c.writes_now _ _
        (on_write_callback-Held k pieces reply
          (record c {
            writes_now = false;
            write_refs = c.write_refs - 1;
            sent = c.sent ++ take k c.write_wsa_buf;
          })
          (record {
            is_shut = h.is_shut;
            no_read = h.no_read;
            counted = h.counted;
            same_closes = h.same_closes;
          }))
        h

  run-Held : (evs : List Event) (c : Iocp) → Held closes c → Held closes (run evs c)
  unfolding run step
  run-Held [] c h = h
  run-Held (ev ∷ evs) c h =
      run-Held evs (step ev c) (either (Held closes) c.ended _ _ h (happens-Held ev c h))

suc_counts : (n : ℕ) → (suc n == 0) ≡ false
suc_counts n = ground arith

asked-Held :
    (c : Iocp)
    → c.ended ≡ false
    → c.reads_now ≡ false
    → c.shut_down ≡ false
    → Held c.close_calls (going (close_or (ask_again reset)) c)
unfolding close_or post_read
asked-Held c runs no_read not_shut = by_false (Held c.close_calls) c.ended _ _ runs (
    by_false (Held c.close_calls) (c.shut_down && is_empty c.write_buffer) _ _
      (ap (λ (b : Bool). b && is_empty c.write_buffer) not_shut)
      (by_false (λ d. Held c.close_calls (going (close_or stay) d)) c.shut_down _ _ not_shut
        (then_close-Held after (record {
          is_shut = refl;
          no_read = no_read;
          counted = suc_counts c.read_refs;
          same_closes = refl;
        }))))
  where
    after : Iocp
    after = record c { read_refs = suc c.read_refs; shut_down = true }

refused_read-Held :
    (b : ℕ) (bs : List ℕ) (c : Iocp)
    → c.ended ≡ false
    → c.reads_now ≡ true
    → c.shut_down ≡ false
    → Held c.close_calls (step (read_done (b ∷ bs) [] reset) c)
unfolding step happens on_read_callback run_read_callback calls
refused_read-Held b bs c runs now not_shut = by_false (Held c.close_calls) c.ended _ _ runs (
    by_true (Held c.close_calls) c.reads_now _ _ now (
      by_false (Held c.close_calls) c.shut_down _ _ not_shut (
        either (λ d. Held c.close_calls (going (close_or (ask_again reset)) d))
          (c.has_read_callback && not (is_empty filled.read_buffer)) filled filled
          (asked-Held filled runs refl not_shut) (asked-Held filled runs refl not_shut))))
  where
    filled : Iocp
    filled = record c {
      reads_now = false;
      read_refs = c.read_refs - 1;
      read_buffer = write (b ∷ bs) c.read_buffer;
    }

-- When bytes were read, the read callback does nothing, and the next read is refused since the other
-- end has gone, the close callback is not called any more, whatever follows.
pub close_calls-run :
    (b : ℕ) (bs : List ℕ) (c : Iocp) (evs : List Event)
    → c.ended ≡ false
    → c.reads_now ≡ true
    → c.shut_down ≡ false
    → (run (read_done (b ∷ bs) [] reset ∷ evs) c).close_calls ≡ c.close_calls
unfolding run
close_calls-run b bs c evs runs now not_shut =
    (run-Held evs (step (read_done (b ∷ bs) [] reset) c)
      (refused_read-Held b bs c runs now not_shut)).same_closes
