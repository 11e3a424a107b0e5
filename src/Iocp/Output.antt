-- ===== src/Iocp/Output.antt =====
-- The output of a connection on Windows keeps its order, with one write under way at most.
use ladder.Prelude.{ℕ, ◌+◌, ◌^◌, ◌≤◌, ◌<◌, not, ◌&&◌, ◌||◌, List, [], ◌∷◌, length, arith, ◌==◌}
use ladder.Buffer.{is_empty}
use ladder.Iocp.{
  PostReply, Iocp, going, put_out, send, send_file_of, on_close_callback, Call, sends, sends_file,
  consumes, call, calls, close_or, run_read_callback,
}
use ladder.Iocp.Flow.{Inv, call_bytes, calls_bytes, widen, both, put_out-Inv, post_write-Inv}

send-Inv :
    {m : ℕ} (s : List ℕ) (reply : PostReply) (c : Iocp)
    → m + length s < 2 ^ 32
    → Inv m c
    → Inv (m + length s) (send s reply c)
unfolding send
send-Inv {m} s reply c fits h =
    both c.shut_down _ _ (widen (m + length s) (omega arith) h)
      (post_write-Inv reply (put_out s c) (put_out-Inv s c fits h))

send_file_of-Inv :
    {m : ℕ} (header filebuf : List ℕ) (reply : PostReply) (c : Iocp)
    → m + (length header + length filebuf) < 2 ^ 32
    → Inv m c
    → Inv (m + (length header + length filebuf)) (send_file_of header filebuf reply c)
unfolding send_file_of
send_file_of-Inv {m} header filebuf reply c fits h =
    both (c.shut_down || not c.send_file) _ _
      (widen (m + (length header + length filebuf)) (omega arith) h)
      (post_write-Inv reply (put_out filebuf (put_out header c)) (
        widen (m + (length header + length filebuf)) (omega arith) (
          put_out-Inv {m = m + length header} filebuf (put_out header c) (omega (arith, fits))
            (put_out-Inv header c (omega (arith, fits)) h))))

pub going-Inv :
    {m : ℕ} (n : ℕ) (f : Iocp → Iocp) (c : Iocp)
    → m ≤ n
    → Inv m c
    → (Inv m c → Inv n (f c))
    → Inv n (going f c)
going-Inv n f c le h k = both c.ended _ _ (widen n le h) (k h)

pub call-Inv :
    {m : ℕ} (k : Call) (c : Iocp)
    → m + call_bytes k < 2 ^ 32
    → Inv m c
    → Inv (m + call_bytes k) (call k c)
unfolding call
call-Inv (sends s reply) c fits h = send-Inv s reply c fits h
call-Inv (sends_file header filebuf reply) c fits h = send_file_of-Inv header filebuf reply c fits h
call-Inv {m} (consumes n) c fits h = widen (m + 0) (omega arith) h

calls-Inv :
    {m : ℕ} (ks : List Call) (c : Iocp)
    → m + calls_bytes ks < 2 ^ 32
    → Inv m c
    → Inv (m + calls_bytes ks) (calls ks c)
unfolding calls
calls-Inv {m} [] c fits h = widen (m + 0) (omega arith) h
calls-Inv {m} (k ∷ ks) c fits h = widen (m + (call_bytes k + calls_bytes ks)) (omega arith) (
    calls-Inv {m = m + call_bytes k} ks (going (call k) c) (omega (arith, fits)) (
      going-Inv (m + call_bytes k) (call k) c (omega arith) h
        (λ i. call-Inv k c (omega (arith, fits)) i)))

pub run_read_callback-Inv :
    {m : ℕ} (ks : List Call) (c : Iocp)
    → m + calls_bytes ks < 2 ^ 32
    → Inv m c
    → Inv (m + calls_bytes ks) (run_read_callback ks c)
unfolding run_read_callback
run_read_callback-Inv {m} ks c fits h =
    both (c.has_read_callback && not (is_empty c.read_buffer)) _ _ (calls-Inv ks c fits h)
      (widen (m + calls_bytes ks) (omega arith) h)

pub on_close_callback-Inv : {m : ℕ} (c : Iocp) → Inv m c → Inv m (on_close_callback c)
unfolding on_close_callback
on_close_callback-Inv c h = both (c.read_refs == 0 && c.has_close_callback) _ _ h h

pub close_or-Inv :
    {m : ℕ} (f : Iocp → Iocp) (c : Iocp) → Inv m c → Inv m (f c) → Inv m (close_or f c)
unfolding close_or
close_or-Inv f c h k =
    both (c.shut_down && is_empty c.write_buffer) _ _ (on_close_callback-Inv c h) k
