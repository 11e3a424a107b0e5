-- ===== src/Iocp/Flow.antt =====
-- The output in order, through the posting of reads and writes.
use ladder.Prelude.{
  ℕ, suc, ◌+◌, ◌^◌, ◌≤◌, ◌<◌, ◌≡◌, refl, sym, ap, ◌∙◌, Bool, true, false, ◌||◌, List, [], ◌∷◌, ◌++◌,
  append_assoc, length, drop, take-append-drop, if◌then◌else◌, ◌⊎◌, inl, inr, arith,
}
use ladder.Buffer.{Buffer, peek}
use ladder.Buffer.Inv.{IsValid, contents, write-IsValid, write_index-write}
use ladder.Buffer.Refine.{contents-write, peek_lem}
use ladder.Iocp.{
  PostReply, posted, reset, invalid, refused, max_wsa_buf_size, Iocp, read_asked, post_read,
  write_asked, post_piece, post_write, put_out, Call, sends, sends_file, consumes, put_all, Event,
  calls_it, read_done, write_done,
}

-- The write under way is of the bytes that come next.
pub record UnderWay (w : Buffer) (wsa : List ℕ) (pending : Bool) : Type 0 where
  pub is_pending : pending ≡ true
  pub behind : List ℕ
  pub comes_next : contents w ≡ wsa ++ behind

-- What was put into the output is what has left, in order, and then what the buffer holds.
pub record Flow (size : ℕ) (w : Buffer) (accepted sent wsa : List ℕ) (pending now : Bool)
    : Type 0 where
  pub is_valid : IsValid w
  pub is_small : w.write_index ≤ size
  pub kept : accepted ≡ sent ++ contents w
  pub under_way : (now ≡ false) ⊎ UnderWay w wsa pending

abbrev pub Inv : ℕ → Iocp → Type 0
Inv m c = Flow m c.write_buffer c.accepted c.sent c.write_wsa_buf c.write_pending c.writes_now

abbrev pub call_bytes : Call → ℕ
call_bytes (sends s reply) = length s
call_bytes (sends_file header filebuf reply) = length header + length filebuf
call_bytes (consumes n) = 0

abbrev pub calls_bytes : List Call → ℕ
calls_bytes [] = 0
calls_bytes (k ∷ ks) = call_bytes k + calls_bytes ks

abbrev pub pieces_bytes : List (List ℕ) → ℕ
pieces_bytes [] = 0
pieces_bytes (s ∷ ss) = length s + pieces_bytes ss

abbrev pub event_bytes : Event → ℕ
event_bytes (calls_it k) = call_bytes k
event_bytes (read_done bytes ks reply) = calls_bytes ks
event_bytes (write_done n pieces reply) = pieces_bytes pieces

abbrev pub events_bytes : List Event → ℕ
events_bytes [] = 0
events_bytes (ev ∷ evs) = event_bytes ev + events_bytes evs

pub widen :
    {m : ℕ} (n : ℕ) {w : Buffer} {accepted sent wsa : List ℕ} {pending now : Bool}
    → m ≤ n
    → Flow m w accepted sent wsa pending now
    → Flow n w accepted sent wsa pending now
widen n le h = record {
  is_valid = h.is_valid;
  is_small = omega (arith, h.is_small);
  kept = h.kept;
  under_way = h.under_way;
}

pub by_test :
    {m : ℕ} (b : Bool) (c d : Iocp)
    → (b ≡ true → Inv m c)
    → (b ≡ false → Inv m d)
    → Inv m (if b then c else d)
by_test true c d h k = h refl
by_test false c d h k = k refl

pub both : {m : ℕ} (b : Bool) (c d : Iocp) → Inv m c → Inv m d → Inv m (if b then c else d)
both b c d h k = by_test b c d (λ e. h) (λ e. k)

pub apart : true ≡ false → ⊥
apart p = cc

or_false : (a b : Bool) → (a || b) ≡ false → b ≡ false
or_false true b p = absurd (apart p)
or_false false b p = p

pub put_out-Inv :
    {m : ℕ} (s : List ℕ) (c : Iocp)
    → m + length s < 2 ^ 32
    → Inv m c
    → Inv (m + length s) (put_out s c)
put_out-Inv {m} s c fits h = record {
  is_valid = write-IsValid s h.is_valid room;
  is_small = omega (arith, h.is_small, write_index-write s c.write_buffer room);
  kept =
      ap (λ (l : List ℕ). l ++ s) h.kept
      ∙ append_assoc c.sent (contents c.write_buffer) s
      ∙ ap (λ (l : List ℕ). c.sent ++ l) (sym (contents-write s h.is_valid room));
  under_way = elim h.under_way [
    | inl p ↦ inl p
    | inr u ↦ inr (record {
      is_pending = u.is_pending;
      behind = u.behind ++ s;
      comes_next =
          contents-write s h.is_valid room
          ∙ ap (λ (l : List ℕ). l ++ s) u.comes_next
          ∙ append_assoc c.write_wsa_buf u.behind s;
    })
  ];
}
  where
    room : c.write_buffer.write_index + length s < 2 ^ 32
    room = omega (arith, h.is_small, fits)

pub put_all-Inv :
    {m : ℕ} (ss : List (List ℕ)) (c : Iocp)
    → m + pieces_bytes ss < 2 ^ 32
    → Inv m c
    → Inv (m + pieces_bytes ss) (put_all ss c)
put_all-Inv {m} [] c fits h = widen (m + 0) (omega arith) h
put_all-Inv {m} (s ∷ ss) c fits h = widen (m + (length s + pieces_bytes ss)) (omega arith) (
    put_all-Inv {m = m + length s} ss (put_out s c) (omega (arith, fits))
      (put_out-Inv s c (omega (arith, fits)) h))

pub post_read-Inv : {m : ℕ} (reply : PostReply) (c : Iocp) → Inv m c → Inv m (post_read reply c)
unfolding post_read
post_read-Inv {m} reply c h = both c.shut_down _ _ h (asked reply)
  where
    asked : (r : PostReply) → Inv m (read_asked r (record c { read_refs = suc c.read_refs }))
    asked posted = h
    asked reset = h
    asked invalid = h
    asked refused = h

post_piece-Inv :
    {m : ℕ} (reply : PostReply) (bytes behind : List ℕ) (c : Iocp)
    → contents c.write_buffer ≡ bytes ++ behind
    → c.writes_now ≡ false
    → Inv m c
    → Inv m (post_piece reply bytes c)
post_piece-Inv reply [] behind c p now h = record {
  is_valid = h.is_valid;
  is_small = h.is_small;
  kept = h.kept;
  under_way = inl now;
}
post_piece-Inv {m} reply (b ∷ bs) behind c p now h = asked reply
  where
    going_out : (now : Bool) → Flow m c.write_buffer c.accepted c.sent (b ∷ bs) true now
    going_out now = record {
      is_valid = h.is_valid;
      is_small = h.is_small;
      kept = h.kept;
      under_way = inr (record { is_pending = refl; behind = behind; comes_next = p });
    }

    asked :
        (r : PostReply)
        → Inv m (
            write_asked r (record c {
              write_wsa_buf = b ∷ bs;
              write_pending = true;
              write_refs = suc c.write_refs;
            }))
    asked posted = going_out true
    asked reset = going_out c.writes_now
    asked invalid = going_out c.writes_now
    asked refused = going_out c.writes_now

pub post_write-Inv : {m : ℕ} (reply : PostReply) (c : Iocp) → Inv m c → Inv m (post_write reply c)
unfolding post_write
post_write-Inv reply c h =
    by_test (c.shut_down || c.write_pending) _ _ (λ e. h)
      (λ e.
        post_piece-Inv reply (peek max_wsa_buf_size c.write_buffer).1
          (drop max_wsa_buf_size (contents c.write_buffer)) c
          (sym (
            ap (λ (r : ℕ × List ℕ). r.1 ++ drop max_wsa_buf_size (contents c.write_buffer))
              (peek_lem max_wsa_buf_size h.is_valid (omega arith))
            ∙ take-append-drop max_wsa_buf_size (contents c.write_buffer)))
          (none_under_way (or_false c.shut_down c.write_pending e) h.under_way) h)
  where
    none_under_way :
        c.write_pending ≡ false
        → (c.writes_now ≡ false) ⊎ UnderWay c.write_buffer c.write_wsa_buf c.write_pending
        → c.writes_now ≡ false
    none_under_way p (inl q) = q
    none_under_way p (inr u) = absurd (apart (sym u.is_pending ∙ p))
