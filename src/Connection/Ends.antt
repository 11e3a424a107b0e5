-- ===== src/Connection/Ends.antt =====
-- A connection that has hung up, of which the program still holds a pointer.
use ladder.Prelude.{ℕ, ◌≡◌, ◌≢◌, refl, ap, ◌∙◌, Bool, false, List, if◌then◌else◌}
use ladder.Buffer.Io.{WriteReply, End, returned, failed, exited, waiting}
use ladder.Connection.{Connection, ended, on_close_callback, flush, enable_by, put_out, send}

enable_by_ends :
    (how : End) (c : Connection)
    → c.registered ≡ false
    → how ≢ waiting
    → (enable_by how c).status ≡ ended
unfolding enable_by
enable_by_ends returned c r n = ap (λ (b : Bool). if b then c.status else ended) r
enable_by_ends (failed e) c r n = ap (λ (b : Bool). if b then c.status else ended) r
enable_by_ends (exited e) c r n = refl
enable_by_ends waiting c r n = absurd (n refl)

-- When a connection that was not shut down has been closed by a hang-up, a Send that the program
-- still calls ends the program, whatever the socket answers, as long as it answers.
pub status-send :
    (s : List ℕ) (ws : List WriteReply) (c : Connection)
    → c.shut_down ≡ false
    → (flush ws (put_out s (on_close_callback c))).0 ≢ waiting
    → (send s ws (on_close_callback c)).status ≡ ended
unfolding send on_close_callback flush put_out
status-send s ws c not_shut answers =
    let d = on_close_callback c in
    let f = flush ws (put_out s d) in
    ap (λ (b : Bool). (if b then d else enable_by f.0 f.1).status) not_shut
    ∙ enable_by_ends f.0 f.1 refl answers
