-- ===== src/Iocp/Branches.antt =====
-- A predicate on a connection through a test.
use mathlib.Core.Path.{subst}
use ladder.Prelude.{◌≡◌, sym, ap, Bool, true, false, ◌||◌, if◌then◌else◌}
use ladder.Iocp.{PostReply, Iocp, going, post_read, close_or, stay}

-- The two results of a test.
pub by_true : (P : Iocp → Type 0) (b : Bool) (c d : Iocp) → b ≡ true → P c → P (if b then c else d)
by_true P b c d p h = subst (λ (a : Bool). P (if a then c else d)) (sym p) h

pub by_false :
    (P : Iocp → Type 0) (b : Bool) (c d : Iocp) → b ≡ false → P d → P (if b then c else d)
by_false P b c d p h = subst (λ (a : Bool). P (if a then c else d)) (sym p) h

pub either : (P : Iocp → Type 0) (b : Bool) (c d : Iocp) → P c → P d → P (if b then c else d)
either P true c d h k = h
either P false c d h k = k

pub true_or : (b a : Bool) → b ≡ true → (b || a) ≡ true
true_or b a p = ap (λ (x : Bool). x || a) p

-- What `OnReadCallback` does last.
abbrev pub ask_again : PostReply → Iocp → Iocp
ask_again reply d = going (close_or stay) (post_read reply d)
