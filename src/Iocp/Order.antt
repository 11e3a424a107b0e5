-- ===== src/Iocp/Order.antt =====
-- The output of a connection on Windows over its life: completions in any order.
use ladder.Iocp.{Iocp}
use ladder.Iocp.Flow.{Flow, Inv}
