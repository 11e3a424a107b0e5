-- ===== src/TcpServer/Tests.antt =====
-- Two connections, of which one hangs up too early.
use ladder.Prelude.{◌≡◌, refl, true, false, [], ◌∷◌, arith}
use ladder.TcpServer.{
  member, TcpServer, started_server, accepts, begins, inserts, hangs_up, stops, in_use, can, step,
  on_new_connection_callback, on_new_connection, insert_connection, on_close_connection_callback,
  Run, done, goes,
}
use ladder.TcpServer.Stale.{connections-on_close_connection_callback, connections-stop}

two_opening : TcpServer
unfolding started_server
two_opening = record started_server { opening = 5 ∷ 4 ∷ [] }

two-Run : Run started_server (accepts 4 ∷ begins 4 ∷ accepts 5 ∷ begins 5 ∷ []) two_opening
unfolding two_opening started_server can in_use step on_new_connection_callback on_new_connection
two-Run = goes (accepts 4) _ refl refl (
    goes (begins 4) _ refl refl
      (goes (accepts 5) _ refl refl (goes (begins 5) _ refl refl (done refl refl))))

stale : TcpServer
unfolding two_opening started_server
stale = record two_opening {
  opening = [];
  connections = 5 ∷ 4 ∷ [];
  hung_up = 4 ∷ [];
  connected = 4 ∷ 5 ∷ [];
}

later-Run : Run (step (inserts 4) (step (hangs_up 4) two_opening)) (inserts 5 ∷ []) stale
unfolding stale two_opening started_server can step insert_connection on_close_connection_callback
later-Run = goes (inserts 5) _ refl refl (done refl refl)

connections-on_close_connection_callback_example :
    (member 4 stale.connections ≡ true) × (member 4 stale.hung_up ≡ true)
unfolding two_opening
connections-on_close_connection_callback_example =
    connections-on_close_connection_callback 4 (inserts 5 ∷ []) two-Run refl (omega arith) later-Run

connections-stop_example :
    ((step stops stale).connections ≡ []) × ((step stops stale).running ≡ false)
unfolding stale
connections-stop_example = connections-stop stale refl (done refl refl)
