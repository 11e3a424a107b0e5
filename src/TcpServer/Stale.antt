-- ===== src/TcpServer/Stale.antt =====
-- What is in the table after a hang-up that came too early, and after the server was stopped.
use mathlib.Core.Path.{subst}
use ladder.Prelude.{
  inl, inr, Bool-cases, ℕ, ◌≡◌, refl, Bool, true, false, List, [], ◌∷◌, ◌==◌, arith,
}
use ladder.TcpServer.{
  member, erase, TcpServer, on_new_connection_callback, on_new_connection, insert_connection,
  on_close_connection_callback, stop, started_server, Event, accepts, begins, inserts, hangs_up,
  stops, can, step, Run, done, goes,
}
use ladder.TcpServer.Places.{not_in_table}

abbrev pub NoStops : List Event → Type 0
NoStops [] = Unit
NoStops (accepts fd ∷ es) = NoStops es
NoStops (begins fd ∷ es) = NoStops es
NoStops (inserts fd ∷ es) = NoStops es
NoStops (hangs_up fd ∷ es) = NoStops es
NoStops (stops ∷ es) = ⊥

member-erase : (x y : ℕ) (ys : List ℕ) → (x == y) ≡ false → member x (erase y ys) ≡ member x ys
member-erase x y [] h = refl
member-erase x y (z ∷ ys) h = elim (Bool-cases (y == z)) [
  | inl t ↦ ground arith
  | inr f ↦ ground (arith, member-erase x y ys h)
]

-- In the table, although it has hung up.
abbrev IsStale : ℕ → TcpServer → Type 0
IsStale fd s = (member fd s.connections ≡ true) × (member fd s.hung_up ≡ true)

inserts-IsStale : (fd y : ℕ) (s : TcpServer) → IsStale fd s → IsStale fd (step (inserts y) s)
unfolding step insert_connection
inserts-IsStale fd y s (a, b) = elim (Bool-cases (member y s.connections)) [
  | inl t ↦ ground (arith, a, b)
  | inr f ↦ ground (arith, a, b)
]

hangs_up-IsStale :
    (fd y : ℕ) (s : TcpServer)
    → can (hangs_up y) s ≡ true
    → IsStale fd s
    → IsStale fd (step (hangs_up y) s)
unfolding can step on_close_connection_callback
hangs_up-IsStale fd y s h (a, b) =
    let other : (fd == y) ≡ false = elim (Bool-cases (fd == y)) [
      | inr f ↦ f
      | inl t ↦
          let e : member y s.hung_up ≡ true =
            subst (λ (z : ℕ). member z s.hung_up ≡ true) (let q : fd ≡ y = ground arith in q) b in
          absurd (clash (member fd s.opening) (ground arith))
    ] in
    elim (Bool-cases (member y s.connections)) [
      | inl t ↦ ground (arith, member-erase fd y s.connections other, a, b)
      | inr f ↦ ground (arith, a, b)
    ]
  where
    clash : Bool → false ≡ true → ⊥
    clash c e = cc

Run-IsStale :
    (fd : ℕ) {s t : TcpServer} (es : List Event)
    → NoStops es
    → Run s es t
    → IsStale fd s
    → IsStale fd t
unfolding step on_new_connection on_new_connection_callback
Run-IsStale fd es free (done e h) a = subst (IsStale fd) h a
Run-IsStale fd {s} es free (goes (accepts y) rest e can_go r) a =
    Run-IsStale fd rest (subst NoStops e free) r a
Run-IsStale fd {s} es free (goes (begins y) rest e can_go r) a =
    Run-IsStale fd rest (subst NoStops e free) r
      (elim (Bool-cases s.running) [ inl t ↦ ground (arith, a) | inr f ↦ ground (arith, a) ])
Run-IsStale fd {s} es free (goes (inserts y) rest e can_go r) a =
    Run-IsStale fd rest (subst NoStops e free) r (inserts-IsStale fd y s a)
Run-IsStale fd {s} es free (goes (hangs_up y) rest e can_go r) a =
    Run-IsStale fd rest (subst NoStops e free) r (hangs_up-IsStale fd y s can_go a)
Run-IsStale fd es free (goes stops rest e can_go r) a = absurd (subst NoStops e free)

made-IsStale :
    (fd : ℕ) (s : TcpServer)
    → member fd s.connections ≡ false
    → IsStale fd (step (inserts fd) (step (hangs_up fd) s))
unfolding step insert_connection on_close_connection_callback
made-IsStale fd s h = ground (arith, h)

-- A connection that hangs up between `Init` and its insertion is in the table from then on, and so
-- keeps its descriptor, until the server is stopped.
pub connections-on_close_connection_callback :
    {s t : TcpServer} {es : List Event} (fd : ℕ) (later : List Event)
    → Run started_server es s
    → member fd s.opening ≡ true
    → NoStops later
    → Run (step (inserts fd) (step (hangs_up fd) s)) later t
    → (member fd t.connections ≡ true) × (member fd t.hung_up ≡ true)
connections-on_close_connection_callback {s} fd later before opening free r =
    Run-IsStale fd later free r (made-IsStale fd s (not_in_table fd before opening))

-- No connection is there nor will be.
record IsOver (s : TcpServer) : Type 0 where
  not_running : s.running ≡ false
  not_accepting : s.accepting ≡ false
  no_opening : s.opening ≡ []
  no_connections : s.connections ≡ []

step-IsOver : (e : Event) (s : TcpServer) → can e s ≡ true → IsOver s → IsOver (step e s)
unfolding can step on_new_connection_callback on_new_connection insert_connection
    on_close_connection_callback stop
step-IsOver (accepts y) s h o = ground (arith, o)
step-IsOver (begins y) s h o = ground (arith, o)
step-IsOver (inserts y) s h o = ground (arith, o)
step-IsOver (hangs_up y) s h o = ground (arith, o)
step-IsOver stops s h o = ground (arith, o)

Run-IsOver : {s t : TcpServer} {es : List Event} → Run s es t → IsOver s → IsOver t
Run-IsOver (done e h) o = subst IsOver h o
Run-IsOver (goes e rest f can_go r) o = Run-IsOver r (step-IsOver e _ can_go o)

-- A server that is stopped while no connection is being opened has none from then on.
pub connections-stop :
    (s : TcpServer) {t : TcpServer} {es : List Event}
    → s.opening ≡ []
    → Run (step stops s) es t
    → (t.connections ≡ []) × (t.running ≡ false)
unfolding step stop
connections-stop s h r =
    let o = Run-IsOver r (record {
      not_running = refl;
      not_accepting = refl;
      no_opening = h;
      no_connections = refl;
    }) in
    (o.no_connections, o.not_running)
