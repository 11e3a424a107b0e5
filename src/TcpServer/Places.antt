-- ===== src/TcpServer/Places.antt =====
-- A descriptor in use is at one place.
use mathlib.Core.Path.{subst}
use ladder.Prelude.{
  inr, inl, Bool-cases, ℕ, suc, ◌+◌, ◌≤◌, ◌≡◌, refl, ap, ◌∙◌, true, false, List, [], ◌∷◌, ◌++◌,
  ◌==◌, if◌then◌else◌, arith,
}
use ladder.TcpServer.{
  member, erase, TcpServer, on_new_connection_callback, on_new_connection, insert_connection,
  on_close_connection_callback, stop, started_server, Event, accepts, begins, inserts, hangs_up,
  stops, in_use, can, step, Run, done, goes,
}

abbrev count : ℕ → List ℕ → ℕ
count x [] = 0
count x (y ∷ ys) = if x == y then suc (count x ys) else count x ys

count-none : (x : ℕ) (ys : List ℕ) → member x ys ≡ false → count x ys ≡ 0
count-none x [] h = refl
count-none x (y ∷ ys) h = ground (arith, count-none x ys (ground arith))

count-member : (x : ℕ) (ys : List ℕ) → count x ys ≡ 0 → member x ys ≡ false
count-member x [] h = refl
count-member x (y ∷ ys) h = elim (Bool-cases (x == y)) [
  | inl t ↦ absurd (positive (count x ys) (rw t at h))
  | inr f ↦ rw f (count-member x ys (rw f at h))
]
  where
    positive : (n : ℕ) → suc n ≡ 0 → ⊥
    positive n e = omega arith

count-last : (x y : ℕ) (ys : List ℕ) → count x (ys ++ y ∷ []) ≡ count x (y ∷ ys)
count-last x y [] = refl
count-last x y (z ∷ ys) = ground (arith, count-last x y ys)

count-erase : (x y : ℕ) (ys : List ℕ) → member y ys ≡ true → count x (y ∷ erase y ys) ≡ count x ys
count-erase x y [] h = absurd (cc)
count-erase x y (z ∷ ys) h = elim (Bool-cases (y == z)) [
  | inl t ↦ ground (arith)
  | inr f ↦ ground (arith, count-erase x y ys (ground arith))
]

-- At how many places a descriptor is.
abbrev places : ℕ → TcpServer → ℕ
places x s = count x s.queued + (count x s.opening + (count x s.connections + count x s.left_open))

abbrev pub Apart : TcpServer → Type 0
Apart s = (x : ℕ) → places x s ≤ 1

same_count : (x y : ℕ) (ys : List ℕ) → (x == y) ≡ true → member y ys ≡ false → count x ys ≡ 0
same_count x y ys t h =
    ap (λ (z : ℕ). count z ys) (let e : x ≡ y = ground arith in e) ∙ count-none y ys h

accepts-Apart :
    (y : ℕ) (s : TcpServer) → can (accepts y) s ≡ true → Apart s → Apart (step (accepts y) s)
unfolding can step in_use on_new_connection_callback
accepts-Apart y s h a x = elim (Bool-cases (x == y)) [
  | inl t ↦ ground (
    arith,
    count-last x y s.queued,
    same_count x y s.queued t (ground arith),
    same_count x y s.opening t (ground arith),
    same_count x y s.connections t (ground arith),
    same_count x y s.left_open t (ground arith),
  )
  | inr f ↦ ground (arith, count-last x y s.queued, a x)
]

begins-Apart :
    (y : ℕ) (s : TcpServer) → can (begins y) s ≡ true → Apart s → Apart (step (begins y) s)
unfolding can step on_new_connection
begins-Apart y s h a x = elim (Bool-cases s.running) [
  | inl t ↦ ground (arith, count-erase x y s.queued h, a x)
  | inr f ↦ ground (arith, count-erase x y s.queued h, a x)
]

inserts-Apart :
    (y : ℕ) (s : TcpServer) → can (inserts y) s ≡ true → Apart s → Apart (step (inserts y) s)
unfolding can step insert_connection
inserts-Apart y s h a x = elim (Bool-cases (member y s.connections)) [
  | inl t ↦ ground (arith, count-erase x y s.opening h, a x)
  | inr f ↦ ground (arith, count-erase x y s.opening h, a x)
]

hangs_up-Apart : (y : ℕ) (s : TcpServer) → Apart s → Apart (step (hangs_up y) s)
unfolding step on_close_connection_callback
hangs_up-Apart y s a x = elim (Bool-cases (member y s.connections)) [
  | inl t ↦ ground (arith, count-erase x y s.connections t, a x)
  | inr f ↦ ground (arith, a x)
]

stops-Apart : (s : TcpServer) → Apart s → Apart (step stops s)
unfolding step stop
stops-Apart s a x = omega (arith, a x)

step-Apart : (e : Event) (s : TcpServer) → can e s ≡ true → Apart s → Apart (step e s)
step-Apart (accepts y) s h a = accepts-Apart y s h a
step-Apart (begins y) s h a = begins-Apart y s h a
step-Apart (inserts y) s h a = inserts-Apart y s h a
step-Apart (hangs_up y) s h a = hangs_up-Apart y s a
step-Apart stops s h a = stops-Apart s a

pub Run-Apart : {s t : TcpServer} {es : List Event} → Run s es t → Apart s → Apart t
Run-Apart (done e h) a = subst Apart h a
Run-Apart (goes e rest f can_go r) a = Run-Apart r (step-Apart e _ can_go a)

new-Apart : Apart started_server
unfolding started_server
new-Apart x = omega arith

count-found : (x : ℕ) (ys : List ℕ) → member x ys ≡ true → 1 ≤ count x ys
count-found x [] h = absurd (cc)
count-found x (y ∷ ys) h = ground (arith, count-found x ys)

pub not_in_table :
    {t : TcpServer} {es : List Event} (fd : ℕ)
    → Run started_server es t
    → member fd t.opening ≡ true
    → member fd t.connections ≡ false
not_in_table {t} fd r h =
    count-member fd t.connections
      (omega (arith, Run-Apart r new-Apart fd, count-found fd t.opening h))
