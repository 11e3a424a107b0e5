-- ===== src/MemoryPool/Instance.antt =====
-- The one instance of the pool, after its release.
use ladder.Prelude.{◌≡◌, refl, Bool, true, false, List, [], ◌∷◌, if◌then◌else◌, arith}
use ladder.MemoryPool.{Singleton, create, release}

pub data Call : Type 0 where
  creates releases : Call

pub calls : List Call → Singleton → Singleton
unfolding create release
calls [] s = s
calls (creates ∷ ks) s = calls ks (create s).1
calls (releases ∷ ks) s = calls ks (release s)

-- The static variable of `create` points to a pool that is no more.
abbrev IsStale : Singleton → Type 0
IsStale s = (s.made ≡ true) × (s.deleted ≡ true)

create-IsStale : (s : Singleton) → IsStale s → IsStale (create s).1
unfolding create
create-IsStale s p = rw (p.0) (refl, p.1)

release-IsStale : (s : Singleton) → IsStale s → IsStale (release s)
unfolding release
release-IsStale s p = branched s.instance_is_set
  where
    branched :
        (b : Bool) → IsStale (if b then record s { deleted = true; instance_is_set = false } else s)
    branched true = (p.0, refl)
    branched false = p

calls-IsStale : (ks : List Call) (s : Singleton) → IsStale s → IsStale (calls ks s)
unfolding calls
calls-IsStale [] s p = p
calls-IsStale (creates ∷ ks) s p = calls-IsStale ks (create s).1 (create-IsStale s p)
calls-IsStale (releases ∷ ks) s p = calls-IsStale ks (release s) (release-IsStale s p)

released : (s : Singleton) → IsStale (release (create s).1)
unfolding create release
released s = ground arith

-- Once the pool has been created and released, `create` and `instance` never give a live pool
-- again: what they return is a pointer to the deleted one.
create-release :
    (s : Singleton) (ks : List Call) → (create (calls ks (release (create s).1))).0 ≡ false
unfolding create
create-release s ks = stale (calls-IsStale ks (release (create s).1) (released s))
  where
    t : Singleton
    t = calls ks (release (create s).1)

    stale : IsStale t → (create t).0 ≡ false
    stale p = rw (p.0, p.1) refl
