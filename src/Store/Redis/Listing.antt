-- ===== src/Store/Redis/Listing.antt =====
-- `GetAllJobs` of stores/redis.go, over a server that does what Redis documents.
use agscheduler.Base.{◌≡◌, refl, String, Option, none, some, map, inr}
use agscheduler.Base.Int.{ℤ}
use agscheduler.Base.Dict.{Dict, lookup, Unique}
use agscheduler.Store.Codec.{Codec}
use agscheduler.Store.Keyed.{IsStored, view}
use agscheduler.Store.Keyed.Listing.{state_in, state_at, IsListed, keyed-IsListing}
use agscheduler.Store.Listing.{IsListing}
use agscheduler.Store.Redis.{Client, Reply, absent, present, failed, get_all_jobs, redis_store}
use agscheduler.Store.Redis.Refines.{docs, Good, joined}

abbrev pub stored_in : Reply → Option String
stored_in absent = none
stored_in (present state) = some state
stored_in (failed e) = none

abbrev pub own : String → String
own state = state

-- `HGETALL` gives the fields of the hash with their values, each once.
pub record IsScanned {D : Type 0} (client : Client D) (Ready : D → (h z : String) → Type 0)
    : Type 0 where
  pub scans :
      (d : D) (h z : String)
      → Ready d h z
      → (m : Dict String) × Unique m
        × (client.hget_all h d ≡ inr (map (λ r. own r.1) m))
        × ((i : String) → lookup i m ≡ stored_in (client.hget h i d))

stored_in-state_at :
    (o : Option String) (r : Reply) (x : Option ℤ)
    → o ≡ stored_in r
    → state_in own o ≡ state_at (joined r x)
unfolding joined
stored_in-state_at o absent x h = rw h refl
stored_in-state_at o (present state) x h = rw h refl
stored_in-state_at o (failed e) x h = rw h refl

module _ {D : Type 0} {client : Client D} {Ready : D → (h z : String) → Type 0}
    {scores : D → (z member : String) → Option ℤ} (scanned : IsScanned client Ready)
    (codec : Codec) where
  redis_store-IsListed :
      IsListed
        (docs client Ready scores)
        (Good client Ready scores)
        own
        codec
        (redis_store client codec)
  unfolding get_all_jobs
  redis_store-IsListed = record {
    rows = λ s good.
        let (m, unique, found, same) = scanned.scans s.db s.jobs_key s.run_times_key good.ready in
        (
          m,
          unique,
          rw found refl,
          λ i.
              stored_in-state_at (lookup i m) (client.hget s.jobs_key i s.db)
                (scores s.db s.run_times_key i) (same i),
        );
  }

  -- Over a Redis server whose `HGETALL` gives the fields of a hash with their values, each once:
  -- where every field of the hash has a score and decodes to a job of that identifier,
  -- `GetAllJobs` of the Redis store succeeds with an array of its own that holds the jobs of its
  -- map, each once.
  pub redis_store-IsListing :
      IsListing
        (IsStored (docs client Ready scores) (Good client Ready scores) codec)
        (view (docs client Ready scores) (Good client Ready scores) codec)
        (redis_store client codec)
  redis_store-IsListing = keyed-IsListing redis_store-IsListed
