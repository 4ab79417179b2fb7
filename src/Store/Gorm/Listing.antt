-- ===== src/Store/Gorm/Listing.antt =====
-- `GetAllJobs` of stores/grom.go, over a database that does what gorm documents.
use agscheduler.Base.{◌≡◌, refl, ap, ◌∙◌, String, Option, none, some, [], ◌∷◌, map, inr}
use agscheduler.Base.Dict.{Dict, lookup, Unique}
use agscheduler.Store.Codec.{Codec}
use agscheduler.Store.Keyed.{Entry, IsStored, view}
use agscheduler.Store.Keyed.Listing.{state_in, state_at, IsListed, keyed-IsListing}
use agscheduler.Store.Listing.{IsListing}
use agscheduler.Store.Gorm.{Row, Client, states, get_all_jobs, gorm_store}
use agscheduler.Store.Gorm.Refines.{docs, Good}

-- A row of the table.
abbrev pub row_in : String × Entry → Row
row_in (i, e) = record { id = i; next_run_time = e.time; state = e.state }

abbrev entry_state : Entry → String
entry_state e = e.state

-- `Find` without a condition gives the rows of the table, each once.
pub record IsScanned {D : Type 0} (client : Client D) (Ready : D → String → Type 0)
    (rows : D → String → String → Option Entry) : Type 0 where
  pub scans :
      (d : D) (table : String)
      → Ready d table
      → (m : Dict Entry) × Unique m
        × (client.find_all table d ≡ inr (map row_in m))
        × ((i : String) → lookup i m ≡ rows d table i)

states_of_rows :
    (m : Dict Entry) → map (λ row. row.state) (map row_in m) ≡ map (λ r. entry_state r.1) m
states_of_rows [] = refl
states_of_rows (r ∷ rest) = ap (◌∷◌ r.1.state) (states_of_rows rest)

state_in-state_at : (o : Option Entry) → state_in entry_state o ≡ state_at o
state_in-state_at none = refl
state_in-state_at (some e) = refl

module _ {D : Type 0} {client : Client D} {Ready : D → String → Type 0}
    {rows : D → String → String → Option Entry} (scanned : IsScanned client Ready rows)
    (codec : Codec) where
  gorm_store-IsListed :
      IsListed (docs rows) (Good Ready) entry_state codec (gorm_store client codec)
  unfolding get_all_jobs states
  gorm_store-IsListed = record {
    rows = λ s ready.
        let (m, unique, found, same) = scanned.scans s.db s.table_name ready in
        (
          m,
          unique,
          rw (found, states_of_rows m) refl,
          λ i. state_in-state_at (lookup i m) ∙ ap state_at (same i),
        );
  }

  -- Over a database whose `Find` without a condition gives the rows of the table, each once: where
  -- every row decodes to a job of that identifier, `GetAllJobs` of the store of grom.go succeeds
  -- with an array of its own that holds the jobs of its map, each once.
  pub gorm_store-IsListing :
      IsListing
        (IsStored (docs rows) (Good Ready) codec)
        (view (docs rows) (Good Ready) codec)
        (gorm_store client codec)
  gorm_store-IsListing = keyed-IsListing gorm_store-IsListed
