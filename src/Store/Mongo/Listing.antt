-- ===== src/Store/Mongo/Listing.antt =====
-- `GetAllJobs` of stores/mongodb.go, over a database that does what the driver documents.
use agscheduler.Base.{◌≡◌, refl, ap, ◌∙◌, String, Option, none, some, List, [], ◌∷◌, ◌⊎◌, map, inr}
use agscheduler.Base.Dict.{Dict, lookup, Unique}
use agscheduler.Errors.{Error}
use agscheduler.Result.{Result, ok, err, panic, ◌>>=◌}
use agscheduler.Job.{Job}
use agscheduler.Store.{fresh}
use agscheduler.Store.Codec.{Codec, load_all, load_states}
use agscheduler.Store.Keyed.{IsStored, view}
use agscheduler.Store.Keyed.Listing.{state_in, state_at, IsListed, keyed-IsListing}
use agscheduler.Store.Listing.{IsListing}
use agscheduler.Store.Mongo.{Fields, Driver, load_documents, list_found, get_all_jobs, mongo_store}
use agscheduler.Store.Mongo.Refines.{Written, fields_again, docs, Good, entry_of}

abbrev written_state : Written → String
written_state d = d.state

abbrev pub document_in : String × Written → Error ⊎ Fields
document_in r = inr (fields_again r.1)

-- The cursor of `Find` gives the documents of the collection, each once and without an error.
pub record IsScanned {D H : Type 0} (driver : Driver D H) (Ready : D → H → Type 0)
    (held : D → H → String → Option Written) : Type 0 where
  pub scans :
      (d : D) (coll : H)
      → Ready d coll
      → (m : Dict Written) × Unique m
        × (driver.find coll d ≡ inr (map document_in m))
        × ((i : String) → lookup i m ≡ held d coll i)

state_in-entry_of : (o : Option Written) → state_in written_state o ≡ state_at (entry_of o)
state_in-entry_of none = refl
state_in-entry_of (some d) = refl

-- Chained calls, and the same calls with each result named.
and_later :
    (first : Result Job) (later : Result (List Job))
    → (first >>= λ j. later >>= λ js. ok (j ∷ js)) ≡ elim first [
      | err e ↦ err e
      | panic p ↦ panic p
      | ok j ↦ elim later [ err e ↦ err e | panic p ↦ panic p | ok js ↦ ok (j ∷ js) ]
    ]
and_later (err e) later = refl
and_later (panic p) later = refl
and_later (ok j) (err e) = refl
and_later (ok j) (panic p) = refl
and_later (ok j) (ok js) = refl

as_slice :
    (all : Result (List Job))
    → (all >>= λ js. ok (fresh js))
      ≡ elim all [ ok js ↦ ok (fresh js) | err e ↦ err e | panic p ↦ panic p ]
as_slice (ok js) = refl
as_slice (err e) = refl
as_slice (panic p) = refl

module _ {D H : Type 0} (driver : Driver D H) (codec : Codec) where
  load_documents-load_all :
      (m : Dict Written)
      → load_documents driver codec (map document_in m)
        ≡ load_all codec (map (λ r. written_state r.1) m)
  unfolding load_documents load_all
  load_documents-load_all [] = refl
  load_documents-load_all (r ∷ rest) =
      rw (load_documents-load_all rest) (
        and_later (codec.state_load r.1.state) (load_all codec (map (λ x. written_state x.1) rest)))

module _ {D H : Type 0} {driver : Driver D H} {Ready : D → H → Type 0}
    {held : D → H → String → Option Written} (scanned : IsScanned driver Ready held)
    (codec : Codec) where
  mongo_store-IsListed :
      IsListed (docs held) (Good Ready) written_state codec (mongo_store driver codec)
  unfolding get_all_jobs list_found load_states
  mongo_store-IsListed = record {
    rows = λ s ready.
        let (m, unique, found, same) = scanned.scans s.db s.coll ready in
        (
          m,
          unique,
          rw (found, load_documents-load_all driver codec m) (as_slice _),
          λ i. state_in-entry_of (lookup i m) ∙ ap (λ o. state_at (entry_of o)) (same i),
        );
  }

  -- Over a database whose cursor gives the documents of the collection, each once and without an
  -- error: where every document decodes to a job of that identifier, `GetAllJobs` of the MongoDB
  -- store succeeds with an array of its own that holds the jobs of its map, each once.
  pub mongo_store-IsListing :
      IsListing
        (IsStored (docs held) (Good Ready) codec)
        (view (docs held) (Good Ready) codec)
        (mongo_store driver codec)
  mongo_store-IsListing = keyed-IsListing mongo_store-IsListed
