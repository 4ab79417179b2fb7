-- ===== src/Tests/MongoStores.antt =====
-- The store of mongodb.go over a database of one collection.
use agscheduler.Base.{
  [], ◌∷◌, ◌≤◌, ◌≡◌, refl, ap, String, Option, none, some, map, inl, inr, Option-cases, Bool,
}
use agscheduler.Base.Int.{pos, IsAtMost}
use agscheduler.Base.Dict.{Dict, Unique, insert, lookup, lookup-insert}
use agscheduler.Result.{ok, err}
use agscheduler.Time.{Time}
use agscheduler.Store.Contract.{AddsAny, IsMap}
use agscheduler.Store.Codec.{kept}
use agscheduler.Store.Keyed.{Entry, IsStored, view}
use agscheduler.Store.Mongo.{
  Fields, Found, no_documents, document, Driver, MongoStore, mongo_store, get_next_run_time,
  no_documents_error,
}
use agscheduler.Store.Listing.{IsListing}
use agscheduler.Store.Mongo.Listing.{document_in, IsScanned, mongo_store-IsListing}
use agscheduler.Store.Mongo.Refines.{
  Written, fields_again, found_again, IsMongo, docs, Good, mongo_store-IsMap, next_run_time_lem,
}
use agscheduler.Tests.Tables.{
  insert-Unique, removed-Unique, at_most, ints-IsOrder, removed, lookup-removed, IsOrder, least,
  least_none, least_le, least_in,
}
use agscheduler.Tests.Codecs.{codec, codec-IsGob}

abbrev IsEarlier : Written → Written → Type 0
IsEarlier a b = IsAtMost a.seconds b.seconds

abbrev is_earlier : Written → Written → Bool
is_earlier a b = at_most a.seconds b.seconds

seconds-IsOrder : IsOrder IsEarlier is_earlier
seconds-IsOrder = record {
  sound = λ a b. ints-IsOrder.sound a.seconds b.seconds;
  total = λ a b. ints-IsOrder.total a.seconds b.seconds;
  trans = λ a b c. ints-IsOrder.trans a.seconds b.seconds c.seconds;
  same = λ a. ints-IsOrder.same a.seconds;
}

abbrev first_in : Dict Written → Option (String × Written)
first_in = least seconds-IsOrder

abbrev found_if : Option (String × Written) → Found
found_if none = no_documents
found_if (some r) = document (fields_again r.1)

-- A document as the store writes it.
abbrev written : Fields → Written
written f = record {
  seconds = elim f.next_run_time [ none ↦ pos 0 | some n ↦ n ];
  state = elim f.state [ none ↦ "" | some s ↦ s ];
}

abbrev replaced : Option Written → String → Fields → Dict Written → Found × Dict Written
replaced none id f d = (no_documents, d)
replaced (some x) id f d = (document (fields_again x), insert id (written f) d)

abbrev driver : Driver (Dict Written) String
driver = record {
  collection = λ database name. name;
  create_index = λ coll d. (none, d);
  insert_one = λ coll id f d. (none, insert id (written f) d);
  find_one = λ coll id d. found_again (lookup id d);
  find = λ coll d. inr (map document_in d);
  find_one_and_replace = λ coll id f d. replaced (lookup id d) id f d;
  delete_one = λ coll id d. (none, removed id d);
  delete_many = λ coll d. (none, []);
  find_first = λ coll d. found_if (first_in d);
  drop = λ coll d. (none, []);
}

abbrev Ready : Dict Written → String → Type 0
Ready d coll = Unique d

abbrev held : Dict Written → String → String → Option Written
held d coll i = lookup i d

driver-IsMongo : IsMongo driver Ready held
unfolding lookup
driver-IsMongo = record {
  finds = λ d coll i u. refl;
  inserts = λ d coll id state n u fresh. record {
    fine = refl;
    ready = insert-Unique id _ d u;
    holds = λ i. lookup-insert id i _ d;
  };
  replaces = λ d coll id state n x u found.
      rw found (record {
        fine = refl;
        ready = insert-Unique id _ d u;
        holds = λ i. lookup-insert id i _ d;
      });
  deletes = λ d coll id u. record {
    fine = refl;
    ready = removed-Unique id d u;
    holds = λ i. lookup-removed id i d;
  };
  empties = λ d coll u. record { fine = refl; ready = tt; holds = λ i. refl };
  orders = λ d coll u. elim (Option-cases (first_in d)) [
    | inl h ↦ inl (ap found_if h, λ i. least_none seconds-IsOrder d i h)
    | inr (r, h) ↦ inr (
      r.1,
      ap found_if h,
      (r.0, least_in seconds-IsOrder d r u h),
      λ i y found. least_le seconds-IsOrder d r i y h found,
    )
  ];
}

driver-IsScanned : IsScanned driver Ready held
driver-IsScanned = record { scans = λ d coll u. (d, u, refl, λ i. refl) }

mongo_store-IsListing_example :
    IsListing
      (IsStored (docs held) (Good Ready) codec)
      (view (docs held) (Good Ready) codec)
      (mongo_store driver codec)
mongo_store-IsListing_example = mongo_store-IsListing driver-IsScanned codec

mongo_store-IsMap_example :
    IsMap
      (IsStored (docs held) (Good Ready) codec)
      (view (docs held) (Good Ready) codec)
      (kept codec)
      (mongo_store driver codec)
    × AddsAny
        (IsStored (docs held) (Good Ready) codec)
        (view (docs held) (Good Ready) codec)
        (kept codec)
        (mongo_store driver codec)
mongo_store-IsMap_example = mongo_store-IsMap driver-IsMongo codec codec-IsGob

abbrev one_job : MongoStore (Dict Written) String
one_job = record {
  db = ("a", record { seconds = pos 90; state = "a" }) ∷ [];
  database = "agscheduler";
  collection = "jobs";
  coll = "jobs";
}

next_run_time_lem_example :
    (((i : String) → docs held one_job i ≡ none)
      → get_next_run_time driver one_job ≡ err no_documents_error)
    × ((k : String) (x : Entry)
        → docs held one_job k ≡ some x
        → (t : Time) × (get_next_run_time driver one_job ≡ ok t)
          × ((i : String) × (e : Entry) × (docs held one_job i ≡ some e) × (e.time ≡ t))
          × ((i : String) (e : Entry) → docs held one_job i ≡ some e → t ≤ e.time))
unfolding lookup
next_run_time_lem_example = next_run_time_lem driver-IsMongo one_job (refl, tt)
