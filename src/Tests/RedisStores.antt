-- ===== src/Tests/RedisStores.antt =====
-- The store of redis.go over a server with one sorted set.
use agscheduler.Base.{
  ◌≡◌, ◌≢◌, refl, ap, ◌∙◌, String, Option, none, some, List, [], ◌∷◌, inl, inr, if◌then◌else◌, ◌==◌,
  Bool-cases, map,
}
use agscheduler.Base.Int.{ℤ}
use agscheduler.Base.Dict.{Dict, Unique, insert, lookup, lookup-insert}
use agscheduler.Errors.{Error, external}
use agscheduler.Store.Contract.{AddsAny, IsLawful}
use agscheduler.Store.Codec.{kept}
use agscheduler.Store.Keyed.{IsStored, view}
use agscheduler.Store.Redis.{
  Command, hset, hdel, zadd, zrem, del, Reply, absent, present, failed, Client, redis_store,
}
use agscheduler.Store.Redis.Server.{
  field_after, field_after_all, score_after, score_after_all, IsRedis,
}
use agscheduler.Store.Listing.{IsListing}
use agscheduler.Store.Redis.Listing.{own, stored_in, IsScanned, redis_store-IsListing}
use agscheduler.Store.Redis.Refines.{docs, Good, redis_store-IsLawful}
use agscheduler.Tests.Tables.{
  insert-Unique, removed-Unique, removed, lookup-removed, least, least_none, least_le, ints-IsOrder,
}
use agscheduler.Tests.Codecs.{codec, codec-IsGob}

abbrev hash_key : String
hash_key = "agscheduler.jobs"

-- One hash and one sorted set, under the two keys of the store.
record Server : Type 0 where
  fields : Dict String
  members : Dict ℤ

-- A command on the sorted set; it has one key.
abbrev run_members : String → Command → Dict ℤ → Dict ℤ
run_members z (hset k f v) ms = ms
run_members z (hdel k f) ms = ms
run_members z (zadd k s m) ms = if k == z then insert m s ms else ms
run_members z (zrem k m) ms = if k == z then removed m ms else ms
run_members z (del k) ms = if k == z then [] else ms

abbrev run_all_members : String → List Command → Dict ℤ → Dict ℤ
run_all_members z [] ms = ms
run_all_members z (c ∷ cs) ms = run_all_members z cs (run_members z c ms)

lookup-run_members :
    (z i : String) (c : Command) (ms : Dict ℤ)
    → lookup i (run_members z c ms) ≡ score_after c z i (lookup i ms)
unfolding score_after lookup
lookup-run_members z i (hset k f v) ms = refl
lookup-run_members z i (hdel k f) ms = refl
lookup-run_members z i (zadd k s m) ms = elim (Bool-cases (k == z)) [
  | inl h ↦ rw h (lookup-insert m i s ms)
  | inr h ↦ rw h refl
]
lookup-run_members z i (zrem k m) ms = elim (Bool-cases (k == z)) [
  | inl h ↦ rw h (lookup-removed m i ms)
  | inr h ↦ rw h refl
]
lookup-run_members z i (del k) ms = elim (Bool-cases (k == z)) [
  | inl h ↦ rw h refl
  | inr h ↦ rw h refl
]

lookup-run_all_members :
    (z i : String) (cs : List Command) (ms : Dict ℤ)
    → lookup i (run_all_members z cs ms) ≡ score_after_all cs z i (lookup i ms)
unfolding score_after_all
lookup-run_all_members z i [] ms = refl
lookup-run_all_members z i (c ∷ cs) ms =
    lookup-run_all_members z i cs (run_members z c ms)
    ∙ ap (score_after_all cs z i) (lookup-run_members z i c ms)

-- A command on the hash.
abbrev run_fields : Command → Dict String → Dict String
run_fields (hset k f v) fs = if k == hash_key then insert f v fs else fs
run_fields (hdel k f) fs = if k == hash_key then removed f fs else fs
run_fields (zadd k s m) fs = fs
run_fields (zrem k m) fs = fs
run_fields (del k) fs = if k == hash_key then [] else fs

abbrev run_all_fields : List Command → Dict String → Dict String
run_all_fields [] fs = fs
run_all_fields (c ∷ cs) fs = run_all_fields cs (run_fields c fs)

abbrev reply_of : Option String → Reply
reply_of none = absent
reply_of (some v) = present v

lookup-run_fields :
    (i : String) (c : Command) (fs : Dict String)
    → reply_of (lookup i (run_fields c fs)) ≡ field_after c hash_key i (reply_of (lookup i fs))
unfolding field_after lookup
lookup-run_fields i (hset k f v) fs = elim (Bool-cases (k == hash_key)) [
  | inl h ↦ rw h (
      ap reply_of (lookup-insert f i v fs)
      ∙ elim (Bool-cases (f == i)) [ inl e ↦ rw e refl | inr e ↦ rw e refl ])
  | inr h ↦ rw h refl
]
lookup-run_fields i (hdel k f) fs = elim (Bool-cases (k == hash_key)) [
  | inl h ↦ rw h (
      ap reply_of (lookup-removed f i fs)
      ∙ elim (Bool-cases (f == i)) [ inl e ↦ rw e refl | inr e ↦ rw e refl ])
  | inr h ↦ rw h refl
]
lookup-run_fields i (zadd k s m) fs = refl
lookup-run_fields i (zrem k m) fs = refl
lookup-run_fields i (del k) fs = elim (Bool-cases (k == hash_key)) [
  | inl h ↦ rw h refl
  | inr h ↦ rw h refl
]

lookup-run_all_fields :
    (i : String) (cs : List Command) (fs : Dict String)
    → reply_of (lookup i (run_all_fields cs fs))
      ≡ field_after_all cs hash_key i (reply_of (lookup i fs))
unfolding field_after_all
lookup-run_all_fields i [] fs = refl
lookup-run_all_fields i (c ∷ cs) fs =
    lookup-run_all_fields i cs (run_fields c fs)
    ∙ ap (field_after_all cs hash_key i) (lookup-run_fields i c fs)

run_fields-Unique : (c : Command) (fs : Dict String) → Unique fs → Unique (run_fields c fs)
run_fields-Unique (hset k f v) fs u = elim (Bool-cases (k == hash_key)) [
  | inl h ↦ rw h (insert-Unique f v fs u)
  | inr h ↦ rw h u
]
run_fields-Unique (hdel k f) fs u = elim (Bool-cases (k == hash_key)) [
  | inl h ↦ rw h (removed-Unique f fs u)
  | inr h ↦ rw h u
]
run_fields-Unique (zadd k s m) fs u = u
run_fields-Unique (zrem k m) fs u = u
run_fields-Unique (del k) fs u = elim (Bool-cases (k == hash_key)) [
  | inl h ↦ rw h tt
  | inr h ↦ rw h u
]

run_all_fields-Unique :
    (cs : List Command) (fs : Dict String) → Unique fs → Unique (run_all_fields cs fs)
run_all_fields-Unique [] fs u = u
run_all_fields-Unique (c ∷ cs) fs u =
    run_all_fields-Unique cs (run_fields c fs) (run_fields-Unique c fs u)

abbrev times_key : String
times_key = "agscheduler.run_times"

abbrev first_in : Option (String × ℤ) → List (String × ℤ)
first_in none = []
first_in (some r) = r ∷ []

-- `HGet` of another key: a sorted set with members is of the wrong type.
abbrev other_reply : String → Dict ℤ → Reply
other_reply key [] = absent
other_reply key (m ∷ ms) = if key == times_key then failed (external "WRONGTYPE") else absent

abbrev client : Client Server
client = record {
  pipelined = λ commands d. (
    none,
    record {
      fields = run_all_fields commands d.fields;
      members = run_all_members times_key commands d.members;
    },
  );
  hget = λ key field d.
      if key == hash_key then reply_of (lookup field d.fields) else other_reply key d.members;
  hget_all = λ key d. inr (if key == hash_key then map (λ r. own r.1) d.fields else []);
  zrange_first = λ key d. inr (first_in (least ints-IsOrder d.members));
}

-- The two keys are those that the server knows.
record Ready (d : Server) (h z : String) : Type 0 where
  hash : h ≡ hash_key
  only : z ≡ times_key
  unique : Unique d.fields

abbrev scores : Server → String → String → Option ℤ
scores d z i = lookup i d.members

first_in_nil : (o : Option (String × ℤ)) → first_in o ≡ [] → o ≡ none
first_in_nil none h = refl
first_in_nil (some r) h = cc

first_in_cons :
    (o : Option (String × ℤ)) (r : String × ℤ) (rest : List (String × ℤ))
    → first_in o ≡ r ∷ rest
    → o ≡ some r
first_in_cons none r rest h = cc
first_in_cons (some q) r rest h = cc

reply_of-answers : (o : Option String) (e : Error) → reply_of o ≢ failed e
reply_of-answers none e h = cc
reply_of-answers (some v) e h = cc

client-IsRedis : IsRedis client Ready scores
client-IsRedis = record {
  executes = λ d h z i commands ready on. rw ready.hash (lookup-run_all_fields i commands d.fields);
  answers = λ d h z i e ready. rw ready.hash (reply_of-answers (lookup i d.fields) e);
  runs = λ d h z commands ready on. (
    refl,
    record {
      hash = ready.hash;
      only = ready.only;
      unique = run_all_fields-Unique commands d.fields ready.unique;
    },
  );
  scored = λ d h z i commands ready on.
      rw ready.only (lookup-run_all_members times_key i commands d.members);
  ranges = λ d h z ready. (
    first_in (least ints-IsOrder d.members),
    refl,
    λ empty i. least_none ints-IsOrder d.members i (first_in_nil _ empty),
    λ m x rest i y first found.
        least_le ints-IsOrder d.members (m, x) i y (first_in_cons _ (m, x) rest first) found,
  );
}

stored_in-reply_of : (o : Option String) → o ≡ stored_in (reply_of o)
stored_in-reply_of none = refl
stored_in-reply_of (some v) = refl

client-IsScanned : IsScanned client Ready
client-IsScanned = record {
  scans = λ d h z ready. (
    d.fields,
    ready.unique,
    rw ready.hash refl,
    λ i. rw ready.hash (stored_in-reply_of (lookup i d.fields)),
  );
}

redis_store-IsListing_example :
    IsListing
      (IsStored (docs client Ready scores) (Good client Ready scores) codec)
      (view (docs client Ready scores) (Good client Ready scores) codec)
      (redis_store client codec)
redis_store-IsListing_example = redis_store-IsListing client-IsScanned codec

redis_store-IsLawful_example :
    IsLawful
      (IsStored (docs client Ready scores) (Good client Ready scores) codec)
      (view (docs client Ready scores) (Good client Ready scores) codec)
      (kept codec)
      (redis_store client codec)
    × AddsAny
        (IsStored (docs client Ready scores) (Good client Ready scores) codec)
        (view (docs client Ready scores) (Good client Ready scores) codec)
        (kept codec)
        (redis_store client codec)
redis_store-IsLawful_example = redis_store-IsLawful client-IsRedis codec codec-IsGob
