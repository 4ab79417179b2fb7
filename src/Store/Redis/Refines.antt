-- ===== src/Store/Redis/Refines.antt =====
-- stores/redis.go against interface.go, over a server that does what Redis documents.
use agscheduler.Base.{
  subst, ◌⊎◌, ◌≤◌, ◌≡◌, ◌≢◌, refl, ap, ◌∙◌, sym, arith, String, Option, none, some, List, [], ◌∷◌,
  inl, inr, if◌then◌else◌, ◌==◌, All, Bool-cases, eq_refl, some≢none, ne→test, some_inj,
}
use agscheduler.Base.Int.{ℤ, IsAtMost}
use agscheduler.Errors.{Error}
use agscheduler.Result.{ok-injective}
use agscheduler.Time.{
  Time, zero_time, unix, from_unix, from_unix_mono, from_unix-unix, whole_seconds, whole_seconds_le,
}
use agscheduler.Job.{Job}
use agscheduler.Store.Contract.{AddsAny, IsLawful}
use agscheduler.Store.Codec.{Codec, kept, IsGob, nil_or}
use agscheduler.Store.Keyed.Refines.{keyed-IsLawful, keyed-AddsAny}
use agscheduler.Store.Keyed.{Entry, read_entry, Writes, AddsKeyed, IsKeyed, IsTimed, IsStored, view}
use agscheduler.Store.Redis.{
  Command, hset, hdel, zadd, zrem, del, Reply, absent, present, failed, Client, RedisStore,
  run_pipeline, delete_job, delete_all_jobs, first_score, get_next_run_time, write_state, add_job,
  update_job, read_reply, get_job, redis_store,
}
use agscheduler.Store.Redis.Server.{field_after_all, score_after_all, IsOn, IsRedis}

abbrev pub time_of : Option ℤ → Time
time_of none = zero_time
time_of (some x) = from_unix x

unfoldable pub joined : Reply → Option ℤ → Option Entry
joined (present state) x = some (record { time = time_of x; state = state })
joined absent x = none
joined (failed e) x = none

module _ {D : Type 0} (client : Client D) (Ready : D → (h z : String) → Type 0)
    (scores : D → (z member : String) → Option ℤ) where
  -- A field of the hash and the score under the same name.
  abbrev pub docs : RedisStore D → String → Option Entry
  docs s i = joined (client.hget s.jobs_key i s.db) (scores s.db s.run_times_key i)

  pub record Good (s : RedisStore D) : Type 0 where
    pub ready : Ready s.db s.jobs_key s.run_times_key
    pub apart : s.jobs_key ≢ s.run_times_key
    -- Every field of the hash has a score.
    pub timed :
        (i state : String)
        → client.hget s.jobs_key i s.db ≡ present state
        → (x : ℤ) × (scores s.db s.run_times_key i ≡ some x)

reply_cases :
    (r : Reply)
    → ((r ≡ absent) ⊎ ((state : String) × (r ≡ present state))) ⊎ ((e : Error) × (r ≡ failed e))
reply_cases absent = inl (inl refl)
reply_cases (present state) = inl (inr (state, refl))
reply_cases (failed e) = inr (e, refl)

absent≢present : {state : String} → absent ≡ present state → ⊥
absent≢present h = cc

module _ {D : Type 0} {client : Client D} {Ready : D → (h z : String) → Type 0}
    {scores : D → (z member : String) → Option ℤ} (redis : IsRedis client Ready scores) where
  -- Commands that leave every field with a score leave a good store.
  run_pipeline-Writes :
      (s : RedisStore D) (commands : List Command) (new : String → Option Entry)
      → Good client Ready scores s
      → All (IsOn s.jobs_key s.run_times_key) commands
      → ((i state : String)
          → field_after_all commands s.jobs_key i (client.hget s.jobs_key i s.db) ≡ present state
          → (x : ℤ) × (score_after_all commands s.run_times_key i (scores s.db s.run_times_key i)
              ≡ some x))
      → ((i : String)
          → joined
              (field_after_all commands s.jobs_key i (client.hget s.jobs_key i s.db))
              (score_after_all commands s.run_times_key i (scores s.db s.run_times_key i))
            ≡ new i)
      → Writes
          (docs client Ready scores)
          (Good client Ready scores)
          (run_pipeline client commands s)
          new
  unfolding run_pipeline
  run_pipeline-Writes s commands new good on timed holds =
      let (fine, still) = redis.runs s.db s.jobs_key s.run_times_key commands good.ready on in
      let fields =
        λ (i : String). redis.executes s.db s.jobs_key s.run_times_key i commands good.ready on in
      let members =
        λ (i : String). redis.scored s.db s.jobs_key s.run_times_key i commands good.ready on in
      record {
        done = ap nil_or fine;
        good = record {
          ready = still;
          apart = good.apart;
          timed =
              λ i state h. let (x, e) = timed i state (sym (fields i) ∙ h) in (x, members i ∙ e);
        };
        entries = λ i. rw (fields i, members i) (holds i);
      }

  write_state-Writes :
      (codec : Codec) (s : RedisStore D) (j : Job) (state : String)
      → Good client Ready scores s
      → Writes
          (docs client Ready scores)
          (Good client Ready scores)
          (write_state client codec j (inr state) s)
          (λ i.
            if j.id == i
            then some (record { time = whole_seconds j.next_run_time; state = state })
            else docs client Ready scores s i)
  unfolding write_state field_after_all score_after_all joined
  write_state-Writes codec s j state good =
      run_pipeline-Writes s
        (hset s.jobs_key j.id state ∷ zadd s.run_times_key (unix j.next_run_time) j.id ∷ []) _ good
        (refl, (refl, tt))
        (λ i old.
          rw (eq_refl s.jobs_key, eq_refl s.run_times_key)
            (elim (Bool-cases (j.id == i)) [
              | inl h ↦ rw h (λ found. (_, refl))
              | inr h ↦ rw h (good.timed i old)
            ]))
        (λ i.
          rw (eq_refl s.jobs_key, eq_refl s.run_times_key)
            (elim (Bool-cases (j.id == i)) [
              | inl h ↦ rw (h, joined, from_unix-unix j.next_run_time) refl
              | inr h ↦ rw h refl
            ]))

  redis_store-AddsKeyed :
      (codec : Codec)
      → AddsKeyed
          (docs client Ready scores)
          (Good client Ready scores)
          codec
          whole_seconds
          (redis_store client codec)
  unfolding add_job write_state
  redis_store-AddsKeyed codec s j state good fresh dumped =
      rw dumped (write_state-Writes codec s j state good)

  redis_store-IsKeyed :
      (codec : Codec)
      → IsKeyed
          (docs client Ready scores)
          (Good client Ready scores)
          codec
          whole_seconds
          (redis_store client codec)
  unfolding get_job read_reply read_entry joined add_job update_job write_state delete_job
      delete_all_jobs field_after_all score_after_all
  redis_store-IsKeyed codec = record {
    get = λ s i good. elim (reply_cases (client.hget s.jobs_key i s.db)) [
      | inl (inl h) ↦ rw h refl
      | inl (inr (state, h)) ↦ rw h refl
      | inr (e, h) ↦ absurd (redis.answers s.db s.jobs_key s.run_times_key i e good.ready h)
    ];
    add = λ s j state good named. redis_store-AddsKeyed codec s j state good;
    update = λ s j x state good found dumped. rw dumped (write_state-Writes codec s j state good);
    refuse_new = λ s j e dumped. rw dumped refl;
    refuse = λ s j e dumped. rw dumped refl;
    delete = λ s id good.
        run_pipeline-Writes s (hdel s.jobs_key id ∷ zrem s.run_times_key id ∷ []) _ good
          (refl, (refl, tt))
          (λ i old.
            rw (eq_refl s.jobs_key, eq_refl s.run_times_key)
              (elim (Bool-cases (id == i)) [
                | inl h ↦ rw h (λ found. absurd (absent≢present found))
                | inr h ↦ rw h (good.timed i old)
              ]))
          (λ i.
            rw (eq_refl s.jobs_key, eq_refl s.run_times_key)
              (elim (Bool-cases (id == i)) [ inl h ↦ rw h refl | inr h ↦ rw h refl ]));
    delete_all = λ s good.
        let other = ne→test s.run_times_key s.jobs_key (λ h. good.apart (sym h)) in
        run_pipeline-Writes s (del s.jobs_key ∷ del s.run_times_key ∷ []) _ good (tt, (tt, tt))
          (λ i old. rw (eq_refl s.jobs_key, other) (λ found. absurd (absent≢present found)))
          (λ i. rw (eq_refl s.jobs_key, other) refl);
  }

  first_score_le :
      (first : List (String × ℤ)) (x : ℤ)
      → first ≢ []
      → ((m : String) (y : ℤ) (rest : List (String × ℤ)) → first ≡ (m, y) ∷ rest → IsAtMost y x)
      → first_score client (inr first) ≤ from_unix x
  unfolding first_score
  first_score_le [] x some_first least = absurd (some_first refl)
  first_score_le ((m, y) ∷ rest) x some_first least = from_unix_mono y x (least m y rest refl)

  next_le :
      (s : RedisStore D) (i : String) (r : Reply) (e : Entry)
      → Good client Ready scores s
      → client.hget s.jobs_key i s.db ≡ r
      → joined r (scores s.db s.run_times_key i) ≡ some e
      → first_score client (client.zrange_first s.run_times_key s.db) ≤ e.time
  unfolding joined
  next_le s i absent e good stored found = absurd (some≢none (sym found))
  next_le s i (failed x) e good stored found = absurd (some≢none (sym found))
  next_le s i (present state) e good stored found =
      let (x, scored) = good.timed i state stored in
      let (first, ranged, empty, least) = redis.ranges s.db s.jobs_key s.run_times_key good.ready in
      let at : time_of (scores s.db s.run_times_key i) ≡ e.time =
        ap (λ (o : Entry). o.time) (some_inj found) in
      let in_time : from_unix x ≡ e.time = sym (ap time_of scored) ∙ at in
      subst (λ t. first_score client (client.zrange_first s.run_times_key s.db) ≤ t) in_time
        (rw ranged (
          first_score_le first x (λ none_first. some≢none (sym scored ∙ empty none_first i))
            (λ m y rest first_is. least m y rest i x first_is scored)))

  redis_store-IsTimed :
      (codec : Codec)
      → IsTimed (docs client Ready scores) (Good client Ready scores) (redis_store client codec)
  unfolding get_next_run_time first_score joined
  redis_store-IsTimed codec = record {
    total = λ s good. (_, refl);
    least = λ s t i e good computed found. omega (
      arith,
      ok-injective computed,
      next_le s i (client.hget s.jobs_key i s.db) e good refl found,
    );
  }

  -- Over a Redis server that answers and does what Redis documents, with an encoding that keeps
  -- the identifier and the next run time of every job that it can encode, the Redis store keeps
  -- the contract that the scheduler relies on: where its two keys differ, hold a hash and a sorted
  -- set, and every field of the hash decodes to a job of that identifier that runs no earlier than
  -- the score under the same name, getting, adding, updating and deleting a job and deleting all
  -- jobs act as on a map from identifiers to what decodes from the encoded job, keep that state,
  -- and refuse a job that cannot be encoded; and the next run time can always be computed and is
  -- no later than that of any stored job; a job without an identifier can be added as well.
  pub redis_store-IsLawful :
      (codec : Codec)
      → IsGob codec
      → IsLawful
          (IsStored (docs client Ready scores) (Good client Ready scores) codec)
          (view (docs client Ready scores) (Good client Ready scores) codec)
          (kept codec)
          (redis_store client codec)
        × AddsAny
            (IsStored (docs client Ready scores) (Good client Ready scores) codec)
            (view (docs client Ready scores) (Good client Ready scores) codec)
            (kept codec)
            (redis_store client codec)
  redis_store-IsLawful codec gob =
      let keyed = redis_store-IsKeyed codec in
      (
        keyed-IsLawful (docs client Ready scores) (Good client Ready scores) codec gob whole_seconds
            whole_seconds_le (redis_store client codec) keyed (redis_store-IsTimed codec),
        keyed-AddsAny (docs client Ready scores) (Good client Ready scores) codec gob whole_seconds
            whole_seconds_le (redis_store client codec) keyed (redis_store-AddsKeyed codec),
      )
