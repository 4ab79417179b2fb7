-- ===== src/Scheduler/Keeps/Always.antt =====
-- No call of the scheduler breaks its store, in whatever order they come.
use native.Mathlib.Nat.{le_refl}
use agscheduler.Base.{
  ℕ, ◌+◌, ◌≤◌, ◌<◌, String, ◌≡◌, ◌≢◌, sym, ap, ◌∙◌, Option, none, some, some≢none, List, [], ◌∷◌,
  inl, inr, if◌then◌else◌, ◌==◌, eq_iff, Bool-cases, arith,
}
use agscheduler.Result.{ok}
use agscheduler.Job.{Job}
use agscheduler.Job.Init.{new_id}
use agscheduler.Job.Ready.{id-init, init_named}
use agscheduler.Env.{Env}
use agscheduler.Store.{Store, Slice, sort_slice}
use agscheduler.Store.Contract.{IsLawful}
use agscheduler.Scheduler.{
  World, update_job, delete_job, delete_all_jobs, get_job, pause_job, resume_job,
}
use agscheduler.Scheduler.Calls.{
  Input, adding, getting, updating, deleting, deleting_all, pausing, resuming, running, scheduling,
  starting, stopping, ticking, quitting, after_call, after_calls, Admits, spent, spent_all,
}
use agscheduler.Scheduler.Run.{run_job, schedule_job}
use agscheduler.Scheduler.Loop.{quit}
use agscheduler.Scheduler.Keeps.{
  At, map_err_keeps, start_keeps, stop_keeps, run_func_keeps, schedule_keeps,
}
use agscheduler.Scheduler.Keeps.Rounds.{tick_keeps}
use agscheduler.Scheduler.Keeps.Operations.{
  update_job_leaves, add_job_leaves, delete_job_leaves, found_leaves,
}

module _ (env : Env) {S : Type 0} {store : Store S} {Inv : S → Type 0}
    {view : S → String → Option Job} {kept : Job → Option Job}
    (lawful : IsLawful Inv view kept store) where
  -- In its invariant, where the uuids from `first` on were read up to the `n`-th, which is at most
  -- the `bound`-th, the store holds none of the identifiers from there up to `limit`.
  record IsFree (first limit bound : ℕ) (s : S) (n : ℕ) : Type 0 where
    inv : Inv s
    since : first ≤ n
    within : n ≤ bound
    unused :
        (k : ℕ) (id : String) → n ≤ k → k < limit → new_id (env.uuid k) ≡ some id → view s id ≡ none

  -- A map without an identifier lacks it still where another was written or taken away.
  lacks_still :
      (i id : String) (o p : Option Job) → o ≡ none → i ≢ id → (if i == id then p else o) ≡ none
  lacks_still i id o p lost other = elim (Bool-cases (i == id)) [
    | inl h ↦ absurd (other ((eq_iff i id).0 h))
    | inr h ↦ rw h lost
  ]

  update_job-IsFree :
      (first limit bound : ℕ) (j : Job) (w : World S)
      → At (IsFree first limit bound) w
      → At (IsFree first limit bound) (update_job env store j w).1
  update_job-IsFree first limit bound j w f =
      update_job_leaves env lawful (IsFree first limit bound) w j f.inv f
        (λ x k next found calc keep.
          let change = lawful.map_laws.update w.store _ x k f.inv found keep in
          record {
            inv = change.keeps;
            since = f.since;
            within = f.within;
            unused = λ m id le lt made.
                let lost = f.unused m id le lt made in
                change.views id
                ∙ lacks_still j.id id _ _ lost
                    (λ same. some≢none (sym found ∙ ap (view w.store) same ∙ lost));
          })

  delete_job-IsFree :
      (first limit bound : ℕ) (id : String) (w : World S)
      → At (IsFree first limit bound) w
      → At (IsFree first limit bound) (delete_job env store id w).1
  delete_job-IsFree first limit bound id w f =
      delete_job_leaves env lawful (IsFree first limit bound) w id f.inv (λ absent. f)
        (λ x found.
          let change = lawful.map_laws.delete w.store id x f.inv found in
          record {
            inv = change.keeps;
            since = f.since;
            within = f.within;
            unused = λ m i le lt made.
                let lost = f.unused m i le lt made in
                change.views i
                ∙ lacks_still id i _ _ lost
                    (λ same. some≢none (sym found ∙ ap (view w.store) same ∙ lost));
          })

  spent_all_le : (cs : List Input) (n : ℕ) → n ≤ spent_all cs n
  spent_all_le [] n = le_refl n
  spent_all_le (adding j ∷ cs) n = omega (arith, spent_all_le cs (n + 1))
  spent_all_le (getting id ∷ cs) n = spent_all_le cs n
  spent_all_le (updating j ∷ cs) n = spent_all_le cs n
  spent_all_le (deleting id ∷ cs) n = spent_all_le cs n
  spent_all_le (deleting_all ∷ cs) n = spent_all_le cs n
  spent_all_le (pausing id ∷ cs) n = spent_all_le cs n
  spent_all_le (resuming id ∷ cs) n = spent_all_le cs n
  spent_all_le (running j ∷ cs) n = spent_all_le cs n
  spent_all_le (scheduling j ∷ cs) n = spent_all_le cs n
  spent_all_le (starting ∷ cs) n = spent_all_le cs n
  spent_all_le (stopping ∷ cs) n = spent_all_le cs n
  spent_all_le (ticking ∷ cs) n = spent_all_le cs n
  spent_all_le (quitting ∷ cs) n = spent_all_le cs n

  module _
      (sorts : (s : S) (js : Slice)
        → Inv s
        → store.get_all_jobs s ≡ ok js
        → let sorted = (sort_slice store env.sort js s).1 in
          Inv sorted × ((i : String) → view sorted i ≡ view s i))
      (first limit : ℕ)
      (differ : (m n : ℕ) (id : String)
        → first ≤ m
        → m < n
        → n < limit
        → new_id (env.uuid m) ≡ some id
        → new_id (env.uuid n) ≢ some id) where
    add_job-IsFree :
        (bound : ℕ) (j : Job) (w : World S)
        → bound < limit
        → At (IsFree first limit bound) w
        → At (IsFree first limit (bound + 1)) (after_call env store (adding j) w)
    unfolding after_call
    add_job-IsFree bound j w short f =
        let fresh : Admits env store view w (adding j) = λ ready made.
          f.unused w.uuids ready.id (le_refl w.uuids) (omega (arith, f.within, short))
            (id-init env w.func_map (env.uuid w.uuids) (env.clock w.clock_reads) j ready made) in
        let later : IsFree first limit (bound + 1) w.store (w.uuids + 1) = record {
          inv = f.inv;
          since = omega (arith, f.since);
          within = omega (arith, f.within);
          unused = λ k id le lt made. f.unused k id (omega (arith, le)) lt made;
        } in
        add_job_leaves env lawful (IsFree first limit (bound + 1)) w j f.inv later fresh
          (λ ready k made keep.
            let change =
              lawful.map_laws.add w.store ready k f.inv (init_named env _ _ _ j ready made)
                (fresh ready made) keep in
            let named =
              id-init env w.func_map (env.uuid w.uuids) (env.clock w.clock_reads) j ready made in
            record {
              inv = change.keeps;
              since = later.since;
              within = later.within;
              unused = λ m id le lt other.
                  change.views id
                  ∙ lacks_still ready.id id _ _ (f.unused m id (omega (arith, le)) lt other)
                      (λ same.
                        differ w.uuids m id f.since (omega (arith, le)) lt
                          (named ∙ ap (λ i. some i) same) other);
            })

    call-IsFree :
        (bound : ℕ) (c : Input) (w : World S)
        → spent c bound ≤ limit
        → At (IsFree first limit bound) w
        → At (IsFree first limit (spent c bound)) (after_call env store c w)
    unfolding after_call get_job delete_all_jobs run_job schedule_job quit pause_job resume_job
    call-IsFree bound (adding j) w enough f = add_job-IsFree bound j w (omega (arith, enough)) f
    call-IsFree bound (getting id) w enough f = f
    call-IsFree bound (updating j) w enough f = update_job-IsFree first limit bound j w f
    call-IsFree bound (deleting id) w enough f = delete_job-IsFree first limit bound id w f
    call-IsFree bound deleting_all w enough f =
        let change = lawful.map_laws.delete_all w.store f.inv in
        record {
          inv = change.keeps;
          since = f.since;
          within = f.within;
          unused = λ k id le lt made. change.views id;
        }
    call-IsFree bound (pausing id) w enough f =
        found_leaves env lawful (IsFree first limit bound) w id _ f.inv f
          (λ x found. update_job-IsFree first limit bound _ w f)
    call-IsFree bound (resuming id) w enough f =
        found_leaves env lawful (IsFree first limit bound) w id _ f.inv f
          (λ x found. update_job-IsFree first limit bound _ w f)
    call-IsFree bound (running j) w enough f = run_func_keeps (IsFree first limit bound) env j w f
    call-IsFree bound (scheduling j) w enough f =
        map_err_keeps (IsFree first limit bound) _ _
          (schedule_keeps (IsFree first limit bound) env j w f)
    call-IsFree bound starting w enough f = start_keeps (IsFree first limit bound) w f
    call-IsFree bound stopping w enough f = stop_keeps (IsFree first limit bound) w f
    call-IsFree bound ticking w enough f =
        tick_keeps env lawful (IsFree first limit bound) (λ s n g. g.inv)
          (update_job-IsFree first limit bound) (delete_job-IsFree first limit bound)
          (λ s n js g listed.
            let (inv, same) = sorts s js g.inv listed in
            record {
              inv = inv;
              since = g.since;
              within = g.within;
              unused = λ k id le lt made. same id ∙ g.unused k id le lt made;
            })
          w f
    call-IsFree bound quitting w enough f = f

    calls-IsFree :
        (bound : ℕ) (cs : List Input) (w : World S)
        → spent_all cs bound ≤ limit
        → At (IsFree first limit bound) w
        → At (IsFree first limit (spent_all cs bound)) (after_calls env store cs w)
    unfolding after_calls
    calls-IsFree bound [] w enough f = f
    calls-IsFree bound (c ∷ cs) w enough f =
        calls-IsFree (spent c bound) cs (after_call env store c w) enough
          (call-IsFree bound c w (omega (arith, enough, spent_all_le cs (spent c bound))) f)

  -- Over a lawful store in its invariant, after any sequence of calls of `AddJob`, `GetJob`,
  -- `UpdateJob`, `DeleteJob`, `DeleteAllJobs`, `PauseJob`, `ResumeJob`, `RunJob`, `ScheduleJob`,
  -- `Start` and `Stop`, rounds of `run` and messages of `quitChan`, with any arguments and
  -- whatever each of them ends in: the store is in its invariant, at most one uuid was read for
  -- each call of `AddJob`, and the store holds none of the identifiers of the uuids from the next
  -- one up to `limit`, so that a later `AddJob` cannot meet its own identifier there; provided
  -- that `limit` lies no lower than the uuids that the calls may read, that no two of the uuids
  -- from the next one up to `limit` make the same identifier, that the store holds none of theirs
  -- at the beginning, and that sorting the slice that `GetAllJobs` returns keeps the invariant and
  -- the stored jobs.
  pub after_calls-IsFree :
      ((s : S) (js : Slice)
        → Inv s
        → store.get_all_jobs s ≡ ok js
        → let sorted = (sort_slice store env.sort js s).1 in
          Inv sorted × ((i : String) → view sorted i ≡ view s i))
      → (cs : List Input) (w : World S) (limit : ℕ) → spent_all cs w.uuids ≤ limit
      → ((m n : ℕ) (id : String)
          → w.uuids ≤ m
          → m < n
          → n < limit
          → new_id (env.uuid m) ≡ some id
          → new_id (env.uuid n) ≢ some id)
      → Inv w.store
      → ((k : ℕ) (id : String)
          → w.uuids ≤ k
          → k < limit
          → new_id (env.uuid k) ≡ some id
          → view w.store id ≡ none)
      → let after = after_calls env store cs w in
        Inv after.store
        × (after.uuids ≤ spent_all cs w.uuids)
        × ((k : ℕ) (id : String)
            → after.uuids ≤ k
            → k < limit
            → new_id (env.uuid k) ≡ some id
            → view after.store id ≡ none)
  after_calls-IsFree sorts cs w limit enough differ stored unused =
      let free = calls-IsFree sorts w.uuids limit differ w.uuids cs w enough (record {
        inv = stored;
        since = le_refl w.uuids;
        within = le_refl w.uuids;
        unused = unused;
      }) in
      (free.inv, free.within, free.unused)
