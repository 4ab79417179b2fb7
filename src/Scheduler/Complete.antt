-- ===== src/Scheduler/Complete.antt =====
-- Which of the stored jobs a round of `run` of scheduler.go starts.
use agscheduler.Base.{
  subst, ◌+◌, String, ◌≤◌, ◌≡◌, refl, sym, ap, ◌∙◌, true, false, Option, none, some, List, [], ◌∷◌,
  ◌++◌, append-nil, map, All, inl, inr, if◌then◌else◌, ◌==◌, eq_refl, Option-cases, Bool-cases,
  arith,
}
use agscheduler.Result.{ok}
use agscheduler.Time.{Time, before}
use agscheduler.Job.{Job}
use agscheduler.Env.{Env}
use agscheduler.Store.{Store, fresh, elements}
use agscheduler.Store.Contract.{IsAscending, IsSorting, IsLawful}
use agscheduler.Store.Listing.{IsListing, IsListOf, IsListOf-perm, find_in_tail}
use agscheduler.Store.Memory.{find_job, first_time}
use agscheduler.Store.Memory.Lookup.{Distinct}
use agscheduler.Store.Memory.Refines.{mem_of_find, first_time-le}
use agscheduler.Scheduler.{World, fired, stop_running}
use agscheduler.Scheduler.Quiet.{ran_ids, IsRunnable}
use agscheduler.Scheduler.Rounds.{due_prefix}
use agscheduler.Scheduler.Loop.{tick}
use agscheduler.Scheduler.Ticks.{tick_starts_due}

-- A job that is found, if it is due.
abbrev pub due_of : Time → Option Job → Option Job
due_of now none = none
due_of now (some j) = if before j.next_run_time now then some j else none

not_due_after :
    (now : Time) (x k : Job)
    → x.next_run_time ≤ k.next_run_time
    → before x.next_run_time now ≡ false
    → before k.next_run_time now ≡ false
not_due_after now x k le late = ground arith

-- The jobs at the front of an ascending list that are due are all its jobs that are due.
find-due_prefix :
    (now : Time) (i : String) (js : List Job)
    → IsAscending js
    → find_job i (due_prefix now js) ≡ due_of now (find_job i js)
unfolding find_job due_prefix first_time
find-due_prefix now i [] a = refl
find-due_prefix now i (x ∷ xs) a = elim (Bool-cases (before x.next_run_time now)) [
  | inl due ↦ rw due (elim (Bool-cases (x.id == i)) [
    | inl h ↦ rw h (rw due refl)
    | inr h ↦ rw h (find-due_prefix now i xs a.1)
  ])
  | inr late ↦ rw late (elim (Option-cases (find_job i (x ∷ xs))) [
    | inl h ↦ sym (ap (due_of now) h)
    | inr (k, h) ↦
        let le = first_time-le (x ∷ xs) k a (mem_of_find i (x ∷ xs) k h) in
        sym (ap (due_of now) h ∙ rw (not_due_after now x k le late) refl)
  ])
]

due_prefix-Distinct :
    (now : Time) (js : List Job) → IsAscending js → Distinct js → Distinct (due_prefix now js)
unfolding due_prefix
due_prefix-Distinct now [] a d = tt
due_prefix-Distinct now (x ∷ xs) a d = elim (Bool-cases (before x.next_run_time now)) [
  | inl due ↦
      rw due
        (find-due_prefix now x.id xs a.1 ∙ ap (due_of now) d.0, due_prefix-Distinct now xs a.1 d.1)
  | inr late ↦ rw late tt
]

-- What holds of every job that is found and due holds of the due jobs at the front.
due_prefix-All {κ} :
    (P : Job → Type κ) (now : Time) (js : List Job)
    → Distinct js
    → ((i : String) (k : Job) → find_job i js ≡ some k → before k.next_run_time now ≡ true → P k)
    → All P (due_prefix now js)
unfolding find_job due_prefix
due_prefix-All P now [] d h = tt
due_prefix-All P now (x ∷ xs) d h = elim (Bool-cases (before x.next_run_time now)) [
  | inl due ↦ rw due (
    h x.id x (rw (eq_refl x.id) refl) due,
    due_prefix-All P now xs d.1 (λ i k found. h i k (find_in_tail i x k xs d found)),
  )
  | inr late ↦ rw late tt
]

-- The list holds the jobs of a map that are due, each once.
abbrev pub IsDueIn : Time → (String → Option Job) → List Job → Type 0
IsDueIn now map_of = IsListOf (λ i. due_of now (map_of i))

due_prefix-IsDueIn :
    (now : Time) (map_of : String → Option Job) (js : List Job)
    → IsAscending js
    → IsListOf map_of js
    → IsDueIn now map_of (due_prefix now js)
due_prefix-IsDueIn now map_of js a l = record {
  distinct = due_prefix-Distinct now js a l.distinct;
  finds = λ i. find-due_prefix now i js a ∙ ap (due_of now) (l.finds i);
}

stop_running-quiet :
    {S : Type 0} (w : World S)
    → ((stop_running w).0 ≡ ok tt)
      × ((stop_running w).1.events ≡ w.events)
      × ((stop_running w).1.store ≡ w.store)
unfolding stop_running
stop_running-quiet w = elim (Bool-cases w.is_running) [
  | inl h ↦ rw h (refl, refl, refl)
  | inr h ↦ rw h (refl, refl, refl)
]

module _ (env : Env) {S : Type 0} {store : Store S} {Inv : S → Type 0}
    {view : S → String → Option Job} {kept : Job → Option Job}
    (lawful : IsLawful Inv view kept store) where
  IsComplete : World S → Type 0
  IsComplete w =
      let r = tick env store w in
      (due : List Job) × IsDueIn (env.clock w.clock_reads) (view w.store) due
      × (ran_ids r.1.events ≡ ran_ids w.events ++ map (λ j. j.id) due)
      × (r.0 ≡ ok tt)
      × Inv r.1.store

  tick-IsComplete :
      (w : World S) (js : List Job)
      → IsSorting env.sort
      → Inv w.store
      → w.cluster_node ≡ none
      → store.get_all_jobs w.store ≡ ok (fresh js)
      → IsListOf (view w.store) js
      → ((i : String) (j : Job)
          → view w.store i ≡ some j
          → before j.next_run_time (env.clock w.clock_reads) ≡ true
          → IsRunnable env w.func_map j)
      → IsComplete w
  unfolding IsComplete tick elements find_job
  tick-IsComplete w [] sorting stored standalone listed l can =
      let now = env.clock w.clock_reads in
      let woken : World S = record w { timer = some fired; clock_reads = w.clock_reads + 1 } in
      let (done, events, left) = stop_running-quiet woken in
      (
        [],
        record { distinct = tt; finds = λ i. ap (due_of now) (l.finds i) },
        rw listed (ap ran_ids events ∙ sym (append-nil _)),
        rw listed done,
        rw listed (subst Inv (sym left) stored),
      )
  tick-IsComplete w (x ∷ xs) sorting stored standalone listed l can =
      let now = env.clock w.clock_reads in
      let sorted_list = IsListOf-perm (x ∷ xs) (env.sort (x ∷ xs)) (sorting.permutes (x ∷ xs)) l in
      let (done, started, armed, still) =
        tick_starts_due env lawful w x xs stored standalone listed (
          due_prefix-All (IsRunnable env w.func_map) now (env.sort (x ∷ xs)) sorted_list.distinct
            (λ i k found. can i k (sym (sorted_list.finds i) ∙ found))) in
      (
        due_prefix now (env.sort (x ∷ xs)),
        due_prefix-IsDueIn now (view w.store) _ (sorting.ascends (x ∷ xs)) sorted_list,
        started,
        done,
        still,
      )

  -- When the timer fires in standalone mode, with a sorting function that sorts, over a lawful
  -- store in its invariant that lists the jobs of its map, each once and in an array of its own:
  -- if every stored job that is due at the reading of the clock names a registered function and no
  -- queue and has a next run time that can be computed at any time, then the round starts exactly
  -- the stored jobs that are due, each once, ends without an error and leaves the store in its
  -- invariant.
  pub tick_starts_stored :
      IsListing Inv view store
      → (w : World S) → IsSorting env.sort
      → Inv w.store
      → w.cluster_node ≡ none
      → ((i : String) (j : Job)
          → view w.store i ≡ some j
          → before j.next_run_time (env.clock w.clock_reads) ≡ true
          → IsRunnable env w.func_map j)
      → let r = tick env store w in
        (due : List Job) × IsDueIn (env.clock w.clock_reads) (view w.store) due
        × (ran_ids r.1.events ≡ ran_ids w.events ++ map (λ j. j.id) due)
        × (r.0 ≡ ok tt)
        × Inv r.1.store
  unfolding IsComplete
  tick_starts_stored listing w sorting stored standalone can =
      let (js, listed, l) = listing.lists w.store stored in
      tick-IsComplete w js sorting stored standalone listed l can
