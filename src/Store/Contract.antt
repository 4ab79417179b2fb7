-- ===== src/Store/Contract.antt =====
-- What the scheduler relies on in a store: a map from identifiers to jobs. `Inv` is the invariant
-- of an implementation, `view` the map that its state stands for, and `kept` what it keeps of a
-- job, if it can store that job at all.
use mathlib.Core.List.{Perm}
use agscheduler.Base.{
  ◌≤◌, String, ◌≡◌, ◌≢◌, Option, none, some, List, [], ◌∷◌, if◌then◌else◌, ◌==◌, All,
}
use agscheduler.Errors.{Error, job_not_found}
use agscheduler.Result.{Result, ok, err, require}
use agscheduler.Time.{Time}
use agscheduler.Job.{Job}
use agscheduler.Store.{Store}

-- Every job runs no earlier than those before it.
abbrev pub IsAscending : List Job → Type 0
IsAscending [] = Unit
IsAscending (j ∷ js) = All (λ k. j.next_run_time ≤ k.next_run_time) js × IsAscending js

-- What `sort.Sort(JobSlice(js))` is documented to do.
pub record IsSorting (sort : List Job → List Job) : Type 0 where
  pub permutes : (js : List Job) → Perm (sort js) js
  pub ascends : (js : List Job) → IsAscending (sort js)

module _ {S : Type 0} (Inv : S → Type 0) (view : S → String → Option Job) where
  -- A call that succeeds and leaves a state that stands for the map `new`.
  pub record Becomes (r : Result (Unit {0}) × S) (new : String → Option Job) : Type 0 where
    pub done : r.0 ≡ ok tt
    pub keeps : Inv r.1
    pub views : (i : String) → view r.1 i ≡ new i

  -- Any new job can be added, also one without an identifier.
  abbrev pub AddsAny : (kept : Job → Option Job) → Store S → Type 0
  AddsAny kept store =
      (s : S) (j k : Job)
      → Inv s
      → view s j.id ≡ none
      → kept j ≡ some k
      → Becomes (store.add_job j s) (λ i. if j.id == i then some k else view s i)

  -- The operations on single jobs act on the map. A new job has an identifier.
  pub record IsMap (kept : Job → Option Job) (store : Store S) : Type 0 where
    pub id_view : (s : S) (i : String) (j : Job) → Inv s → view s i ≡ some j → j.id ≡ i
    pub get :
        (s : S) (i : String) → Inv s → store.get_job i s ≡ require (job_not_found i) (view s i)
    pub add :
        (s : S) (j k : Job)
        → Inv s
        → j.id ≢ ""
        → view s j.id ≡ none
        → kept j ≡ some k
        → Becomes (store.add_job j s) (λ i. if j.id == i then some k else view s i)
    pub refuse_new :
        (s : S) (j : Job)
        → Inv s
        → view s j.id ≡ none
        → kept j ≡ none
        → (e : Error) × (store.add_job j s ≡ (err e, s))
    pub update :
        (s : S) (j x k : Job)
        → Inv s
        → view s j.id ≡ some x
        → kept j ≡ some k
        → Becomes (store.update_job j s) (λ i. if j.id == i then some k else view s i)
    pub refuse :
        (s : S) (j x : Job)
        → Inv s
        → view s j.id ≡ some x
        → kept j ≡ none
        → (e : Error) × (store.update_job j s ≡ (err e, s))
    pub delete :
        (s : S) (id : String) (x : Job)
        → Inv s
        → view s id ≡ some x
        → Becomes (store.delete_job id s) (λ i. if id == i then none else view s i)
    pub delete_all : (s : S) → Inv s → Becomes (store.delete_all_jobs s) (λ i. none)

  pub record IsLawful (kept : Job → Option Job) (store : Store S) : Type 0 where
    pub map_laws : IsMap kept store
    pub next_total : (s : S) → Inv s → (t : Time) × (store.get_next_run_time s ≡ ok t)
    pub next_least :
        (s : S) (t : Time) (i : String) (j : Job)
        → Inv s
        → store.get_next_run_time s ≡ ok t
        → view s i ≡ some j
        → t ≤ j.next_run_time
