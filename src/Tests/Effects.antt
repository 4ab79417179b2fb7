-- ===== src/Tests/Effects.antt =====
-- A pause, against what a call may do to the stored jobs, and a sequence of calls.
use agscheduler.Base.{
  ℕ, zero, suc, ◌≤◌, ◌<◌, ◌≢◌, String, none, some_inj, sym, ◌∙◌, test→ne, arith, List, [], ◌∷◌, ◌*◌,
  ◌≡◌, refl, ◌⊎◌, subst, some,
}
use agscheduler.Result.{ok, ok-injective}
use agscheduler.Time.{second}
use agscheduler.Job.{status_paused}
use agscheduler.Store.{Slice, sort_slice}
use agscheduler.Store.Memory.{MemoryStore, find_job, memory_store}
use agscheduler.Store.Memory.Refines.{IsWellFormed, view, memory_store-IsLawful}
use agscheduler.Scheduler.Calls.{
  Input, adding, pausing, resuming, ticking, deleting_all, after_call, after_calls,
}
use agscheduler.Scheduler.Keeps.Always.{after_calls-IsFree}
use agscheduler.Scheduler.InPlace.{sort_slice-IsWellFormed}
use agscheduler.Scheduler.Effects.{IsSame, IsRestated, call_refines}
use agscheduler.Env.{Env}
use agscheduler.Job.Init.{new_id}
use agscheduler.Tests.Samples.{env, running, sorted}
use agscheduler.Tests.Sorting.{sorted-IsSorting}
use agscheduler.Tests.Jobs.{request}
use agscheduler.Tests.Stores.{
  two_jobs, two_jobs-IsWellFormed, copying_store, copying_store-IsLawful,
}

-- Sorting the copy leaves the store as it was.
sorting_copy :
    (s : MemoryStore) (js : Slice)
    → IsWellFormed s
    → copying_store.get_all_jobs s ≡ ok js
    → let sorted = (sort_slice copying_store env.sort js s).1 in
      IsWellFormed sorted × IsSame (view s) (view sorted)
unfolding sort_slice
sorting_copy s js w h =
    subst
      (λ l.
        let sorted = (sort_slice copying_store env.sort l s).1 in
        IsWellFormed sorted × IsSame (view s) (view sorted))
      (ok-injective h) (w, λ i. refl)

call_refines_example :
    let after = view (after_call env copying_store (pausing "m") (running two_jobs)).store in
    IsSame (view two_jobs) after
    ⊎ IsRestated env (λ j. some j) (100 * second) "m" status_paused (view two_jobs) after
call_refines_example =
    call_refines env copying_store-IsLawful sorting_copy (pausing "m") (running two_jobs) tt
      two_jobs-IsWellFormed

-- Two uuids; after them, the source repeats itself.
abbrev two_uuids : ℕ → String
two_uuids zero = "01234567-89ab-cdef-0123-456789abcdef"
two_uuids (suc n) = "11234567-89ab-cdef-0123-456789abcdef"

two_uuids_differ :
    (m n : ℕ) (id : String)
    → 0 ≤ m
    → m < n
    → n < 2
    → new_id (two_uuids m) ≡ some id
    → new_id (two_uuids n) ≢ some id
unfolding new_id
two_uuids_differ zero zero id le lt short made again = omega (arith, lt)
two_uuids_differ zero (suc n) id le lt short made again =
    test→ne "0123456789abcdef" "1123456789abcdef" refl (some_inj (made ∙ sym again))
two_uuids_differ (suc m) n id le lt short made again = omega (arith, lt, short)

two_jobs_unused :
    (k : ℕ) (id : String) → 0 ≤ k → k < 2 → new_id (two_uuids k) ≡ some id → view two_jobs id ≡ none
unfolding new_id find_job
two_jobs_unused zero id le short made = subst (λ i. view two_jobs i ≡ none) (some_inj made) refl
two_jobs_unused (suc k) id le short made = subst (λ i. view two_jobs i ≡ none) (some_inj made) refl

abbrev uuid_env : Env
uuid_env = record env { uuid = two_uuids }

abbrev calls : List Input
calls =
    adding request
    ∷ pausing "m"
    ∷ ticking
    ∷ adding request
    ∷ resuming "m"
    ∷ ticking
    ∷ deleting_all
    ∷ []

after_calls-IsFree_example :
    let after = after_calls uuid_env (memory_store sorted) calls (running two_jobs) in
    IsWellFormed after.store
    × (after.uuids ≤ 2)
    × ((k : ℕ) (id : String)
        → after.uuids ≤ k
        → k < 2
        → new_id (two_uuids k) ≡ some id
        → view after.store id ≡ none)
after_calls-IsFree_example =
    after_calls-IsFree uuid_env (memory_store-IsLawful sorted-IsSorting).0
      (λ s js w h. sort_slice-IsWellFormed s js sorted-IsSorting w h) calls (running two_jobs) 2
      (omega arith) two_uuids_differ two_jobs-IsWellFormed two_jobs_unused
