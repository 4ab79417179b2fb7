-- ===== src/Tests/Sorting.antt =====
-- The sorting function of the samples sorts.
use mathlib.Core.List.{Perm}
use mathlib.Core.List.Perm
use agscheduler.Base.{◌≤◌, inl, inr, List, [], ◌∷◌, All, All-map, Bool-cases, ltb→lt, ltb→le, arith}
use agscheduler.Time.{Time, before}
use agscheduler.Job.{Job}
use agscheduler.Store.Contract.{IsAscending, IsSorting}
use agscheduler.Tests.Samples.{place_job, sorted}

place_job-perm : (j : Job) (js : List Job) → Perm (place_job j js) (j ∷ js)
unfolding place_job
place_job-perm j [] = Perm.refl _
place_job-perm j (k ∷ ks) = elim (Bool-cases (before k.next_run_time j.next_run_time)) [
  | inl h ↦ rw h (Perm.trans (Perm.cons k (place_job-perm j ks)) (Perm.swap j k ks))
  | inr h ↦ rw h (Perm.refl _)
]

sorted-perm : (js : List Job) → Perm (sorted js) js
unfolding sorted
sorted-perm [] = Perm.refl _
sorted-perm (j ∷ js) = Perm.trans (place_job-perm j (sorted js)) (Perm.cons j (sorted-perm js))

-- Nothing in the list runs before the time.
abbrev After : Time → List Job → Type 0
After t js = All (λ k. t ≤ k.next_run_time) js

place_job-After :
    (t : Time) (j : Job) (js : List Job)
    → t ≤ j.next_run_time
    → After t js
    → After t (place_job j js)
unfolding place_job
place_job-After t j [] h a = (h, tt)
place_job-After t j (k ∷ ks) h a = elim (Bool-cases (before k.next_run_time j.next_run_time)) [
  | inl e ↦ rw e (a.0, place_job-After t j ks h a.1)
  | inr e ↦ rw e (h, a)
]

place_job-IsAscending : (j : Job) (js : List Job) → IsAscending js → IsAscending (place_job j js)
unfolding place_job
place_job-IsAscending j [] a = (tt, tt)
place_job-IsAscending j (k ∷ ks) a = elim (Bool-cases (before k.next_run_time j.next_run_time)) [
  | inl e ↦ rw e (
    place_job-After k.next_run_time j ks (omega (arith, ltb→lt _ _ e)) a.0,
    place_job-IsAscending j ks a.1,
  )
  | inr e ↦
      let first : j.next_run_time ≤ k.next_run_time = ltb→le _ _ e in
      rw e (
        (
          first,
          All-map (λ (i : Job). k.next_run_time ≤ i.next_run_time)
              (λ i. j.next_run_time ≤ i.next_run_time) ks (λ i h. omega arith) a.0,
        ),
        a,
      )
]

sorted-IsAscending : (js : List Job) → IsAscending (sorted js)
unfolding sorted
sorted-IsAscending [] = tt
sorted-IsAscending (j ∷ js) = place_job-IsAscending j (sorted js) (sorted-IsAscending js)

pub sorted-IsSorting : IsSorting sorted
sorted-IsSorting = record { permutes = sorted-perm; ascends = sorted-IsAscending }
