-- ===== src/Store/Memory/Lookup.antt =====
-- What a lookup by identifier finds in the list of jobs, before and after each operation.
use agscheduler.Base.{
  String, ◌≡◌, refl, inl, inr, none, some, List, [], ◌∷◌, ◌++◌, arith, if◌then◌else◌, ◌==◌, eq_iff,
  Option-cases, Bool-cases,
}
use agscheduler.Job.{Job}
use agscheduler.Store.Memory.{find_job, replace_job, index_of}
use agscheduler.Store.Memory.Contents.{without_job}

-- No two jobs have one identifier.
abbrev pub Distinct : List Job → Type 0
Distinct [] = Unit
Distinct (j ∷ js) = (find_job j.id js ≡ none) × Distinct js

pub id-find_job : (i : String) (js : List Job) (j : Job) → find_job i js ≡ some j → j.id ≡ i
unfolding find_job
id-find_job i [] j h = cc
id-find_job i (x ∷ xs) j h = ground (arith, id-find_job i xs j, eq_iff x.id i)

pub find_job-append :
    (i : String) (js : List Job) (j : Job)
    → find_job j.id js ≡ none
    → find_job i (js ++ j ∷ []) ≡ (if j.id == i then some j else find_job i js)
unfolding find_job
find_job-append i [] j h = refl
find_job-append i (x ∷ xs) j h =
    ground (arith, find_job-append i xs j, eq_iff x.id i, eq_iff j.id i, eq_iff x.id j.id)

pub find_job-replace_job :
    (i : String) (j : Job) (js ks : List Job)
    → replace_job j js ≡ some ks
    → find_job i ks ≡ (if j.id == i then some j else find_job i js)
unfolding find_job replace_job
find_job-replace_job i j [] ks h = cc
find_job-replace_job i j (x ∷ xs) ks h = elim (Option-cases (replace_job j xs)) [
  | inl e ↦ ground (arith, eq_iff x.id i, eq_iff j.id i, eq_iff x.id j.id)
  | inr (rest, e) ↦
      ground
        (arith, find_job-replace_job i j xs rest e, eq_iff x.id i, eq_iff j.id i, eq_iff x.id j.id)
]

pub replace_job_found :
    (j x : Job) (js : List Job)
    → find_job j.id js ≡ some x
    → (ks : List Job) × (replace_job j js ≡ some ks)
unfolding find_job replace_job
replace_job_found j x [] h = cc
replace_job_found j x (y ∷ ys) h = elim (Bool-cases (y.id == j.id)) [
  | inl e ↦ (j ∷ ys, ground arith)
  | inr e ↦ let (rest, q) = replace_job_found j x ys (ground arith) in (y ∷ rest, ground arith)
]

pub replace_job_missing :
    (j : Job) (js : List Job) → find_job j.id js ≡ none → replace_job j js ≡ none
unfolding find_job replace_job
replace_job_missing j [] h = refl
replace_job_missing j (y ∷ ys) h = ground (arith, replace_job_missing j ys)

pub index_of_missing : (id : String) (js : List Job) → find_job id js ≡ none → index_of id js ≡ none
unfolding find_job index_of
index_of_missing id [] h = refl
index_of_missing id (y ∷ ys) h = ground (arith, index_of_missing id ys)

pub find_job-without_job :
    (i id : String) (js : List Job)
    → Distinct js
    → find_job i (without_job id js) ≡ (if id == i then none else find_job i js)
unfolding find_job without_job
find_job-without_job i id [] d = ground arith
find_job-without_job i id (x ∷ xs) d =
    ground (arith, find_job-without_job i id xs d.1, eq_iff x.id i, eq_iff id i, eq_iff x.id id)

pub append-Distinct :
    (js : List Job) (j : Job) → Distinct js → find_job j.id js ≡ none → Distinct (js ++ j ∷ [])
unfolding find_job
append-Distinct [] j d h = (refl, tt)
append-Distinct (x ∷ xs) j d h =
    let fresh : find_job j.id xs ≡ none = ground arith in
    (
      ground (arith, find_job-append x.id xs j fresh, eq_iff j.id x.id, eq_iff x.id j.id),
      append-Distinct xs j d.1 fresh,
    )

pub replace_job-Distinct :
    (j : Job) (js ks : List Job) → Distinct js → replace_job j js ≡ some ks → Distinct ks
unfolding find_job replace_job
replace_job-Distinct j [] ks d h = cc
replace_job-Distinct j (x ∷ xs) ks d h = elim (Option-cases (replace_job j xs)) [
  | inl e ↦ ground (arith, eq_iff x.id j.id)
  | inr (rest, e) ↦ ground (
    arith,
    replace_job-Distinct j xs rest d.1 e,
    find_job-replace_job x.id j xs rest e,
    eq_iff x.id j.id,
    eq_iff j.id x.id,
  )
]

pub without_job-Distinct :
    (id : String) (js : List Job) → Distinct js → Distinct (without_job id js)
unfolding find_job without_job
without_job-Distinct id [] d = tt
without_job-Distinct id (x ∷ xs) d = ground (
  arith,
  without_job-Distinct id xs d.1,
  find_job-without_job x.id id xs d.1,
  eq_iff x.id id,
  eq_iff id x.id,
)

pub find_job_missing : (id : String) (js : List Job) → index_of id js ≡ none → find_job id js ≡ none
unfolding find_job index_of
find_job_missing id [] h = refl
find_job_missing id (y ∷ ys) h = elim (Option-cases (index_of id ys)) [
  | inl e ↦ ground (arith, find_job_missing id ys e)
  | inr (k, e) ↦ ground arith
]
