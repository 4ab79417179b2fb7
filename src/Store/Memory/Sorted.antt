-- ===== src/Store/Memory/Sorted.antt =====
-- What sorting the array of the memory store, and updating a job in it, leave as they were.
use mathlib.Core.Logic.Or
use mathlib.Core.List as Lists
use mathlib.Core.List.{
  Mem, Perm, Nodup, Nodup-nil, Nodup-cons, mem-cons, mem-cons_self, mem-cons_of_mem, not-mem-nil,
}
use mathlib.Core.List.Perm
use native.Mathlib.Bridge.{from_ℕ}
use agscheduler.Base.{
  ℕ, zero, suc, String, ◌≡◌, refl, ap, ◌∙◌, sym, inl, inr, none, some, List, [], ◌∷◌, ◌++◌, map,
  arith, length, take, drop, take-append, length-append, drop_of_drop, true, ◌==◌, eq_iff,
  Bool-cases, Option-cases,
}
use agscheduler.Job.{Job}
use agscheduler.Store.Memory.{MemoryStore, jobs, find_job, replace_job, update_job}
use agscheduler.Store.Memory.Contents.{length-jobs, jobs-update_job}
use agscheduler.Store.Memory.Lookup.{Distinct}
use agscheduler.Store.Memory.Refines.{IsWellFormed}

length_lem {ℓ} : {A : Type ℓ} (xs : List A) → length xs ≡ from_ℕ (Lists.length xs)
length_lem [] = refl
length_lem (x ∷ xs) = ap suc (length_lem xs)

pub length-perm {ℓ} : {A : Type ℓ} (xs ys : List A) → Perm xs ys → length xs ≡ length ys
length-perm xs ys p = length_lem xs ∙ ap from_ℕ (Perm.length-eq p) ∙ sym (length_lem ys)

abbrev ids : List Job → List String
ids = map (λ j. j.id)

not-mem_of_find : (i : String) (js : List Job) → find_job i js ≡ none → Mem i (ids js) → ⊥
unfolding find_job
not-mem_of_find i [] h m = not-mem-nil m
not-mem_of_find i (x ∷ xs) h m =
    Or.elim (λ a b. absurd a) (mem-cons.0 m) (λ e. ground (arith, eq_iff x.id i, e))
      λ rest. not-mem_of_find i xs (ground arith) rest

find_of_not-mem : (i : String) (js : List Job) → (Mem i (ids js) → ⊥) → find_job i js ≡ none
unfolding find_job
find_of_not-mem i [] h = refl
find_of_not-mem i (x ∷ xs) h = elim (Bool-cases (x.id == i)) [
  | inl e ↦ absurd (h (rw ((eq_iff x.id i).0 e) mem-cons_self))
  | inr e ↦ rw e (find_of_not-mem i xs λ m. h (mem-cons_of_mem x.id m))
]

Nodup-of_Distinct : (js : List Job) → Distinct js → Nodup (ids js)
Nodup-of_Distinct [] d = Nodup-nil
Nodup-of_Distinct (x ∷ xs) d = Nodup-cons.1 (not-mem_of_find x.id xs d.0, Nodup-of_Distinct xs d.1)

Distinct-of_Nodup : (js : List Job) → Nodup (ids js) → Distinct js
Distinct-of_Nodup [] d = tt
Distinct-of_Nodup (x ∷ xs) d =
    let (out, rest) = Nodup-cons.0 d in (find_of_not-mem x.id xs out, Distinct-of_Nodup xs rest)

pub Distinct-perm : (js ks : List Job) → Perm js ks → Distinct js → Distinct ks
Distinct-perm js ks p d =
    Distinct-of_Nodup ks (Perm.nodup (Perm.map (λ j. j.id) p) (Nodup-of_Distinct js d))

-- The state after `sort.Sort` of the slice of all jobs.
pub jobs-set_cells :
    (s : MemoryStore) (js : List Job)
    → length js ≡ s.len
    → take s.len (js ++ drop s.len s.array) ≡ js
jobs-set_cells s js h = take-append s.len js (drop s.len s.array) h

pub sorted-IsWellFormed :
    (s : MemoryStore) (js : List Job)
    → Perm js (jobs s)
    → IsWellFormed s
    → IsWellFormed (record s { array = js ++ drop s.len s.array })
sorted-IsWellFormed s js p w =
    let as_long : length js ≡ s.len = length-perm js (jobs s) p ∙ length-jobs s w.valid in
    record {
      valid = record { fits = omega (arith, length-append js (drop s.len s.array), as_long) };
      distinct =
          rw (jobs-set_cells s js as_long) (Distinct-perm (jobs s) js (Perm.symm p) w.distinct);
    }

-- An update of the job at an index leaves the elements behind it alone.
drop-replace_job :
    (k : ℕ) (y x : Job) (js ks xs : List Job)
    → replace_job y js ≡ some ks
    → drop k js ≡ x ∷ xs
    → x.id ≡ y.id
    → drop (suc k) ks ≡ xs
unfolding replace_job
drop-replace_job k y x [] ks xs r d e = cc
drop-replace_job zero y x (z ∷ zs) ks xs r d e =
    let first : z ≡ x = cc in
    let same : (z.id == y.id) ≡ true = (eq_iff z.id y.id).1 (ap (λ (j : Job). j.id) first ∙ e) in
    ground (arith, same)
drop-replace_job (suc k) y x (z ∷ zs) ks xs r d e = elim (Bool-cases (z.id == y.id)) [
  | inl h ↦ ground (arith, h, drop_of_drop k zs x xs d)
  | inr h ↦ elim (Option-cases (replace_job y zs)) [
    | inl n ↦ ground (arith, h, n)
    | inr (rest, q) ↦ ground (arith, h, q, drop-replace_job k y x zs rest xs q d e)
  ]
]

-- The slice of the first `n` jobs, seen from an index on.
abbrev pub Shows : ℕ → MemoryStore → ℕ → List Job → Type 0
Shows n s k rest = (s.len ≡ n) × (drop k (jobs s) ≡ rest)

-- An update of the job at an index, or of none, leaves what the slice shows behind it.
pub update_job-Shows :
    (n k : ℕ) (s : MemoryStore) (x y : Job) (xs : List Job)
    → IsWellFormed s
    → x.id ≡ y.id
    → Shows n s k (x ∷ xs)
    → Shows n (update_job y s).1 (suc k) xs
unfolding update_job
update_job-Shows n k s x y xs w e (len, shown) = elim (Option-cases (replace_job y (jobs s))) [
  | inl h ↦ rw (h, update_job) (len, drop_of_drop k (jobs s) x xs shown)
  | inr (ks, h) ↦
      let replaced : jobs (update_job y s).1 ≡ ks = jobs-update_job y s ks w.valid h in
      let rest : drop (suc k) (jobs (update_job y s).1) ≡ xs =
        ap (drop (suc k)) replaced ∙ drop-replace_job k y x (jobs s) ks xs h shown e in
      let length_kept : (update_job y s).1.len ≡ n = rw (h, update_job) len in (length_kept, rest)
]
