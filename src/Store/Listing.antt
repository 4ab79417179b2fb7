-- ===== src/Store/Listing.antt =====
-- What `GetAllJobs` of interface.go gives the scheduler: each stored job, once.
use mathlib.Core.Logic.Or
use mathlib.Core.List.{Mem, Mem-prop, Perm, mem-cons}
use mathlib.Core.List as Lists
use mathlib.Core.List.Perm
use agscheduler.Base.{
  String, ◌≡◌, refl, sym, ap, ◌∙◌, subst, Option, none, some, some≢none, List, [], ◌∷◌, inl, inr,
  ◌==◌, eq_iff, eq_refl, Option-cases, Bool-cases,
}
use agscheduler.Result.{ok}
use agscheduler.Job.{Job}
use agscheduler.Job.Equality.{Job-discrete}
use agscheduler.Store.{Store, fresh}
use agscheduler.Store.Memory.{find_job}
use agscheduler.Store.Memory.Lookup.{Distinct, id-find_job}
use agscheduler.Store.Memory.Refines.{mem_of_find}
use agscheduler.Store.Memory.Sorted.{Distinct-perm}

-- The list holds the jobs of a map from identifiers to jobs, each once.
pub record IsListOf (map_of : String → Option Job) (js : List Job) : Type 0 where
  pub distinct : Distinct js
  pub finds : (i : String) → find_job i js ≡ map_of i

-- From its invariant, the store lists the jobs of its map in an array of their own.
pub record IsListing {S : Type 0} (Inv : S → Type 0) (view : S → String → Option Job)
    (store : Store S) : Type 0 where
  pub lists :
      (s : S)
      → Inv s
      → (js : List Job) × (store.get_all_jobs s ≡ ok (fresh js)) × IsListOf (view s) js

-- What is found behind the first job of a list without duplicates is found in the whole list.
pub find_in_tail :
    (i : String) (x k : Job) (xs : List Job)
    → Distinct (x ∷ xs)
    → find_job i xs ≡ some k
    → find_job i (x ∷ xs) ≡ some k
unfolding find_job
find_in_tail i x k xs d found = elim (Bool-cases (x.id == i)) [
  | inl h ↦
      let lost : find_job i xs ≡ none = ap (λ y. find_job y xs) (sym ((eq_iff x.id i).0 h)) ∙ d.0 in
      absurd (some≢none (sym found ∙ lost))
  | inr h ↦ rw h found
]

-- A job of the list is found under its identifier.
find_of_mem : (js : List Job) (j : Job) → Distinct js → Mem j js → find_job j.id js ≡ some j
unfolding find_job
find_of_mem [] j d m = absurd (Lists.not-mem-nil m)
find_of_mem (x ∷ xs) j d m = elim (Job-discrete j x) [
  | yes e ↦ rw e (rw (eq_refl x.id) refl)
  | no other ↦
      let later : Mem j xs =
        Or.elim Mem-prop (mem-cons.0 m) (λ e. absurd (other e)) (λ rest. rest) in
      elim (Bool-cases (x.id == j.id)) [
        | inl h ↦
            let here : find_job x.id xs ≡ some j =
              ap (λ i. find_job i xs) ((eq_iff x.id j.id).0 h) ∙ find_of_mem xs j d.1 later in
            absurd (some≢none (sym here ∙ d.0))
        | inr h ↦ rw h (find_of_mem xs j d.1 later)
      ]
]

-- Another order of the list holds the same jobs.
pub IsListOf-perm :
    {map_of : String → Option Job} (js ks : List Job)
    → Perm ks js
    → IsListOf map_of js
    → IsListOf map_of ks
IsListOf-perm {map_of} js ks p l = record {
  distinct = Distinct-perm js ks (Perm.symm p) l.distinct;
  finds = λ i. elim (Option-cases (find_job i js)) [
    | inr (x, h) ↦
        let same = id-find_job i js x h in
        let there = (Perm.mem_iff p).1 (mem_of_find i js x h) in
        subst (λ k. find_job k ks ≡ map_of k) same
          (find_of_mem ks x (Distinct-perm js ks (Perm.symm p) l.distinct) there
            ∙ sym (subst (λ k. find_job k js ≡ some x) (sym same) h)
            ∙ l.finds x.id)
    | inl h ↦ elim (Option-cases (find_job i ks)) [
      | inl h' ↦ h' ∙ sym h ∙ l.finds i
      | inr (x, h') ↦
          let same = id-find_job i ks x h' in
          let there = (Perm.mem_iff p).0 (mem_of_find i ks x h') in
          absurd
            (some≢none (sym (find_of_mem js x l.distinct there) ∙ ap (λ k. find_job k js) same ∙ h))
    ]
  ];
}
