-- ===== src/Store/Memory.antt =====
-- stores/memory.go. `s.jobs` is a Go slice: an array with the number of elements in use. Deleting
-- moves the later elements down in the same array and leaves the last one behind. Spare capacity
-- that no slice shows is not represented; `append` then adds one cell.
pub mod Contents
pub mod Lookup
pub mod Refines
pub mod Sorted
use agscheduler.Base.{
  ℕ, zero, suc, ◌+◌, ◌-◌, String, Option, none, some, List, [], ◌∷◌, ◌++◌, if◌then◌else◌, ◌==◌,
  length, take, drop, get_elem?,
}
use mathlib.Core.Option
use agscheduler.Errors.{job_not_found}
use agscheduler.Result.{Result, ok, err, require}
use agscheduler.Exec.{Exec}
use agscheduler.Time.{Time, zero_time}
use agscheduler.Job.{Job}
use agscheduler.Store.{Store, Slice, shared}

pub record MemoryStore : Type 0 where
  pub array : List Job
  pub len : ℕ

-- `s.jobs`
abbrev pub jobs : MemoryStore → List Job
jobs s = take s.len s.array

unfoldable pub init : Exec MemoryStore Unit
init s = (ok tt, s)

unfoldable pub add_job : Job → Exec MemoryStore Unit
add_job j s = (ok tt, record { array = jobs s ++ (j ∷ drop (s.len + 1) s.array); len = s.len + 1 })

-- The first job with the identifier.
unfoldable pub find_job : String → List Job → Option Job
find_job id [] = none
find_job id (j ∷ js) = if j.id == id then some j else find_job id js

unfoldable pub get_job : String → MemoryStore → Result Job
unfolding find_job
get_job id s = require (job_not_found id) (find_job id (jobs s))

unfoldable pub get_all_jobs : MemoryStore → Result Slice
get_all_jobs s = ok (shared s.len)

-- The loop of `UpdateJob` over the elements: `s.jobs[i] = j` at the first with the identifier.
unfoldable pub replace_job : Job → List Job → Option (List Job)
replace_job j [] = none
replace_job j (x ∷ xs) =
    if x.id == j.id then some (j ∷ xs) else Option.map (◌∷◌ x) (replace_job j xs)

unfoldable pub update_job : Job → Exec MemoryStore Unit
unfolding replace_job
update_job j s = elim (replace_job j (jobs s)) [
  | none ↦ (err (job_not_found j.id), s)
  | some js ↦ (ok tt, record s { array = js ++ drop s.len s.array })
]

-- The position of the first job with the identifier.
unfoldable pub index_of : String → List Job → Option ℕ
index_of id [] = none
index_of id (j ∷ js) = if j.id == id then some 0 else Option.map suc (index_of id js)

-- `append(s.jobs[:i], s.jobs[i+1:]...)`, in place.
unfoldable pub shift_down : ℕ → MemoryStore → MemoryStore
shift_down i s = record {
  array = take i (jobs s) ++ (drop (i + 1) (jobs s) ++ drop (s.len - 1) s.array);
  len = s.len - 1;
}

unfoldable pub delete_job : String → Exec MemoryStore Unit
unfolding index_of shift_down
delete_job id s = elim (index_of id (jobs s)) [
  | none ↦ (err (job_not_found id), s)
  | some i ↦ (ok tt, shift_down i s)
]

unfoldable pub delete_all_jobs : Exec MemoryStore Unit
delete_all_jobs s = (ok tt, record { array = []; len = 0 })

-- The first element of the sorted copy.
unfoldable pub first_time : List Job → Time
first_time [] = zero_time
first_time (j ∷ js) = j.next_run_time

unfoldable pub earliest : (List Job → List Job) → List Job → Time
unfolding first_time
earliest sort [] = zero_time
earliest sort (j ∷ js) = first_time (sort (j ∷ js))

-- `sort.Sort` of the standard library is an argument. The copy leaves the store as it is.
unfoldable pub get_next_run_time : (List Job → List Job) → MemoryStore → Result Time
unfolding earliest
get_next_run_time sort s = ok (earliest sort (jobs s))

unfoldable pub clear : Exec MemoryStore Unit
unfolding delete_all_jobs
clear s = delete_all_jobs s

-- `&MemoryStore{}`
abbrev pub empty : MemoryStore
empty = record { array = []; len = 0 }

abbrev pub memory_store : (List Job → List Job) → Store MemoryStore
memory_store sort = record {
  init = init;
  add_job = add_job;
  get_job = get_job;
  get_all_jobs = get_all_jobs;
  update_job = update_job;
  delete_job = delete_job;
  delete_all_jobs = delete_all_jobs;
  get_next_run_time = get_next_run_time sort;
  clear = clear;
  cells = λ s. s.array;
  set_cells = λ js s. record s { array = js };
}
