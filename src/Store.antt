-- ===== src/Store.antt =====
-- interface.go: what each store implements. A method takes the state of the store, which includes
-- its database, and returns the new one. `GetAllJobs` returns a Go slice, and whether it shares its
-- array with the store decides what a caller sees that sorts or keeps it.
pub mod Contract
pub mod Codec
pub mod Keyed
pub mod Listing
pub mod Memory
pub mod Gorm
pub mod Mongo
pub mod Etcd
pub mod Redis
use agscheduler.Base.{ℕ, String, Option, none, some, List, ◌++◌, length, take, drop, get_elem?}
use agscheduler.Result.{Result}
use agscheduler.Exec.{Exec}
use agscheduler.Time.{Time}
use agscheduler.Job.{Job}

pub data Slice : Type 0 where
  fresh : List Job → Slice  -- an array of its own
  shared : ℕ → Slice  -- the first elements of the store's own array

pub record Store (S : Type 0) : Type 0 where
  pub init : Exec S Unit
  pub add_job : Job → Exec S Unit
  pub get_job : String → S → Result Job
  pub get_all_jobs : S → Result Slice
  pub update_job : Job → Exec S Unit
  pub delete_job : String → Exec S Unit
  pub delete_all_jobs : Exec S Unit
  pub get_next_run_time : S → Result Time
  pub clear : Exec S Unit
  -- The array that a shared slice points to.
  pub cells : S → List Job
  pub set_cells : List Job → S → S

module _ {S : Type 0} (store : Store S) where
  -- What the elements of the slice are now.
  unfoldable pub elements : Slice → S → List Job
  elements (fresh js) s = js
  elements (shared n) s = take n (store.cells s)

  -- `js[k]` now.
  unfoldable pub element : Slice → ℕ → S → Option Job
  element (fresh js) k s = get_elem? js k
  element (shared n) k s = get_elem? (take n (store.cells s)) k

  -- `sort.Sort(JobSlice(js))` writes into the array of the slice.
  unfoldable pub sort_slice : (List Job → List Job) → Slice → S → Slice × S
  sort_slice sort (fresh js) s = (fresh (sort js), s)
  sort_slice sort (shared n) s =
      let cells = store.cells s in
      (shared n, store.set_cells (sort (take n cells) ++ drop n cells) s)
