-- ===== src/Tests/Stores.antt =====
-- The memory store with two jobs.
use mathlib.Core.List.{Mem}
use agscheduler.Base.{◌≡◌, refl, some, [], ◌∷◌, arith, ◌≤◌}
use agscheduler.Result.{ok}
use agscheduler.Time.{Time}
use agscheduler.Job.{Job}
use agscheduler.Store.{Store, fresh}
use agscheduler.Store.Contract.{AddsAny, IsLawful}
use agscheduler.Store.Listing.{IsListing}
use agscheduler.Store.Memory.{MemoryStore, jobs, find_job, get_next_run_time, memory_store}
use agscheduler.Store.Memory.Refines.{
  IsWellFormed, view, get_next_run_time_least, memory_store-IsLawful,
}
use agscheduler.Tests.Samples.{sorted, every_minute, once}
use agscheduler.Tests.Sorting.{sorted-IsSorting}

abbrev pub two_jobs : MemoryStore
two_jobs = record { array = once "a" ∷ every_minute ∷ []; len = 2 }

pub two_jobs-IsWellFormed : IsWellFormed two_jobs
unfolding find_job
two_jobs-IsWellFormed = record {
  valid = record { fits = omega arith };
  distinct = (refl, (refl, tt));
}

-- A store that hands out a copy of its jobs.
abbrev pub copying_store : Store MemoryStore
copying_store = record (memory_store sorted) { get_all_jobs = λ s. ok (fresh (jobs s)) }

pub copying_store-IsLawful : IsLawful IsWellFormed view (λ j. some j) copying_store
copying_store-IsLawful =
    let l = (memory_store-IsLawful sorted-IsSorting).0 in
    let m = l.map_laws in
    record {
      map_laws = record {
        id_view = m.id_view;
        get = m.get;
        add = m.add;
        update = m.update;
        refuse_new = m.refuse_new;
        refuse = m.refuse;
        delete = m.delete;
        delete_all = m.delete_all;
      };
      next_total = l.next_total;
      next_least = l.next_least;
    }

pub copying_store-IsListing : IsListing IsWellFormed view copying_store
copying_store-IsListing = record {
  lists = λ s w. (jobs s, refl, record { distinct = w.distinct; finds = λ i. refl });
}

get_next_run_time_least_example :
    (t : Time) × (get_next_run_time sorted two_jobs ≡ ok t)
    × ((j : Job) → Mem j (jobs two_jobs) → t ≤ j.next_run_time)
    × ∥ ((j : Job) × Mem j (jobs two_jobs) × (j.next_run_time ≡ t)) ∥₁
get_next_run_time_least_example = get_next_run_time_least sorted-IsSorting two_jobs (λ e. cc)

memory_store-IsLawful_example :
    IsLawful IsWellFormed view (λ j. some j) (memory_store sorted)
    × AddsAny IsWellFormed view (λ j. some j) (memory_store sorted)
memory_store-IsLawful_example = memory_store-IsLawful sorted-IsSorting
