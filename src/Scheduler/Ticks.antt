-- ===== src/Scheduler/Ticks.antt =====
-- What the goroutine `run` does when the timer fires: with jobs, without, and when the store fails.
use agscheduler.Base.{
  some≢none, ℕ, String, Option, ◌+◌, ◌≡◌, refl, none, some, List, ◌∷◌, ◌++◌, map, All,
}
use agscheduler.Result.{Result, ok, err, panic, ok≢err, ok≢panic}
use agscheduler.Exec.{continue}
use agscheduler.Time.{Time}
use agscheduler.Job.{Job}
use agscheduler.Job.Init.{FuncMap}
use agscheduler.Env.{Env}
use agscheduler.Store.{Store, Slice, fresh, elements, sort_slice}
use agscheduler.Store.Contract.{IsLawful}
use agscheduler.Scheduler.{World, armed, fired}
use agscheduler.Scheduler.Jobs.{next_wakeup_ok}
use agscheduler.Scheduler.Rounds.{due_prefix, visit-Starts, IsWindow, fresh-IsWindow}
use agscheduler.Scheduler.Quiet.{ran_ids, IsRunnable, IsSteady, Starts}
use agscheduler.Scheduler.Loop.{rearm, round, tick}

-- A round that ended well started the jobs `ids`, set the timer, and kept the store's invariant.
abbrev IsRound :
    {S : Type 0} (Inv : S → Type 0) → World S → List String → Result (Unit {0}) × World S → Type 0
IsRound Inv w ids r =
    (r.0 ≡ ok tt)
    × (ran_ids r.1.events ≡ ran_ids w.events ++ ids)
    × ((d : ℕ) × (r.1.timer ≡ some (armed d)))
    × Inv r.1.store

module _ (env : Env) {S : Type 0} {store : Store S} {Inv : S → Type 0}
    {view : S → String → Option Job} {kept : Job → Option Job}
    (lawful : IsLawful Inv view kept store) where
  -- After the turns of a round the timer is set again.
  rearm_after :
      (fs : FuncMap) (w : World S) (ids : List String) (r : Result (Unit {0}) × World S)
      → Starts Inv fs w r ids
      → IsRound Inv w ids (continue r (λ _. rearm env store))
  unfolding rearm
  rearm_after fs w ids (ok u, v) turns =
      let (d, e) = next_wakeup_ok env lawful v turns.steady.stored in
      rw e (refl, turns.started, (d, refl), turns.steady.stored)
  rearm_after fs w ids (err e, v) turns = absurd (ok≢err turns.done)
  rearm_after fs w ids (panic p, v) turns = absurd (ok≢panic turns.done)

  -- A round over a slice that shows its sorted elements throughout.
  pub round-IsRound :
      {Can : Job → Type 0} {Shows : S → ℕ → List Job → Type 0} (fs : FuncMap) (w : World S)
      (now : Time) (js sorted : Slice) (s : S)
      → sort_slice store env.sort js w.store ≡ (sorted, s)
      → IsWindow env lawful fs sorted Can Shows
      → IsSteady Inv fs (record w { store = s })
      → All Can (due_prefix now (elements store sorted s))
      → Shows s 0 (elements store sorted s)
      → IsRound Inv w
          (map (λ j. j.id) (due_prefix now (elements store sorted s)))
          (round env store now js w)
  unfolding round
  round-IsRound fs w now js sorted s sorting window steady can shows = rw sorting (
      rearm_after fs (record w { store = s }) _ _
        (visit-Starts env lawful fs window (elements store sorted s) 0 now (record w { store = s })
          steady can shows))

  -- When the timer fires in standalone mode, over a lawful store whose listing succeeds with an
  -- array of its own that holds at least one job: the jobs at the front of the sorted listing that
  -- are due at the reading of the clock are started, each once and in that order, no other is, the
  -- store stays in its invariant, the timer is set again and the round ends without an error. The
  -- hypothesis on the jobs that are due: no queue, a registered function, and a next run time that
  -- can be computed at any time.
  pub tick_starts_due :
      (w : World S) (j : Job) (js : List Job)
      → Inv w.store
      → w.cluster_node ≡ none
      → store.get_all_jobs w.store ≡ ok (fresh (j ∷ js))
      → All (IsRunnable env w.func_map) (due_prefix (env.clock w.clock_reads) (env.sort (j ∷ js)))
      → let r = tick env store w in
        let due = due_prefix (env.clock w.clock_reads) (env.sort (j ∷ js)) in
        (r.0 ≡ ok tt)
        × (ran_ids r.1.events ≡ ran_ids w.events ++ map (λ k. k.id) due)
        × ((d : ℕ) × (r.1.timer ≡ some (armed d)))
        × Inv r.1.store
  unfolding tick elements sort_slice
  tick_starts_due w j js stored standalone listing can =
      let woken : World S = record w { timer = some fired; clock_reads = w.clock_reads + 1 } in
      rw listing (
        round-IsRound w.func_map woken (env.clock w.clock_reads) (fresh (j ∷ js))
          (fresh (env.sort (j ∷ js))) w.store refl
          (fresh-IsWindow env lawful w.func_map (env.sort (j ∷ js)))
          (record { stored = stored; ticks = some≢none; standalone = standalone; funcs = refl }) can
          refl)
