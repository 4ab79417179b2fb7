-- ===== src/Scheduler/Rounds.antt =====
-- The turns of one round of `run` of scheduler.go in standalone mode, over a store whose listing is
-- an array of its own.
use agscheduler.Base.{
  get_elem?_of_drop, drop_of_drop, ℕ, suc, ◌+◌, String, ◌≡◌, refl, ap, ◌∙◌, sym, inl, inr, Option,
  none, some, List, [], ◌∷◌, ◌++◌, append-nil, append_assoc, map, All, if◌then◌else◌, length, drop,
  Bool-cases,
}
use agscheduler.Result.{Result, ok, err, panic, ok≢err, ok≢panic}
use agscheduler.Exec.{continue}
use agscheduler.Time.{Time, before}
use agscheduler.Job.{Job}
use agscheduler.Job.Calc.{calc_next_run_time}
use agscheduler.Job.Ready.{calc-next_run_time, calc_zoned}
use agscheduler.Job.Init.{FuncMap}
use agscheduler.Env.{Env}
use agscheduler.Store.{Store, Slice, fresh, element}
use agscheduler.Store.Contract.{IsLawful}
use agscheduler.Scheduler.{World, ran}
use agscheduler.Scheduler.Run.{is_callable, flush_job}
use agscheduler.Scheduler.Loop.{log_err, run_at, run_due, visit}
use agscheduler.Scheduler.Quiet.{
  ran_ids, ran_ids-append, IsSteady, IsRunnable, Starts, log_err-Starts,
}
use agscheduler.Scheduler.Quiet.Calls.{schedule_starts, flush-IsQuiet}

-- The jobs at the front of a list that are due.
unfoldable pub due_prefix : Time → List Job → List Job
due_prefix now [] = []
due_prefix now (j ∷ js) = if before j.next_run_time now then j ∷ due_prefix now js else []

module _ (env : Env) {S : Type 0} (store : Store S) (n k : ℕ) (js : Slice) (now : Time) (j : Job)
    (w : World S) (here : element store js k w.store ≡ some j) where
  -- One turn of the loop at a job that is due, and at one that is not.
  pub visit_step : visit env store (suc n) k js now w ≡ (
      if before j.next_run_time now
      then continue (run_due env store now j w) (λ _. visit env store n (suc k) js now)
      else (ok tt, w))
  unfolding visit
  visit_step =
      ap
        (λ (o : Option Job).
          let r : Result (Unit {0}) × World S = elim o [
            | none ↦ (ok tt, w)
            | some i ↦
                if before i.next_run_time now
                then continue (run_due env store now i w) (λ _. visit env store n (suc k) js now)
                else (ok tt, w)
          ] in
          r)
        here

module _ (env : Env) {S : Type 0} {store : Store S} {Inv : S → Type 0}
    {view : S → String → Option Job} {kept : Job → Option Job}
    (lawful : IsLawful Inv view kept store) (fs : FuncMap) where
  -- One pass of the loop body over a job that can be run: it starts the job, and what is left is
  -- to flush it.
  pub run_due_run :
      (w : World S) (j : Job) (now : Time)
      → IsSteady Inv fs w
      → IsRunnable env fs j
      → (t : Time) × (v : World S) × (run_due env store now j w
          ≡ log_err (flush_job env store (record j { next_run_time = t }) now v))
        × (v.store ≡ w.store)
        × IsSteady Inv fs v
        × (ran_ids v.events ≡ ran_ids w.events ++ j.id ∷ [])
  unfolding run_due ran_ids
  run_due_run w j now steady can =
      let (t, calc) = can.timed (env.clock w.clock_reads) in
      let timed = record j { next_run_time = t } in
      let read : World S = record w { clock_reads = w.clock_reads + 1 } in
      let begun : World S = record read { events = w.events ++ ran timed ∷ [] } in
      let started =
        schedule_starts env timed read steady.standalone can.unqueued
          (ap (λ f. is_callable f j.func_name) steady.funcs ∙ can.callable)
          (calc_zoned env (env.clock w.clock_reads) t j calc) in
      (
        t,
        begun,
        ap (λ (r : Result Time). run_at env store now j r read) calc
            ∙ ap
                (λ (r : Result (Unit {0}) × World S).
                  continue (log_err r) (λ _. λ v. log_err (flush_job env store timed now v)))
                started,
        refl,
        record {
          stored = steady.stored;
          ticks = steady.ticks;
          standalone = steady.standalone;
          funcs = steady.funcs;
        },
        ran_ids-append w.events (ran timed ∷ []),
      )

  -- Its next run time can be computed again, whatever the one that it has.
  pub timed_again :
      (j : Job) (t : Time)
      → IsRunnable env fs j
      → (at : Time)
      → (u : Time) × (calc_next_run_time env at (record j { next_run_time = t }) ≡ ok u)
  timed_again j t can at = let (u, e) = can.timed at in (u, calc-next_run_time env at t j ∙ e)

  run_due-Starts :
      (w : World S) (j : Job) (now : Time)
      → IsSteady Inv fs w
      → IsRunnable env fs j
      → Starts Inv fs w (run_due env store now j w) (j.id ∷ [])
  run_due-Starts w j now steady can =
      let (t, v, run, at, still, started) = run_due_run w j now steady can in
      let timed = record j { next_run_time = t } in
      let flushed =
        log_err-Starts _ (flush-IsQuiet env lawful fs v timed now still (timed_again j t can)) in
      rw run (record {
        done = flushed.done;
        steady = flushed.steady;
        started = flushed.started ∙ append-nil _ ∙ started;
      })

  -- A turn at a job that is due, followed by the turns at the later jobs.
  Starts-then :
      (w : World S) (i : String) (ids : List String) (r : Result (Unit {0}) × World S)
      (next : World S → Result (Unit {0}) × World S)
      → Starts Inv fs w r (i ∷ [])
      → (IsSteady Inv fs r.1 → Starts Inv fs r.1 (next r.1) ids)
      → Starts Inv fs w (continue r (λ _. next)) (i ∷ ids)
  Starts-then w i ids (ok u, v) next first later =
      let rest = later first.steady in
      record {
        done = rest.done;
        steady = rest.steady;
        started =
            rest.started
            ∙ ap (λ l. l ++ ids) first.started
            ∙ append_assoc (ran_ids w.events) (i ∷ []) ids;
      }
  Starts-then w i ids (err e, v) next first later = absurd (ok≢err first.done)
  Starts-then w i ids (panic p, v) next first later = absurd (ok≢panic first.done)

  -- A slice that shows a list of jobs from an index on, whatever the turns at the earlier jobs do to
  -- the store. `Can` says of a job that its turn is of that kind.
  pub record IsWindow (js : Slice) (Can : Job → Type 0) (Shows : S → ℕ → List Job → Type 0)
      : Type 0 where
    pub runnable : (j : Job) → Can j → IsRunnable env fs j
    pub head :
        (s : S) (k : ℕ) (x : Job) (xs : List Job)
        → Shows s k (x ∷ xs)
        → element store js k s ≡ some x
    pub keeps :
        (w : World S) (now : Time) (k : ℕ) (x : Job) (xs : List Job)
        → IsSteady Inv fs w
        → Can x
        → Shows w.store k (x ∷ xs)
        → Shows (run_due env store now x w).1.store (suc k) xs

  -- The loop from an index on, over the elements `rest` that the slice shows from there.
  pub visit-Starts :
      {js : Slice} {Can : Job → Type 0} {Shows : S → ℕ → List Job → Type 0}
      → IsWindow js Can Shows
      → (rest : List Job) (k : ℕ) (now : Time) (w : World S) → IsSteady Inv fs w
      → All Can (due_prefix now rest)
      → Shows w.store k rest
      → Starts Inv fs w
          (visit env store (length rest) k js now w)
          (map (λ j. j.id) (due_prefix now rest))
  unfolding due_prefix
  visit-Starts window [] k now w steady can shows =
      unfold visit in record { done = refl; steady = steady; started = sym (append-nil _) }
  visit-Starts {js} {Can} window (x ∷ xs) k now w steady can shows =
      let step = visit_step env store (length xs) k js now x w (window.head w.store k x xs shows) in
      elim (Bool-cases (before x.next_run_time now)) [
        | inr late ↦
            rw (step, late) (record { done = refl; steady = steady; started = sym (append-nil _) })
        | inl due ↦
            let all : All Can (x ∷ due_prefix now xs) = rw due at can in
            rw (step, due)
              (Starts-then w x.id _ _ _ (run_due-Starts w x now steady (window.runnable x all.0))
                λ sv.
                  visit-Starts window xs (suc k) now (run_due env store now x w).1 sv all.1
                    (window.keeps w now k x xs steady all.0 shows))
      ]

-- An array of its own shows its elements whatever happens to the store.
pub fresh-IsWindow :
    (env : Env) {S : Type 0} {store : Store S} {Inv : S → Type 0} {view : S → String → Option Job}
    {kept : Job → Option Job} (lawful : IsLawful Inv view kept store) (fs : FuncMap) (js : List Job)
    → IsWindow env lawful fs (fresh js) (IsRunnable env fs) (λ s k rest. drop k js ≡ rest)
unfolding element
fresh-IsWindow env lawful fs js = record {
  runnable = λ j can. can;
  head = λ s k x xs h. get_elem?_of_drop k js x xs h;
  keeps = λ w now k x xs steady can h. drop_of_drop k js x xs h;
}
