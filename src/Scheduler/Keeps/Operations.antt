-- ===== src/Scheduler/Keeps/Operations.antt =====
-- The operations of the scheduler on jobs leave a lawful store in its invariant.
use agscheduler.Base.{
  ℕ, ◌+◌, String, ◌≡◌, sym, Option, none, some, inl, inr, Option-cases, ltb, subst,
}
use agscheduler.Result.{Result, ok}
use agscheduler.Exec.{continue}
use agscheduler.Time.{Time}
use agscheduler.Job.{Job}
use agscheduler.Job.Calc.{calc_next_run_time}
use agscheduler.Job.Init as JobInit
use agscheduler.Job.Ready.{init_named}
use agscheduler.Env.{Env}
use agscheduler.Store.{Store}
use agscheduler.Store.Contract.{IsLawful}
use agscheduler.Scheduler.{
  World, add_job, update_job, delete_job, pause_job, resume_job, get_job, wakeup,
}
use agscheduler.Scheduler.Calls.{adding, Admits}
use agscheduler.Scheduler.Jobs.{
  done_pair, next_wakeup_ok, update_job_rejected, update_job_refused, missing_job_unchanged,
  delete_job_run,
}
use agscheduler.Scheduler.Quiet.Calls.{check_cases}
use agscheduler.Scheduler.Keeps.{
  At, result_cases, continue_keeps, if_keeps, start_keeps, wakeup_keeps,
}

module _ (env : Env) {S : Type 0} {store : Store S} {Inv : S → Type 0}
    {view : S → String → Option Job} {kept : Job → Option Job}
    (lawful : IsLawful Inv view kept store) where
  -- The store that an update leaves is the one before, or the one after one update of the store.
  -- `P` is any property of the store.
  update_stored_leaves :
      (P : S → ℕ → Type 0) (w : World S) (j x : Job) (next : Time)
      → Inv w.store
      → At P w
      → view w.store j.id ≡ some x
      → JobInit.check env w.func_map j ≡ ok tt
      → calc_next_run_time env (env.clock w.clock_reads) j ≡ ok next
      → ((k : Job)
          → kept (record j { next_run_time = next }) ≡ some k
          → P (store.update_job (record j { next_run_time = next }) w.store).1 w.uuids)
      → At P (update_job env store j w).1
  unfolding update_job
  update_stored_leaves P w j x next v p found checked calc leaves =
      let timed = record j { next_run_time = next } in
      elim (Option-cases (kept timed)) [
        | inl lost ↦
            let (e, refused) = update_job_refused env lawful w j x next v found checked calc lost in
            subst (λ (r : Result Job × World S). At P r.1) (sym refused) p
        | inr (k, keep) ↦
            let change = lawful.map_laws.update w.store timed x k v found keep in
            let after : World S = record w {
              store = (store.update_job timed w.store).1;
              clock_reads = w.clock_reads + 1 + 1;
            } in
            let (d, before_ok) =
              next_wakeup_ok env lawful (record w { clock_reads = w.clock_reads + 1 }) v in
            let (d', after_ok) = next_wakeup_ok env lawful after change.keeps in
            let left = leaves k keep in
            rw
              (
                lawful.map_laws.get w.store j.id v,
                found,
                checked,
                calc,
                before_ok,
                done_pair (store.update_job timed w.store) change.done,
                after_ok,
              )
              (continue_keeps P _ _ (if_keeps P (ltb d' d) wakeup _ _ (wakeup_keeps P _ left) left)
                (λ u v' h. h))
      ]

  pub update_job_leaves :
      (P : S → ℕ → Type 0) (w : World S) (j : Job)
      → Inv w.store
      → At P w
      → ((x k : Job) (next : Time)
          → view w.store j.id ≡ some x
          → calc_next_run_time env (env.clock w.clock_reads) j ≡ ok next
          → kept (record j { next_run_time = next }) ≡ some k
          → P (store.update_job (record j { next_run_time = next }) w.store).1 w.uuids)
      → At P (update_job env store j w).1
  unfolding update_job
  update_job_leaves P w j v p leaves = elim (Option-cases (view w.store j.id)) [
    | inl absent ↦ rw (missing_job_unchanged env lawful w j v absent).1 p
    | inr (x, found) ↦ elim (check_cases env w.func_map j) [
      | inr (e, bad) ↦ rw (update_job_rejected env lawful w j x e v found bad) p
      | inl good ↦ elim (result_cases (calc_next_run_time env (env.clock w.clock_reads) j)) [
        | inl (next, calc) ↦
            update_stored_leaves P w j x next v p found good calc
              (λ k keep. leaves x k next found calc keep)
        | inr (inl (e, calc)) ↦ rw (lawful.map_laws.get w.store j.id v, found, good, calc) p
        | inr (inr (e, calc)) ↦ rw (lawful.map_laws.get w.store j.id v, found, good, calc) p
      ]
    ]
  ]

  pub add_job_leaves :
      (P : S → ℕ → Type 0) (w : World S) (j : Job)
      → Inv w.store
      → P w.store (w.uuids + 1)
      → Admits env store view w (adding j)
      → ((ready k : Job)
          → JobInit.init env w.func_map (env.uuid w.uuids) (env.clock w.clock_reads) j ≡ ok ready
          → kept ready ≡ some k
          → P (store.add_job ready w.store).1 (w.uuids + 1))
      → At P (add_job env store j w).1
  unfolding add_job
  add_job_leaves P w j v p fresh leaves =
      let made = JobInit.init env w.func_map (env.uuid w.uuids) (env.clock w.clock_reads) j in
      elim (result_cases made) [
        | inr (inl (e, h)) ↦ rw h p
        | inr (inr (e, h)) ↦ rw h p
        | inl (ready, h) ↦ elim (Option-cases (kept ready)) [
          | inl lost ↦
              let (e, refused) = lawful.map_laws.refuse_new w.store ready v (fresh ready h) lost in
              rw (h, refused) p
          | inr (k, keep) ↦
              let change =
                lawful.map_laws.add w.store ready k v (init_named env _ _ _ j ready h)
                  (fresh ready h) keep in
              rw (h, done_pair (store.add_job ready w.store) change.done)
                (continue_keeps P _ _ (start_keeps P _ (leaves ready k h keep)) (λ u v' held. held))
        ]
      ]

  pub delete_job_leaves :
      (P : S → ℕ → Type 0) (w : World S) (id : String)
      → Inv w.store
      → (view w.store id ≡ none → At P w)
      → ((x : Job) → view w.store id ≡ some x → P (store.delete_job id w.store).1 w.uuids)
      → At P (delete_job env store id w).1
  unfolding delete_job
  delete_job_leaves P w id v missing leaves = elim (Option-cases (view w.store id)) [
    | inl absent ↦ rw (lawful.map_laws.get w.store id v, absent) (missing absent)
    | inr (x, found) ↦ rw (delete_job_run env lawful w id x v found) (leaves x found)
  ]

  -- A call that reads a job and goes on with it.
  pub found_leaves :
      (P : S → ℕ → Type 0) (w : World S) (id : String) (next : Job → World S → Result Job × World S)
      → Inv w.store
      → At P w
      → ((x : Job) → view w.store id ≡ some x → At P (next x w).1)
      → At P (continue (store.get_job id w.store, w) next).1
  found_leaves P w id next v p leaves = elim (Option-cases (view w.store id)) [
    | inl absent ↦ rw (lawful.map_laws.get w.store id v, absent) p
    | inr (x, found) ↦ rw (lawful.map_laws.get w.store id v, found) (leaves x found)
  ]

  pub update_job_keeps :
      (w : World S) (j : Job) → Inv w.store → Inv (update_job env store j w).1.store
  update_job_keeps w j v =
      update_job_leaves (λ s n. Inv s) w j v v
        (λ x k next found calc keep. (lawful.map_laws.update w.store _ x k v found keep).keeps)

  pub add_job_keeps :
      (w : World S) (j : Job)
      → Inv w.store
      → Admits env store view w (adding j)
      → Inv (add_job env store j w).1.store
  add_job_keeps w j v fresh =
      add_job_leaves (λ s n. Inv s) w j v v fresh
        (λ ready k made keep.
          (lawful.map_laws.add w.store ready k v (init_named env _ _ _ j ready made)
            (fresh ready made) keep).keeps)

  pub delete_job_keeps :
      (w : World S) (id : String) → Inv w.store → Inv (delete_job env store id w).1.store
  delete_job_keeps w id v =
      delete_job_leaves (λ s n. Inv s) w id v (λ absent. v)
        (λ x found. (lawful.map_laws.delete w.store id x v found).keeps)

  pub pause_job_keeps :
      (w : World S) (id : String) → Inv w.store → Inv (pause_job env store id w).1.store
  unfolding pause_job get_job
  pause_job_keeps w id v =
      found_leaves (λ s n. Inv s) w id _ v v (λ x found. update_job_keeps w _ v)

  pub resume_job_keeps :
      (w : World S) (id : String) → Inv w.store → Inv (resume_job env store id w).1.store
  unfolding resume_job get_job
  resume_job_keeps w id v =
      found_leaves (λ s n. Inv s) w id _ v v (λ x found. update_job_keeps w _ v)
