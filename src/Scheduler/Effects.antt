-- ===== src/Scheduler/Effects.antt =====
-- What the calls of scheduler.go promise of the stored jobs, as a specification over the map from
-- identifiers to jobs, and that the scheduler keeps it.
use agscheduler.Base.{
  String, ◌≡◌, refl, sym, ap, ◌∙◌, ◌⊎◌, inl, inr, Option, none, some, some≢none, if◌then◌else◌,
  ◌==◌, eq_iff, Bool-cases, Option-cases,
}
use agscheduler.Result.{ok}
use agscheduler.Exec.{continue}
use agscheduler.Time.{Time}
use agscheduler.Job.{Job, status_paused, status_running}
use agscheduler.Job.Calc.{calc_next_run_time}
use agscheduler.Job.Init as JobInit
use agscheduler.Job.Ready.{init_named}
use agscheduler.Env.{Env}
use agscheduler.Store.{Store, Slice, sort_slice}
use agscheduler.Store.Contract.{IsLawful}
use agscheduler.Scheduler.{
  World, update_job, delete_job, delete_all_jobs, pause_job, resume_job, get_job,
}
use agscheduler.Scheduler.Calls.{
  Input, adding, getting, updating, deleting, deleting_all, pausing, resuming, running, scheduling,
  starting, stopping, ticking, quitting, after_call, Admits,
}
use agscheduler.Scheduler.Run.{run_job, schedule_job}
use agscheduler.Scheduler.Loop.{quit}
use agscheduler.Scheduler.Keeps.{
  map_err_keeps, start_keeps, stop_keeps, run_func_keeps, schedule_keeps,
}
use agscheduler.Scheduler.Keeps.Rounds.{tick_keeps}
use agscheduler.Scheduler.Keeps.Operations.{
  update_job_leaves, add_job_leaves, delete_job_leaves, found_leaves,
}

-- The map of the stored jobs.
abbrev pub JobMap : Type 0
JobMap = String → Option Job

abbrev pub IsSame : JobMap → JobMap → Type 0
IsSame before after = (i : String) → after i ≡ before i

abbrev pub IsPut : String → Job → JobMap → JobMap → Type 0
IsPut id k before after = (i : String) → after i ≡ (if id == i then some k else before i)

module _ (env : Env) (kept : Job → Option Job) where
  -- The stored job with the identifier of `j` gives way to what is kept of `j` with its next run
  -- time, computed at a reading of the clock.
  pub record IsReplaced (now : Time) (j : Job) (before after : JobMap) : Type 0 where
    pub old : Job
    pub left : Job
    pub next : Time
    pub stored : before j.id ≡ some old
    pub timed : calc_next_run_time env now j ≡ ok next
    pub keeps : kept (record j { next_run_time = next }) ≡ some left
    pub put : IsPut j.id left before after

  -- A new job, made by `init`.
  pub record IsAdded {S : Type 0} (w : World S) (j : Job) (before after : JobMap) : Type 0 where
    pub ready : Job
    pub left : Job
    pub made : JobInit.init env w.func_map (env.uuid w.uuids) (env.clock w.clock_reads) j ≡ ok ready
    pub keeps : kept ready ≡ some left
    pub put : IsPut ready.id left before after

  -- A stored job gets another status and its next run time.
  abbrev pub IsRestated : Time → String → String → JobMap → JobMap → Type 0
  IsRestated now id status before after =
      (x : Job) × (before id ≡ some x) × IsReplaced now (record x { status = status }) before after

  -- What a call may do.
  abbrev pub Effect : {S : Type 0} → World S → Input → JobMap → JobMap → Type 0
  Effect w (adding j) m n = IsSame m n ⊎ IsAdded w j m n
  Effect w (getting id) m n = IsSame m n
  Effect w (updating j) m n = IsSame m n ⊎ IsReplaced (env.clock w.clock_reads) j m n
  Effect w (deleting id) m n = (i : String) → n i ≡ (if id == i then none else m i)
  Effect w deleting_all m n = (i : String) → n i ≡ none
  Effect w (pausing id) m n = IsSame m n ⊎ IsRestated (env.clock w.clock_reads) id status_paused m n
  Effect w (resuming id) m n =
      IsSame m n ⊎ IsRestated (env.clock w.clock_reads) id status_running m n
  Effect w (running j) m n = IsSame m n
  Effect w (scheduling j) m n = IsSame m n
  Effect w starting m n = IsSame m n
  Effect w stopping m n = IsSame m n
  Effect w ticking m n = (i : String) → (n i ≡ none) ⊎ ((x : Job) × (m i ≡ some x))
  Effect w quitting m n = IsSame m n

without_missing :
    (id : String) (m : JobMap) → m id ≡ none → (i : String) → m i ≡ (if id == i then none else m i)
without_missing id m missing i = elim (Bool-cases (id == i)) [
  | inl h ↦ rw h (ap m (sym ((eq_iff id i).0 h)) ∙ missing)
  | inr h ↦ rw h refl
]

module _ (env : Env) {S : Type 0} {store : Store S} {Inv : S → Type 0}
    {view : S → String → Option Job} {kept : Job → Option Job}
    (lawful : IsLawful Inv view kept store) where
  update_job-Effect :
      (w : World S) (j : Job)
      → Inv w.store
      → (IsSame (view w.store) (view (update_job env store j w).1.store))
        ⊎ (IsReplaced env kept
            (env.clock w.clock_reads)
            j
            (view w.store)
            (view (update_job env store j w).1.store))
  update_job-Effect w j v =
      update_job_leaves env lawful
        (λ s n.
          IsSame (view w.store) (view s)
          ⊎ IsReplaced env kept (env.clock w.clock_reads) j (view w.store) (view s))
        w j v (inl (λ i. refl))
        (λ x k next found calc keep. inr (record {
          old = x;
          left = k;
          next = next;
          stored = found;
          timed = calc;
          keeps = keep;
          put = (lawful.map_laws.update w.store _ x k v found keep).views;
        }))

  -- A pause or a resumption.
  restated :
      (w : World S) (id status : String)
      → Inv w.store
      → let r =
          continue
            (store.get_job id w.store, w)
            (λ j. update_job env store (record j { status = status })) in
        IsSame (view w.store) (view r.1.store)
        ⊎ IsRestated env kept (env.clock w.clock_reads) id status (view w.store) (view r.1.store)
  restated w id status v =
      found_leaves env lawful
        (λ s n.
          IsSame (view w.store) (view s)
          ⊎ IsRestated env kept (env.clock w.clock_reads) id status (view w.store) (view s))
        w id _ v (inl (λ i. refl))
        (λ x found. elim (update_job-Effect w (record x { status = status }) v) [
          | inl same ↦ inl same
          | inr changed ↦ inr (x, found, changed)
        ])

  -- In its invariant, the store does not hold the identifier.
  record Lacks (i : String) (s : S) : Type 0 where
    inv : Inv s
    lost : view s i ≡ none

  update_job-Lacks :
      (i : String) (j : Job) (w : World S)
      → Lacks i w.store
      → Lacks i (update_job env store j w).1.store
  update_job-Lacks i j w l =
      update_job_leaves env lawful (λ s n. Lacks i s) w j l.inv l
        (λ x k next found calc keep.
          let change = lawful.map_laws.update w.store _ x k l.inv found keep in
          record {
            inv = change.keeps;
            lost = change.views i ∙ elim (Bool-cases (j.id == i)) [
              | inl h ↦
                  absurd (some≢none (sym found ∙ ap (view w.store) ((eq_iff j.id i).0 h) ∙ l.lost))
              | inr h ↦ rw h l.lost
            ];
          })

  delete_job-Lacks :
      (i id : String) (w : World S) → Lacks i w.store → Lacks i (delete_job env store id w).1.store
  delete_job-Lacks i id w l =
      delete_job_leaves env lawful (λ s n. Lacks i s) w id l.inv (λ absent. l)
        (λ x found.
          let change = lawful.map_laws.delete w.store id x l.inv found in
          record {
            inv = change.keeps;
            lost =
                change.views i
                ∙ elim (Bool-cases (id == i)) [ inl h ↦ rw h refl | inr h ↦ rw h l.lost ];
          })

  -- Over a lawful store in its invariant, where sorting the slice that `GetAllJobs` returns keeps
  -- the invariant and the stored jobs, each call does to the map of stored jobs what its
  -- specification `Effect` allows, whatever it ends in: `AddJob` changes nothing, or adds under a
  -- new identifier what the store keeps of the job that `init` made; `UpdateJob` changes nothing,
  -- or puts what the store keeps of the job with its computed next run time in the place of the
  -- stored job of that identifier; `PauseJob` and `ResumeJob` do the same with the stored job
  -- under another status; `DeleteJob` takes away that one identifier, and `DeleteAllJobs` all; a
  -- round of `run` adds no identifier; the other calls change nothing. The hypothesis on `AddJob`:
  -- the identifier that it makes is not stored.
  pub call_refines :
      ((s : S) (js : Slice)
        → Inv s
        → store.get_all_jobs s ≡ ok js
        → let sorted = (sort_slice store env.sort js s).1 in
          Inv sorted × IsSame (view s) (view sorted))
      → (c : Input) (w : World S) → Admits env store view w c
      → Inv w.store
      → Effect env kept w c (view w.store) (view (after_call env store c w).store)
  unfolding after_call get_job delete_all_jobs run_job schedule_job quit pause_job resume_job
  call_refines sorts (adding j) w fresh v =
      add_job_leaves env lawful
        (λ s n. IsSame (view w.store) (view s) ⊎ IsAdded env kept w j (view w.store) (view s)) w j v
        (inl (λ i. refl)) fresh
        (λ ready k made keep. inr (record {
          ready = ready;
          left = k;
          made = made;
          keeps = keep;
          put =
              (lawful.map_laws.add w.store ready k v (init_named env _ _ _ j ready made)
                (fresh ready made) keep).views;
        }))
  call_refines sorts (getting id) w u v = λ i. refl
  call_refines sorts (updating j) w u v = update_job-Effect w j v
  call_refines sorts (deleting id) w u v =
      delete_job_leaves env lawful
        (λ s n. (i : String) → view s i ≡ (if id == i then none else view w.store i)) w id v
        (without_missing id (view w.store))
        (λ x found. (lawful.map_laws.delete w.store id x v found).views)
  call_refines sorts deleting_all w u v = (lawful.map_laws.delete_all w.store v).views
  call_refines sorts (pausing id) w u v = restated w id status_paused v
  call_refines sorts (resuming id) w u v = restated w id status_running v
  call_refines sorts (running j) w u v =
      run_func_keeps (λ s n. IsSame (view w.store) (view s)) env j w (λ i. refl)
  call_refines sorts (scheduling j) w u v =
      map_err_keeps (λ s n. IsSame (view w.store) (view s)) _ _
        (schedule_keeps (λ s n. IsSame (view w.store) (view s)) env j w (λ i. refl))
  call_refines sorts starting w u v =
      start_keeps (λ s n. IsSame (view w.store) (view s)) w (λ i. refl)
  call_refines sorts stopping w u v =
      stop_keeps (λ s n. IsSame (view w.store) (view s)) w (λ i. refl)
  call_refines sorts ticking w u v = λ i. elim (Option-cases (view w.store i)) [
    | inr (x, found) ↦ inr (x, found)
    | inl missing ↦
        inl
          (tick_keeps env lawful (λ s n. Lacks i s) (λ s n l. l.inv) (update_job-Lacks i)
            (delete_job-Lacks i)
            (λ s n js l h.
              let (inv, same) = sorts s js l.inv h in record { inv = inv; lost = same i ∙ l.lost })
            w (record { inv = v; lost = missing })).lost
  ]
  call_refines sorts quitting w u v = λ i. refl
