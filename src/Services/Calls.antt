-- ===== src/Services/Calls.antt =====
-- What a client of the HTTP and of the gRPC service sees of the scheduler.
use Prim.Native.String.{count}
use package.text.Mathlib.TextLemmas.{length-nil}
use agscheduler.Base.{
  String, ◌≡◌, refl, sym, ap, ◌∙◌, arith, true, false, Option, none, some, [], ◌∷◌, ◌==◌, ne→test,
  eq_refl, List, Bool, true, false,
}
use agscheduler.Errors.{Error, job_not_found, text}
use agscheduler.Result.{ok, err, require}
use agscheduler.Job.{Job}
use agscheduler.Job.Init as JobInit
use agscheduler.Job.Ready.{init-IsReady}
use agscheduler.Job.Proto.{StructPb}
use agscheduler.Env.{Env}
use agscheduler.Store.{Store}
use agscheduler.Store.Contract.{IsLawful}
use agscheduler.Scheduler.{Event, World, ran, unregistered, add_job, get_job}
use agscheduler.Scheduler.Jobs.{add_job_ok, delete_job_run}
use agscheduler.Services.Http as Http
use agscheduler.Services.Http.{
  Binding, Response, nothing, serve, handle_job, post_job, put_job, post_run,
}
use agscheduler.Services.Rpc as Rpc

count_ne : (s : String) → count s ≡ 16 → (s == "") ≡ false
count_ne s h = ne→test s "" λ e. absurd (omega (arith, sym h ∙ ap count e ∙ length-nil))

module _ (env : Env) {S : Type 0} (store : Store S) (w : World S) where
  -- When the body of a request to add, update or run a job cannot be read, the response has status
  -- 400, the error, and the job as far as it was read if that has an identifier; the scheduler
  -- stays as it was.
  bad_body_unchanged :
      (b : Binding) (e : Error)
      → b.failure ≡ some e
      → let bad = handle_job 400 b.bound (some e) in
        (serve env store (post_job b) w ≡ (ok bad, w))
        × (serve env store (put_job b) w ≡ (ok bad, w))
        × (serve env store (post_run b) w ≡ (ok bad, w))
  unfolding serve
  bad_body_unchanged b e h = (rw h refl, rw h refl, rw h refl)

module _ (env : Env) {S : Type 0} {store : Store S} {Inv : S → Type 0}
    {view : S → String → Option Job} {kept : Job → Option Job}
    (lawful : IsLawful Inv view kept store) (w : World S) (stored : Inv w.store) where
  -- Over a lawful store in its invariant, when the body of `POST /scheduler/job` was read and
  -- `init` accepts the job under an identifier that is not stored, and the store can keep it: the
  -- response has status 200, the job that `init` made and no error, and a `GET` of that identifier
  -- right after has status 200, what the store keeps of that job and no error, and changes
  -- nothing.
  pub post_then_get :
      (b : Binding) (ready k : Job)
      → b.failure ≡ none
      → JobInit.init env w.func_map (env.uuid w.uuids) (env.clock w.clock_reads) b.bound ≡ ok ready
      → view w.store ready.id ≡ none
      → kept ready ≡ some k
      → let (r, v) = serve env store (post_job b) w in
        let shown : Job → Response =
          λ j. record { status = 200; data_part = Http.job j; error = "" } in
        (r ≡ ok (shown ready)) × (serve env store (Http.get_job ready.id) v ≡ (ok (shown k), v))
  unfolding serve get_job handle_job
  post_then_get b ready k read accepted new keep =
      let (done, still, views, runs, loops) =
        add_job_ok env lawful w b.bound ready k stored accepted new keep in
      let added = add_job env store b.bound w in
      let is_ready =
        init-IsReady env w.func_map (env.uuid w.uuids) (env.clock w.clock_reads) b.bound ready
          accepted in
      let named = count_ne ready.id is_ready.identified in
      let held : view added.1.store ready.id ≡ some k =
        views ready.id ∙ rw (eq_refl ready.id) refl in
      let found : store.get_job ready.id added.1.store ≡ ok k =
        lawful.map_laws.get added.1.store ready.id still
        ∙ ap (require (job_not_found ready.id)) held in
      let same = lawful.map_laws.id_view added.1.store ready.id k still held in
      rw (read, done, found, same, named) (refl, refl)

  -- Over a lawful store in its invariant, `DELETE` of a stored job over HTTP answers with status
  -- 200 and no error, and a `GET` of its identifier right after answers with status 200, no data
  -- and the error that the job was not found, and changes nothing.
  delete_then_get :
      (x : Job)
      → view w.store x.id ≡ some x
      → let (r, v) = serve env store (Http.delete_job x.id) w in
        (r ≡ ok (record { status = 200; data_part = nothing; error = "" }))
        × (serve env store (Http.get_job x.id) v ≡ (
          ok (record { status = 200; data_part = nothing; error = text (job_not_found x.id) }),
          v,
        ))
  unfolding serve get_job handle_job
  delete_then_get x found =
      let change = lawful.map_laws.delete w.store x.id x stored found in
      let left : view (store.delete_job x.id w.store).1 x.id ≡ none =
        change.views x.id ∙ rw (eq_refl x.id) refl in
      let gone : store.get_job x.id (store.delete_job x.id w.store).1 ≡ err (job_not_found x.id) =
        lawful.map_laws.get (store.delete_job x.id w.store).1 x.id change.keeps
        ∙ ap (require (job_not_found x.id)) left in
      rw (delete_job_run env lawful w x.id x stored found, gone) (refl, refl)

module _ (env : Env) {S Struct : Type 0} (pb : StructPb Struct) (store : Store S) where
  -- What comes of a job that arrives at a node: whether it is registered there, and the error of
  -- its time zone, decide.
  abbrev pub arrival : Bool → Option String → Job → Option (Rpc.Reply Struct) × List Event
  arrival false loaded j = (some Rpc.empty, unregistered j ∷ [])
  arrival true none j = (some Rpc.empty, ran j ∷ [])
  arrival true (some e) j = (none, [])
