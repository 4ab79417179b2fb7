-- ===== src/Examples/Http.antt =====
-- examples/http: `runExampleHTTP` and the programs around it. The requests reach the service. What
-- `BindJSON` makes of the JSON of a map, and the map that a client decodes from the JSON of a job,
-- are arguments.
use agscheduler.Base.{ℕ, String, List, if◌then◌else◌, ◌==◌}
use agscheduler.Errors.{bad_assertion}
use agscheduler.Result.{Result, ok, err, panic}
use agscheduler.Exec.{Exec, pure, lift, ◌>>=◌, ◌>>◌}
use agscheduler.Job.{Job}
use agscheduler.Job.Value.{Value, Fields, no_fields, field, object, string}
use agscheduler.Env.{Env}
use agscheduler.Store.{Store}
use agscheduler.Store.Memory as Memory
use agscheduler.Store.Memory.{MemoryStore, memory_store}
use agscheduler.Scheduler.{World, set_store}
use agscheduler.Services.Http.{
  Binding, Data, nothing, job, jobs, Request, post_job, get_job, get_jobs, put_job, delete_job,
  delete_jobs, post_pause, post_resume, post_run, post_start, post_stop, serve,
}
use agscheduler.Examples.{Turn, statement, args1, args2, args3, print_msg_name}
use agscheduler.Examples.Stores.{register_print}

-- The three jobs as maps.
abbrev pub map1 : Fields
map1 = field "name" (string "Job1") (
    field "type" (string "interval") (
      field "interval" (string "2s") (
        field "timezone" (string "UTC")
          (field "func_name" (string print_msg_name) (field "args" (object args1) no_fields)))))

abbrev pub map2 : Fields
map2 = field "name" (string "Job2") (
    field "type" (string "cron") (
      field "cron_expr" (string "*/1 * * * *") (
        field "timezone" (string "Asia/Shanghai")
          (field "func_name" (string print_msg_name) (field "args" (object args2) no_fields)))))

abbrev pub map3 : Fields
map3 = field "name" (string "Job3") (
    field "type" (string "datetime") (
      field "start_at" (string "2023-09-22 07:30:08") (
        field "timezone" (string "America/New_York")
          (field "func_name" (string print_msg_name) (field "args" (object args3) no_fields)))))

-- `m[name] = v`
unfoldable pub set_field : String → Value → Fields → Fields
set_field name v no_fields = field name v no_fields
set_field name v (field key u rest) =
    let later = set_field name v rest in if key == name then field key v rest else field key u later

as_text : Value → Result String
as_text (string s) = ok s
as_text v = panic bad_assertion

-- `m[name].(string)`
unfoldable pub text_field : String → Fields → Result String
unfolding as_text
text_field name no_fields = panic bad_assertion
text_field name (field key v rest) =
    let later = text_field name rest in if key == name then as_text v else later

module _ (bind : Fields → Binding) (decoded : Job → Fields) where
  -- `data.(map[string]any)`
  unfoldable pub as_map : Data → Result Fields
  as_map (job j) = ok (decoded j)
  as_map nothing = panic bad_assertion
  as_map (jobs js) = panic bad_assertion

  -- `data.(map[string]any)[name].(string)`
  unfoldable pub text_at : String → Data → Result String
  unfolding as_map text_field
  text_at name data_part = elim (as_map data_part) [
    | ok m ↦ text_field name m
    | err e ↦ err e
    | panic p ↦ panic p
  ]

  module _ (env : Env) {S : Type 0} (store : Store S) where
    -- A request, and what the client decodes; after a panic gin answers without a body.
    unfoldable pub send : Request → Exec (World S) Data
    send r w =
        let (answer, v) = serve env store r w in
        elim answer [
          | ok a ↦ (ok a.data_part, v)
          | err e ↦ (ok nothing, v)
          | panic p ↦ (ok nothing, v)
        ]

    unfoldable pub run_example_http : (turns : ℕ → List Turn) → Exec (World S) Unit
    unfolding send statement text_at set_field
    run_example_http turns = do
      r1 ← statement env store (turns 0) nothing (send (post_job (bind map1)))
      r2 ← statement env store (turns 1) nothing (send (post_job (bind map2)))
      statement env store (turns 2) nothing (send post_start)
      statement env store (turns 3) nothing (send (post_job (bind map3)))
      statement env store (turns 4) nothing (send get_jobs)
      id1 ← lift (text_at "id" r1)
      found ← statement env store (turns 5) nothing (send (get_job id1))
      id1 ← lift (text_at "id" found)
      lift (text_at "name" found)
      id2 ← lift (text_at "id" r2)
      timeout2 ← lift (text_at "timeout" r2)
      let map2 = set_field "id" (string id2) map2
      let map2 = set_field "timeout" (string timeout2) map2
      let map2 = set_field "type" (string "interval") map2
      let map2 = set_field "interval" (string "3s") map2
      updated ← statement env store (turns 6) nothing (send (put_job (bind map2)))
      id2 ← lift (text_at "id" updated)
      lift (text_at "name" updated)
      statement env store (turns 7) nothing (send (post_pause id1))
      statement env store (turns 8) nothing (send (post_resume id1))
      statement env store (turns 9) nothing (send (delete_job id2))
      statement env store (turns 10) nothing (send post_stop)
      m ← lift (as_map found)
      statement env store (turns 11) nothing (send (post_run (bind m)))
      statement env store (turns 12) nothing (send post_start)
      send delete_jobs
      pure tt

    -- http_client.go: `runExampleHTTP` there adds one job.
    unfoldable pub run_client_http : Exec (World S) Unit
    unfolding send
    run_client_http = do send (post_job (bind map1)); pure tt

  -- `main` of http_server.go, up to the `select` that waits for ever; the start of the service
  -- reports no error.
  unfoldable pub http_server : Env → (print_msg : ℕ) → Exec (World MemoryStore) Unit
  unfolding register_print
  http_server env print_msg = do
    register_print env (memory_store env.sort) print_msg
    set_store env (memory_store env.sort) Memory.empty

  -- `main` of http.go, which sets up the same service.
  unfoldable pub http_main :
      Env → (print_msg : ℕ) → (turns : ℕ → List Turn) → Exec (World MemoryStore) Unit
  unfolding http_server run_example_http
  http_main env print_msg turns = do
    http_server env print_msg
    run_example_http env (memory_store env.sort) turns
