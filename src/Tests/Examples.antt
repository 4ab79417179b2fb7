-- ===== src/Tests/Examples.antt =====
-- The examples over the memory store, with a goroutine that is woken after every statement.
use agscheduler.Base.{ℕ, zero, suc, ◌≢◌, String, ◌≡◌, refl, none, List, [], ◌∷◌}
use agscheduler.Result.{ok, err, panic}
use agscheduler.Store.Memory.{memory_store}
use agscheduler.Env.{Env}
use agscheduler.Examples.{Turn, fires, quits, print_msg_name}
use agscheduler.Examples.Stores.{run_example}
use agscheduler.Job.{Job, zero_job}
use agscheduler.Job.Value.{Fields, no_fields, field, string}
use agscheduler.Services.Http.{Binding}
use agscheduler.Examples.Http.{text_field, http_main}
use agscheduler.Examples.Rpc.{rpc_main}
use agscheduler.Tests.Calls.{carrier}
use agscheduler.Tests.Samples.{env, idle, sorted}
use agscheduler.Tests.Stores.{two_jobs}

abbrev fires_always : ℕ → List Turn
fires_always n = fires ∷ quits ∷ []

abbrev three_uuids : ℕ → String
three_uuids zero = "01234567-89ab-cdef-0123-456789abcdef"
three_uuids (suc zero) = "11234567-89ab-cdef-0123-456789abcdef"
three_uuids (suc (suc n)) = "21234567-89ab-cdef-0123-456789abcdef"

-- There, `PrintMsg` has its own name.
abbrev example_env : Env
example_env = record env { uuid = three_uuids; func_name = λ f. print_msg_name }

-- What `BindJSON` makes of the texts of a map, and a job as a map of its texts.
text_of : String → Fields → String
text_of name m = elim (text_field name m) [ ok s ↦ s | err e ↦ "" | panic p ↦ "" ]

bound_texts : Fields → Binding
bound_texts m = record {
  bound = record zero_job {
    id = text_of "id" m;
    name = text_of "name" m;
    type = text_of "type" m;
    start_at = text_of "start_at" m;
    interval = text_of "interval" m;
    cron_expr = text_of "cron_expr" m;
    timezone = text_of "timezone" m;
    func_name = text_of "func_name" m;
    timeout = text_of "timeout" m;
  };
  failure = none;
}

texts : Job → Fields
texts j = field "id" (string j.id) (
    field "name" (string j.name) (
      field "type" (string j.type) (
        field "start_at" (string j.start_at) (
          field "interval" (string j.interval) (
            field "cron_expr" (string j.cron_expr) (
              field "timezone" (string j.timezone) (
                field "func_name" (string j.func_name)
                  (field "timeout" (string j.timeout) no_fields))))))))

-- The example comes to its end, with a round of `run` after each of its statements.
run_example_done :
    (run_example example_env (memory_store sorted) 7 fires_always (idle two_jobs)).0 ≡ ok tt
unfolding run_example agscheduler.Examples.Stores.register_print agscheduler.Examples.statement
    agscheduler.Scheduler.add_job agscheduler.Job.Init.init agscheduler.Job.Calc.calc_next_run_time
    agscheduler.Job.Init.check agscheduler.Base.Dict.lookup agscheduler.Job.Init.register_funcs
    agscheduler.Base.Dict.insert agscheduler.Store.Memory.add_job agscheduler.Scheduler.Loop.tick
    agscheduler.Store.Memory.get_all_jobs agscheduler.Store.elements agscheduler.Store.sort_slice
    sorted agscheduler.Time.whole_seconds agscheduler.Time.add_time agscheduler.Store.element
    agscheduler.Scheduler.Loop.run_due agscheduler.Scheduler.Run.schedule
    agscheduler.Scheduler.Run.is_callable agscheduler.Job.Print.next_run_time_with_timezone
    agscheduler.Job.Print.localized agscheduler.Scheduler.Run.flush_job
    agscheduler.Scheduler.delete_job agscheduler.Store.Memory.get_job
    agscheduler.Store.Memory.delete_job agscheduler.Scheduler.next_wakeup_interval
    agscheduler.Store.Memory.get_next_run_time agscheduler.Scheduler.Loop.quit
    agscheduler.Scheduler.update_job agscheduler.Store.Memory.update_job agscheduler.Time.sub_time
    agscheduler.Scheduler.get_all_jobs agscheduler.Scheduler.pause_job
    agscheduler.Scheduler.resume_job agscheduler.Scheduler.Run.run_job
    agscheduler.Scheduler.delete_all_jobs agscheduler.Store.Memory.delete_all_jobs
run_example_done = refl

-- So does the one that calls the gRPC service.
rpc_main_done : (rpc_main example_env carrier (ok tt) 7 fires_always (idle two_jobs)).0 ≡ ok tt
unfolding rpc_main agscheduler.Scheduler.set_store agscheduler.Store.Memory.init
    agscheduler.Services.Rpc.call agscheduler.Scheduler.add_job agscheduler.Job.Init.init
    agscheduler.Job.Calc.calc_next_run_time agscheduler.Job.Init.check agscheduler.Base.Dict.lookup
    agscheduler.Job.Init.register_funcs agscheduler.Base.Dict.insert
    agscheduler.Store.Memory.add_job agscheduler.Scheduler.Loop.tick
    agscheduler.Store.Memory.get_all_jobs agscheduler.Store.elements agscheduler.Store.sort_slice
    sorted agscheduler.Store.element agscheduler.Time.whole_seconds agscheduler.Time.add_time
    agscheduler.Scheduler.next_wakeup_interval agscheduler.Store.Memory.get_next_run_time
    agscheduler.Scheduler.Loop.quit agscheduler.Scheduler.get_job agscheduler.Store.Memory.get_job
    agscheduler.Scheduler.update_job agscheduler.Store.Memory.update_job agscheduler.Time.sub_time
    agscheduler.Scheduler.pause_job agscheduler.Scheduler.resume_job
    agscheduler.Scheduler.delete_job agscheduler.Store.Memory.delete_job
    agscheduler.Scheduler.Run.is_callable agscheduler.Job.Print.next_run_time_with_timezone
    agscheduler.Job.Print.localized agscheduler.Scheduler.delete_all_jobs
    agscheduler.Store.Memory.delete_all_jobs
rpc_main_done = refl

-- So does the one that calls the HTTP service.
http_main_done : (http_main bound_texts texts example_env 7 fires_always (idle two_jobs)).0 ≡ ok tt
unfolding http_main agscheduler.Scheduler.set_store agscheduler.Store.Memory.init
    agscheduler.Services.Http.serve bound_texts agscheduler.Scheduler.add_job
    agscheduler.Job.Init.init agscheduler.Job.Calc.calc_next_run_time text_of
    agscheduler.Job.Init.check agscheduler.Base.Dict.lookup agscheduler.Job.Init.register_funcs
    agscheduler.Base.Dict.insert agscheduler.Store.Memory.add_job agscheduler.Scheduler.Loop.tick
    agscheduler.Store.Memory.get_all_jobs agscheduler.Store.elements agscheduler.Store.sort_slice
    sorted agscheduler.Store.element agscheduler.Time.whole_seconds agscheduler.Time.add_time
    agscheduler.Scheduler.next_wakeup_interval agscheduler.Store.Memory.get_next_run_time
    agscheduler.Scheduler.Loop.quit texts agscheduler.Scheduler.get_job
    agscheduler.Store.Memory.get_job agscheduler.Scheduler.update_job
    agscheduler.Store.Memory.update_job agscheduler.Time.sub_time agscheduler.Scheduler.pause_job
    agscheduler.Scheduler.resume_job agscheduler.Scheduler.delete_job
    agscheduler.Store.Memory.delete_job agscheduler.Scheduler.Run.run_job
    agscheduler.Scheduler.Run.is_callable agscheduler.Job.Print.next_run_time_with_timezone
    agscheduler.Job.Print.localized agscheduler.Scheduler.delete_all_jobs
    agscheduler.Store.Memory.delete_all_jobs
http_main_done = refl
