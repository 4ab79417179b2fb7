-- ===== src/Tests/Calls.antt =====
-- Calls of the services.
use agscheduler.Base.{◌≡◌, refl, Option, none, some, [], ◌∷◌}
use agscheduler.Result.{ok}
use agscheduler.Job.{Job}
use agscheduler.Job.Value.{Fields, no_fields, field, null, other}
use agscheduler.Job.Proto.{StructPb, jobs_to_pb, pb_to_jobs, pb_to_jobs-jobs_to_pb}
use agscheduler.Store.Memory.{find_job}
use agscheduler.Services.Http as Http
use agscheduler.Services.Http.{
  Binding, Response, nothing, serve, handle_job, post_job, put_job, post_run,
}
use agscheduler.Services.Rpc as Rpc
use agscheduler.Services.Calls.{post_then_get}
use agscheduler.Tests.Samples.{env, every_minute, once, idle}
use agscheduler.Tests.Stores.{
  two_jobs, two_jobs-IsWellFormed, copying_store, copying_store-IsLawful,
}
use agscheduler.Tests.Jobs.{request, accepted, request_passes}

-- A carrier of arguments that holds texts and null, and refuses Go's other values.
unfoldable pub carries : Fields → Option Fields
carries no_fields = some no_fields
carries (field k (other n) rest) = none
carries (field k v rest) = some (field k v rest)

abbrev pub carrier : StructPb Fields
carrier = record { new_struct = carries; as_map = λ s. s }

abbrev pub with_args : Job
with_args = record every_minute { args = field "k" null no_fields }

pb_to_jobs-jobs_to_pb_example :
    pb_to_jobs carrier (jobs_to_pb carrier (with_args ∷ once "a" ∷ [])) ≡ with_args ∷ once "a" ∷ []
unfolding carries
pb_to_jobs-jobs_to_pb_example =
    pb_to_jobs-jobs_to_pb carrier (with_args ∷ once "a" ∷ [])
      ((field "k" null no_fields, refl, refl), ((no_fields, refl, refl), tt))

post_then_get_example :
    let (r, v) =
      serve env copying_store
        (post_job (record { bound = request; failure = none }))
        (idle two_jobs) in
    let shown : Response = record { status = 200; data_part = Http.job accepted; error = "" } in
    (r ≡ ok shown) × (serve env copying_store (Http.get_job "0123456789abcdef") v ≡ (ok shown, v))
unfolding find_job
post_then_get_example =
    post_then_get env copying_store-IsLawful (idle two_jobs) two_jobs-IsWellFormed
      (record { bound = request; failure = none }) accepted accepted refl request_passes refl refl
