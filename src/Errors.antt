-- ===== src/Errors.antt =====
-- error.go, and the errors that the other files build with `fmt.Errorf`, as values of one type
-- with the words of the source kept by `text`.
use agscheduler.Base.{String, ◌<>◌}

pub data Error : Type 0 where
  job_not_found : String → Error  -- JobNotFoundError
  func_unregistered : String → Error  -- FuncUnregisteredError
  job_timeout : (full_name timeout err : String) → Error  -- JobTimeoutError
  bad_timezone : (full_name timezone err : String) → Error
  bad_start_at : (full_name timezone err : String) → Error
  bad_interval : (full_name interval err : String) → Error
  unknown_type : (full_name type : String) → Error
  delete_failed : (full_name : String) → Error → Error
  update_failed : (full_name : String) → Error → Error
  no_queue : (queues : String) → Error
  schedule_failed : (full_name : String) → Error → Error
  node_not_found : Error
  connect_failed : (endpoint err : String) → Error
  register_failed : (err : String) → Error
  register_timeout : (endpoint : String) → Error
  ping_failed : (err : String) → Error
  ping_timeout : (endpoint : String) → Error
  rpc_listen_failed : (err : String) → Error
  cluster_listen_failed : (err : String) → Error
  join_failed : Error → Error
  create_table_failed : (err : String) → Error
  create_index_failed : (err : String) → Error
  -- What a database, a decoder or the network reports.
  external : String → Error

-- The places where the code can stop with a Go run-time panic.
pub data Panic : Type 0 where
  bad_cron : Panic  -- `cronexpr.MustParse`
  nil_timer : Panic  -- `s.timer.Reset` before the first `Start`
  nil_cluster_node : Panic  -- `s.clusterNode.Queue` in standalone mode
  nil_location : Panic  -- `t.In(nil)`, where `LoadLocation` failed
  slice_bounds : Panic  -- `[:16]` of a shorter text
  nil_message : Panic  -- a field of a nil message
  bad_assertion : Panic  -- `.(T)` of a value of another type

-- The method `Error`, and the formats of `fmt.Errorf`.
unfoldable pub text : Error → String
text (job_not_found id) = "jobId `" <> id <> "` not found!"
text (func_unregistered name) = "function `" <> name <> "` unregistered!"
text (job_timeout full_name timeout err) =
    "job `" <> full_name <> "` Timeout `" <> timeout <> "` error: " <> err <> "!"
text (bad_timezone full_name timezone err) =
    "job `" <> full_name <> "` Timezone `" <> timezone <> "` error: " <> err
text (bad_start_at full_name timezone err) =
    "job `" <> full_name <> "` StartAt `" <> timezone <> "` error: " <> err
text (bad_interval full_name interval err) =
    "job `" <> full_name <> "` Interval `" <> interval <> "` error: " <> err
text (unknown_type full_name type) = "job `" <> full_name <> "` Type `" <> type <> "` unknown"
text (delete_failed full_name e) = "delete job `" <> full_name <> "` error: " <> text e
text (update_failed full_name e) = "update job `" <> full_name <> "` error: " <> text e
text (no_queue queues) = "cluster node with queue `" <> queues <> "` does not exist"
text (schedule_failed full_name e) =
    "scheduler schedule job `" <> full_name <> "` error: " <> text e
text node_not_found = "cluster node not found"
text (connect_failed endpoint e) =
    "failed to connect to cluster main node: `" <> endpoint <> "`, error: " <> e
text (register_failed e) = "failed to register to cluster main node, error: " <> e
text (register_timeout endpoint) = "register to cluster main node `" <> endpoint <> "` timeout"
text (ping_failed e) = "failed to ping to cluster main node, error: " <> e
text (ping_timeout endpoint) = "ping to cluster main node `" <> endpoint <> "` timeout"
text (rpc_listen_failed e) = "scheduler RPC Service listen failure: " <> e
text (cluster_listen_failed e) = "cluster RPC Service listen failure: " <> e
text (join_failed e) = "failed to register node remote: " <> text e
text (create_table_failed e) = "failed to create table: " <> e
text (create_index_failed e) = "failed to create index: " <> e
text (external message) = message
