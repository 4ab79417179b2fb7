-- ===== src/Tests/EtcdStores.antt =====
-- The store of etcd.go over a database that is a function of the key.
use agscheduler.Base.{
  List, ◌≤◌, length, arith, [], ◌≡◌, refl, String, ◌<>◌, Option, none, some, inr, if◌then◌else◌,
  ◌==◌, test→ne,
}
use text.Mathlib.TextLemmas.{append-eq-nil_iff}
use agscheduler.Base.Int.{pos}
use agscheduler.Result.{ok}
use agscheduler.Store.Etcd.{Op, Client, Paths, EtcdStore, update_job, get_job}
use agscheduler.Store.Etcd.Lookup.{
  value_after_all, all_exist, listed, IsEtcd, IsJoin, HasPaths, get_job-update_job,
}
use agscheduler.Tests.Codecs.{codec}
use agscheduler.Tests.Samples.{once}

abbrev Values : Type 0
Values = String → Option String

abbrev client : Client Values
client = record {
  commit = λ exist ops d.
      (none, λ key. if all_exist d exist then value_after_all ops key (d key) else d key);
  get = λ key d. inr (listed (d key));
  get_prefix = λ prefix d. inr [];
  get_least = λ prefix d. inr [];
}

abbrev paths : Paths
paths = record { join = λ a b. a <> "/" <> b; itoa = λ n. "0"; atoi = λ t. inr (pos 0) }

-- At most 128 operations, as etcd is set by default.
abbrev IsSmall : List String → List Op → Type 0
IsSmall exist ops = length ops ≤ 128

client-IsEtcd : IsEtcd client (λ d. Unit) IsSmall (λ d key. d key)
client-IsEtcd = record {
  gets = λ d key u filled. refl;
  commits = λ d exist ops u filled allowed small. (refl, tt, λ key. refl);
}

paths-IsJoin : IsJoin paths
paths-IsJoin a b filled none_left = filled (append-eq-nil_iff.0 none_left).0

-- The job "b" is stored.
abbrev one_job : EtcdStore Values
one_job = record {
  db = λ key. if key == "/jobs/b" then some "b" else none;
  jobs_path = "/jobs";
  run_times_path = "/times";
}

named : HasPaths one_job
named = record { jobs = test→ne "/jobs" "" refl; run_times = test→ne "/times" "" refl }

-- The job "b" is written again, under its new state.
get_job-update_job_example :
    let r = update_job client paths codec (once "b") one_job in
    (r.0 ≡ ok tt) × (get_job client paths codec "b" r.1 ≡ codec.state_load "b")
get_job-update_job_example =
    get_job-update_job client-IsEtcd paths paths-IsJoin codec one_job (once "b") "b" "b" tt named
      refl (omega arith) (test→ne "/jobs/b" "/times/b" refl) (test→ne "/times/b" "/jobs/b" refl)
