-- ===== src/Store/Etcd/Lookup.antt =====
-- What `GetJob` of stores/etcd.go finds after each change, over a server that does what etcd
-- documents.
use text.Mathlib.Text.{starts_with}
use agscheduler.Base.{
  eq_iff, ◌≡◌, ◌≢◌, refl, ap, ◌∙◌, sym, String, Bool, true, false, Option, none, some, List, [],
  ◌∷◌, inl, inr, if◌then◌else◌, ◌==◌, ◌&&◌, Option-cases, Bool-cases, ne→test, All, ◌||◌,
}
use agscheduler.Errors.{job_not_found}
use agscheduler.Result.{ok, err}
use agscheduler.Time.{unix}
use agscheduler.Job.{Job}
use agscheduler.Store.Codec.{Codec, nil_or}
use agscheduler.Store.Etcd.{
  Op, op_put, op_delete, op_delete_prefix, Client, Paths, EtcdStore, run_txn, delete_job, put_ops,
  replace_state, update_job, read_values, get_job,
}

-- What an operation does to the value of one key.
unfoldable pub value_after : Op → (key : String) → Option String → Option String
value_after (op_put k v) key r = if k == key then some v else r
value_after (op_delete k) key r = if k == key then none else r
value_after (op_delete_prefix p) key r = if starts_with key p then none else r

unfoldable pub value_after_all : List Op → (key : String) → Option String → Option String
unfolding value_after
value_after_all [] key r = r
value_after_all (o ∷ os) key r = value_after_all os key (value_after o key r)

abbrev pub is_some {ℓ} : {A : Type ℓ} → Option A → Bool
is_some none = false
is_some (some a) = true

abbrev pub all_exist : (String → Option String) → List String → Bool
all_exist values [] = true
all_exist values (key ∷ keys) = is_some (values key) && all_exist values keys

abbrev pub listed : Option String → List String
listed none = []
listed (some v) = v ∷ []

-- The key, or the prefix of the keys, that an operation is for.
abbrev pub target : Op → String
target (op_put k v) = k
target (op_delete k) = k
target (op_delete_prefix p) = p

-- The operation is for all keys that start with its target.
abbrev pub is_range : Op → Bool
is_range (op_put k v) = false
is_range (op_delete k) = false
is_range (op_delete_prefix p) = true

-- A key can be modified by both operations.
abbrev pub overlaps : Op → Op → Bool
overlaps a b =
    (target a == target b)
    || ((is_range a && starts_with (target b) (target a))
        || (is_range b && starts_with (target a) (target b)))

-- No key is empty, and none is modified twice.
abbrev pub IsAllowed : List Op → Type 0
IsAllowed [] = Unit
IsAllowed (o ∷ os) = (target o ≢ "") × All (λ p. overlaps o p ≡ false) os × IsAllowed os

-- What etcd documents, for a server that answers (`Ready`), with the values of its keys: a key must
-- not be empty, and a transaction must not modify a key twice nor be larger than the server is set to
-- accept (`Fits`); then it does its operations, in
-- order, if its conditions hold, and nothing otherwise.
pub record IsEtcd {D : Type 0} (client : Client D) (Ready : D → Type 0)
    (Fits : List String → List Op → Type 0) (values : D → String → Option String) : Type 0 where
  pub gets :
      (d : D) (key : String) → Ready d → key ≢ "" → client.get key d ≡ inr (listed (values d key))
  pub commits :
      (d : D) (exist : List String) (ops : List Op)
      → Ready d
      → All (λ key. key ≢ "") exist
      → IsAllowed ops
      → Fits exist ops
      → ((client.commit exist ops d).0 ≡ none)
        × Ready (client.commit exist ops d).1
        × ((key : String)
            → values (client.commit exist ops d).1 key ≡ (
                if all_exist (values d) exist
                then value_after_all ops key (values d key)
                else values d key))

-- What `path.Join` documents: the result is empty only where all elements are.
abbrev pub IsJoin : Paths → Type 0
IsJoin paths = (a b : String) → a ≢ "" → paths.join a b ≢ ""

-- The paths of a store, as `Init` leaves them.
pub record HasPaths {D : Type 0} (s : EtcdStore D) : Type 0 where
  pub jobs : s.jobs_path ≢ ""
  pub run_times : s.run_times_path ≢ ""

module _ {D : Type 0} {client : Client D} {Ready : D → Type 0}
    {Fits : List String → List Op → Type 0} {values : D → String → Option String}
    (etcd : IsEtcd client Ready Fits values) (paths : Paths) (joins : IsJoin paths)
    (codec : Codec) where
  -- What a transaction leaves for `GetJob`.
  get_job-run_txn :
      (exist : List String) (ops : List Op) (s : EtcdStore D) (i : String)
      → Ready s.db
      → HasPaths s
      → All (λ key. key ≢ "") exist
      → IsAllowed ops
      → Fits exist ops
      → let r = run_txn client exist ops s in
        let key = paths.join s.jobs_path i in
        (r.0 ≡ ok tt)
        × (get_job client paths codec i r.1
            ≡ read_values client paths codec i (
                inr (
                  listed (
                    if all_exist (values s.db) exist
                    then value_after_all ops key (values s.db key)
                    else values s.db key))))
  unfolding run_txn get_job
  get_job-run_txn exist ops s i ready named filled allowed fits =
      let (fine, still, left) = etcd.commits s.db exist ops ready filled allowed fits in
      (
        ap nil_or fine,
        ap (read_values client paths codec i) (
            etcd.gets (client.commit exist ops s.db).1 (paths.join s.jobs_path i) still
              (joins s.jobs_path i named.jobs)
            ∙ ap (λ v. inr (listed v)) (left (paths.join s.jobs_path i))),
      )

  get_job_now :
      (s : EtcdStore D) (i : String)
      → Ready s.db
      → HasPaths s
      → get_job client paths codec i s
        ≡ read_values client paths codec i (inr (listed (values s.db (paths.join s.jobs_path i))))
  unfolding get_job
  get_job_now s i ready named =
      ap (read_values client paths codec i)
        (etcd.gets s.db (paths.join s.jobs_path i) ready (joins s.jobs_path i named.jobs))

  -- Both writes of a job are allowed.
  two_targets :
      (s : EtcdStore D) (id : String) (a b : Op)
      → HasPaths s
      → target a ≡ paths.join s.jobs_path id
      → target b ≡ paths.join s.run_times_path id
      → is_range a ≡ false
      → is_range b ≡ false
      → paths.join s.jobs_path id ≢ paths.join s.run_times_path id
      → IsAllowed (a ∷ b ∷ [])
  two_targets s id a b named at_job at_time one_key one_time apart = (
    rw at_job (joins s.jobs_path id named.jobs),
    (rw (at_job, at_time, one_key, one_time, ne→test _ _ apart) refl, tt),
    (rw at_time (joins s.run_times_path id named.run_times), tt, tt),
  )

  -- Over a server that answers and does what etcd documents, with a `path.Join` that gives an
  -- empty path only for empty elements and a store whose two paths are not empty, for a job that
  -- can be encoded, whose own path is not that of its run time and whose transaction the server
  -- accepts by its size, and an identifier whose path is not that of the run time of the job:
  -- `UpdateJob` of the etcd store succeeds; if the job was stored, `GetJob` afterwards decodes the
  -- new state under its path and finds under every other what it found before, and if it was not,
  -- `GetJob` finds everywhere what it found before.
  pub get_job-update_job :
      (s : EtcdStore D) (j : Job) (state i : String)
      → Ready s.db
      → HasPaths s
      → codec.state_dump j ≡ inr state
      → Fits (paths.join s.jobs_path j.id ∷ []) (put_ops client paths codec s j state)
      → paths.join s.jobs_path j.id ≢ paths.join s.run_times_path j.id
      → paths.join s.run_times_path j.id ≢ paths.join s.jobs_path i
      → let r = update_job client paths codec j s in
        (r.0 ≡ ok tt)
        × (get_job client paths codec i r.1 ≡ (
            if is_some (values s.db (paths.join s.jobs_path j.id))
              && (paths.join s.jobs_path j.id == paths.join s.jobs_path i)
            then codec.state_load state
            else get_job client paths codec i s))
  unfolding update_job replace_state value_after_all value_after read_values
  get_job-update_job s j state i ready named dumped fits own apart =
      let at = paths.join s.jobs_path j.id in
      let (fine, found) =
        get_job-run_txn (at ∷ []) (put_ops client paths codec s j state) s i ready named
          (joins s.jobs_path j.id named.jobs, tt)
          (two_targets s j.id (op_put at state)
            (op_put (paths.join s.run_times_path j.id) (paths.itoa (unix j.next_run_time))) named
            refl refl refl refl own)
          fits in
      rw dumped (
        fine,
        found
            ∙ rw (get_job_now s i ready named, ne→test _ _ apart)
                (elim (Option-cases (values s.db at)) [
                  | inl h ↦ rw h refl
                  | inr (v, h) ↦ rw h (elim (Bool-cases (at == paths.join s.jobs_path i)) [
                    | inl e ↦ rw e refl
                    | inr e ↦ rw e refl
                  ])
                ]),
      )

  -- Over a server that answers and does what etcd documents, for an identifier whose path is not
  -- that of the run time of the deleted job: `DeleteJob` of the etcd store succeeds, whether or
  -- not the job was stored, and `GetJob` afterwards reports that nothing was found under the path
  -- of the deleted job, and finds under every other what it found before.
  get_job-delete_job :
      (s : EtcdStore D) (id i : String)
      → Ready s.db
      → HasPaths s
      → Fits
          (paths.join s.jobs_path id ∷ [])
          (op_delete (paths.join s.jobs_path id) ∷ op_delete (paths.join s.run_times_path id) ∷ [])
      → paths.join s.jobs_path id ≢ paths.join s.run_times_path id
      → paths.join s.run_times_path id ≢ paths.join s.jobs_path i
      → let r = delete_job client paths id s in
        (r.0 ≡ ok tt)
        × (get_job client paths codec i r.1 ≡ (
            if paths.join s.jobs_path id == paths.join s.jobs_path i
            then err (job_not_found i)
            else get_job client paths codec i s))
  unfolding delete_job value_after_all value_after read_values
  get_job-delete_job s id i ready named fits own apart =
      let at = paths.join s.jobs_path id in
      let asked = paths.join s.jobs_path i in
      let (fine, found) =
        get_job-run_txn (at ∷ []) (op_delete at ∷ op_delete (paths.join s.run_times_path id) ∷ []) s
          i ready named (joins s.jobs_path id named.jobs, tt)
          (two_targets s id (op_delete at) (op_delete (paths.join s.run_times_path id)) named refl
            refl refl refl own)
          fits in
      (
        fine,
        found
            ∙ rw (get_job_now s i ready named, ne→test _ _ apart)
                (elim (Option-cases (values s.db at)) [
                  | inl h ↦ rw h (elim (Bool-cases (at == asked)) [
                    | inl e ↦ rw (e, sym ((eq_iff at asked).0 e), h) refl
                    | inr e ↦ rw e refl
                  ])
                  | inr (v, h) ↦
                      rw h
                        (elim (Bool-cases (at == asked)) [ inl e ↦ rw e refl | inr e ↦ rw e refl ])
                ]),
      )
