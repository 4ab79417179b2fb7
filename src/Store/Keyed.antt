-- ===== src/Store/Keyed.antt =====
-- The stores that keep one encoded job for each identifier: what is asked of their reads and
-- writes.
pub mod Refines
pub mod Listing
use agscheduler.Base.{
  ◌≤◌, ◌≡◌, ◌≢◌, refl, sym, ap, ◌∙◌, subst, arith, String, Option, none, some, inl, inr, some≢none,
  if◌then◌else◌, ◌==◌, Bool-cases, Option-cases, Sum-cases, eq_iff, some_inj,
}
use agscheduler.Errors.{Error, job_not_found}
use agscheduler.Result.{Result, ok, err, require}
use agscheduler.Time.{Time}
use agscheduler.Job.{Job}
use agscheduler.Store.{Store}
use agscheduler.Store.Contract.{IsMap, IsLawful, Becomes}
use agscheduler.Store.Codec.{Codec, loaded, kept, kept_state, IsGob}

-- What is stored under an identifier: a column for the next run time, and the encoded job.
pub record Entry : Type 0 where
  pub time : Time
  pub state : String

module _ {D T V : Type 0} (Ready : D → T → Type 0) (held : D → T → String → Option V)
    (table : T) where
  -- A statement without an error, after which the table holds `new`.
  pub record Leaves (r : Option Error × D) (new : String → Option V) : Type 0 where
    pub fine : r.0 ≡ none
    pub ready : Ready r.1 table
    pub holds : (i : String) → held r.1 table i ≡ new i

module _ (codec : Codec) where
  unfoldable pub read_entry : String → Option Entry → Result Job
  read_entry i none = err (job_not_found i)
  read_entry i (some e) = codec.state_load e.state

  unfoldable pub shown : Option Entry → Option Job
  unfolding loaded
  shown none = none
  shown (some e) = loaded (codec.state_load e.state)

  -- The entry decodes to a job with that identifier, and its column is not later than the job.
  pub record Decodes (i : String) (e : Entry) : Type 0 where
    pub job : Job
    pub loads : codec.state_load e.state ≡ ok job
    pub named : job.id ≡ i
    pub early : e.time ≤ job.next_run_time

module _ {S : Type 0} (docs : S → String → Option Entry) (Good : S → Type 0) where
  -- A call that succeeds and leaves the entries `new`.
  pub record Writes (r : Result (Unit {0}) × S) (new : String → Option Entry) : Type 0 where
    pub done : r.0 ≡ ok tt
    pub good : Good r.1
    pub entries : (i : String) → docs r.1 i ≡ new i

  -- Any new job can be added, also one without an identifier.
  abbrev pub AddsKeyed : Codec → (column : Time → Time) → Store S → Type 0
  AddsKeyed codec column store =
      (s : S) (j : Job) (state : String)
      → Good s
      → docs s j.id ≡ none
      → codec.state_dump j ≡ inr state
      → Writes (store.add_job j s) (λ i.
        if j.id == i
        then some (record { time = column j.next_run_time; state = state })
        else docs s i)

  -- The operations read and write one entry each, with `column` what the column keeps of a time.
  pub record IsKeyed (codec : Codec) (column : Time → Time) (store : Store S) : Type 0 where
    pub get : (s : S) (i : String) → Good s → store.get_job i s ≡ read_entry codec i (docs s i)
    pub add :
        (s : S) (j : Job) (state : String)
        → Good s
        → j.id ≢ ""
        → docs s j.id ≡ none
        → codec.state_dump j ≡ inr state
        → Writes (store.add_job j s) (λ i.
          if j.id == i
          then some (record { time = column j.next_run_time; state = state })
          else docs s i)
    pub update :
        (s : S) (j : Job) (x : Entry) (state : String)
        → Good s
        → docs s j.id ≡ some x
        → codec.state_dump j ≡ inr state
        → Writes (store.update_job j s) (λ i.
          if j.id == i
          then some (record { time = column j.next_run_time; state = state })
          else docs s i)
    pub refuse_new :
        (s : S) (j : Job) (e : Error) → codec.state_dump j ≡ inl e → store.add_job j s ≡ (err e, s)
    pub refuse :
        (s : S) (j : Job) (e : Error)
        → codec.state_dump j ≡ inl e
        → store.update_job j s ≡ (err e, s)
    pub delete :
        (s : S) (id : String)
        → Good s
        → Writes (store.delete_job id s) (λ i. if id == i then none else docs s i)
    pub delete_all : (s : S) → Good s → Writes (store.delete_all_jobs s) (λ i. none)

  -- The next run time is computed, and no column is earlier.
  pub record IsTimed (store : Store S) : Type 0 where
    pub total : (s : S) → Good s → (t : Time) × (store.get_next_run_time s ≡ ok t)
    pub least :
        (s : S) (t : Time) (i : String) (e : Entry)
        → Good s
        → store.get_next_run_time s ≡ ok t
        → docs s i ≡ some e
        → t ≤ e.time

  pub record IsStored (codec : Codec) (s : S) : Type 0 where
    pub good : Good s
    pub decodes : (i : String) (e : Entry) → docs s i ≡ some e → Decodes codec i e

  abbrev pub view : Codec → S → String → Option Job
  view codec s i = shown codec (docs s i)
