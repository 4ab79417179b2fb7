-- ===== src/Job/Equality.antt =====
-- Whether two jobs are equal can be decided.
use native.Mathlib.Decide.{ℕ_discrete}
use agscheduler.Base.{String, inl, inr, ◌==◌, eq_iff, Bool-cases, test→ne}
use agscheduler.Job.{Job}

String-discrete : Discrete String
String-discrete a b = elim (Bool-cases (a == b)) [
  | inl h ↦ yes ((eq_iff a b).0 h)
  | inr h ↦ no (test→ne a b h)
]

pub Job-discrete : Discrete Job
Job-discrete = hlevel (String-discrete, ℕ_discrete)
