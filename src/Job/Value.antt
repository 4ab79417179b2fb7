-- ===== src/Job/Value.antt =====
-- `map[string]any`, the arguments of a job: the values that JSON and `structpb` know, and `other`
-- for the rest of Go's values, numbered. No function of the scheduler looks into them.
use agscheduler.Base.{ℕ, String, Bool}

mutual
  pub data Fields : Type 0 where
    no_fields : Fields
    field : (name : String) → Value → (rest : Fields) → Fields

  pub data Value : Type 0 where
    object : Fields → Value
    list : Values → Value
    string : String → Value
    number : (literal : String) → Value
    boolean : Bool → Value
    null : Value
    other : ℕ → Value

  pub data Values : Type 0 where
    value : Value → (rest : Values) → Values
    no_values : Values
