-- ===== src/Tests/Tables.antt =====
-- Tables as association lists, for the databases of the examples.
use native.Mathlib.Nat.{le_refl}
use agscheduler.Base.{
  leb, ◌≡◌, refl, ◌∙◌, sym, String, Bool, true, false, Option, none, some, inl, inr, [], ◌∷◌,
  if◌then◌else◌, ◌==◌, Bool-cases, Option-cases, eq_iff, eq_refl, test→ne, ap, some≢none, some_inj,
  subst, arith,
}
use agscheduler.Base.Int.{ℤ, pos, negsuc, IsAtMost}
use agscheduler.Base.Dict.{Dict, lookup, insert, lookup-insert, Unique}

module _ {V : Type 0} where
  unfoldable pub removed : String → Dict V → Dict V
  removed id [] = []
  removed id ((k, v) ∷ rest) =
      let rest' = removed id rest in if k == id then rest' else (k, v) ∷ rest'

  pub lookup-removed :
      (id i : String) (m : Dict V)
      → lookup i (removed id m) ≡ (if id == i then none else lookup i m)
  unfolding lookup removed
  lookup-removed id i [] = elim (Bool-cases (id == i)) [ inl h ↦ rw h refl | inr h ↦ rw h refl ]
  lookup-removed id i ((k, v) ∷ rest) =
      ground (arith, lookup-removed id i rest, eq_iff k id, eq_iff id i, eq_iff k i)

  pub removed-Unique : (id : String) (m : Dict V) → Unique m → Unique (removed id m)
  unfolding removed
  removed-Unique id [] u = tt
  removed-Unique id ((k, v) ∷ rest) u = elim (Bool-cases (k == id)) [
    | inl h ↦ rw h (removed-Unique id rest u.1)
    | inr h ↦ rw h (
      lookup-removed id k rest
          ∙ elim (Bool-cases (id == k)) [ inl e ↦ rw e refl | inr e ↦ rw e u.0 ],
      removed-Unique id rest u.1,
    )
  ]

  pub insert-Unique : (id : String) (x : V) (m : Dict V) → Unique m → Unique (insert id x m)
  unfolding insert lookup
  insert-Unique id x [] u = (refl, tt)
  insert-Unique id x ((k, v) ∷ rest) u = elim (Bool-cases (k == id)) [
    | inl h ↦ rw h (ap (λ y. lookup y rest) (sym ((eq_iff k id).0 h)) ∙ u.0, u.1)
    | inr h ↦ rw h (
      lookup-insert id k x rest ∙ elim (Bool-cases (id == k)) [
        | inl e ↦ absurd (test→ne k id h (sym ((eq_iff id k).0 e)))
        | inr e ↦ rw e u.0
      ],
      insert-Unique id x rest u.1,
    )
  ]

-- An order with a test.
pub record IsOrder {V : Type 0} (IsLe : V → V → Type 0) (le : V → V → Bool) : Type 0 where
  pub sound : (a b : V) → le a b ≡ true → IsLe a b
  pub total : (a b : V) → le a b ≡ false → IsLe b a
  pub trans : (a b c : V) → IsLe a b → IsLe b c → IsLe a c
  pub same : (a : V) → IsLe a a

-- The first of the rows with the least value.
module _ {V : Type 0} {IsLe : V → V → Type 0} {le : V → V → Bool} (order : IsOrder IsLe le) where
  lesser : String × V → Option (String × V) → String × V
  lesser (k, v) none = (k, v)
  lesser (k, v) (some (j, u)) = if le v u then (k, v) else (j, u)

  unfoldable pub least : Dict V → Option (String × V)
  unfolding lesser
  least [] = none
  least (row ∷ rest) = let later = least rest in some (lesser row later)

  pub least_none : (m : Dict V) (i : String) → least m ≡ none → lookup i m ≡ none
  unfolding least lookup
  least_none [] i h = refl
  least_none (row ∷ rest) i h = absurd (some≢none h)

  lesser_head : (k : String) (v : V) (o : Option (String × V)) → IsLe (lesser (k, v) o).1 v
  unfolding lesser
  lesser_head k v none = order.same v
  lesser_head k v (some (j, u)) = elim (Bool-cases (le v u)) [
    | inl h ↦ rw h (order.same v)
    | inr h ↦ rw h (order.total v u h)
  ]

  lesser_rest : (k j : String) (v u : V) → IsLe (lesser (k, v) (some (j, u))).1 u
  unfolding lesser
  lesser_rest k j v u = elim (Bool-cases (le v u)) [
    | inl h ↦ rw h (order.sound v u h)
    | inr h ↦ rw h (order.same u)
  ]

  pub least_le :
      (m : Dict V) (row : String × V) (i : String) (u : V)
      → least m ≡ some row
      → lookup i m ≡ some u
      → IsLe row.1 u
  unfolding least lookup
  least_le [] row i u h found = absurd (some≢none (sym h))
  least_le ((k, v) ∷ rest) row i u h found =
      subst (λ r. IsLe r.1 u) (some_inj h)
        (elim (Bool-cases (k == i)) [
          | inl e ↦
              let is : v ≡ u = some_inj (sym (rw e refl) ∙ found) in
              subst (IsLe _) is (lesser_head k v (least rest))
          | inr e ↦
              let later : lookup i rest ≡ some u = sym (rw e refl) ∙ found in
              elim (Option-cases (least rest)) [
                | inl none_left ↦ absurd (some≢none (sym later ∙ least_none rest i none_left))
                | inr ((j, x), is) ↦
                    rw is
                      (order.trans _ x u (lesser_rest k j v x) (least_le rest (j, x) i u is later))
              ]
        ])

  key_apart :
      (k j : String) (x : V) (m : Dict V)
      → lookup k m ≡ none
      → lookup j m ≡ some x
      → (k == j) ≡ false
  key_apart k j x m lost found = elim (Bool-cases (k == j)) [
    | inl h ↦ absurd (some≢none (sym found ∙ ap (λ i. lookup i m) (sym ((eq_iff k j).0 h)) ∙ lost))
    | inr h ↦ h
  ]

  lesser_in :
      (k : String) (v : V) (rest : Dict V) (o : Option (String × V))
      → lookup k rest ≡ none
      → ((r : String × V) → o ≡ some r → lookup r.0 rest ≡ some r.1)
      → lookup (lesser (k, v) o).0 ((k, v) ∷ rest) ≡ some (lesser (k, v) o).1
  unfolding lesser lookup
  lesser_in k v rest none lost found = rw (eq_refl k) refl
  lesser_in k v rest (some (j, x)) lost found =
      let later = found (j, x) refl in
      elim (Bool-cases (le v x)) [
        | inl e ↦ rw (e, eq_refl k) refl
        | inr e ↦
            let second : (j, x) ≡ lesser (k, v) (some (j, x)) = rw e refl in
            subst (λ r. lookup r.0 ((k, v) ∷ rest) ≡ some r.1) second
              (rw (key_apart k j x rest lost later) later)
      ]

  -- The least row is one of them.
  pub least_in :
      (m : Dict V) (row : String × V) → Unique m → least m ≡ some row → lookup row.0 m ≡ some row.1
  unfolding least
  least_in [] row u h = absurd (some≢none (sym h))
  least_in ((k, v) ∷ rest) row u h =
      subst (λ r. lookup r.0 ((k, v) ∷ rest) ≡ some r.1) (some_inj h)
        (lesser_in k v rest (least rest) u.0 (λ r is. least_in rest r u.1 is))

-- The order of the integers.
IsAtMost-trans : (a b c : ℤ) → IsAtMost a b → IsAtMost b c → IsAtMost a c
IsAtMost-trans (pos a) (pos b) (pos c) h k = omega arith
IsAtMost-trans (pos a) (pos b) (negsuc c) h k = absurd k
IsAtMost-trans (pos a) (negsuc b) c h k = absurd h
IsAtMost-trans (negsuc a) (pos b) (pos c) h k = tt
IsAtMost-trans (negsuc a) (pos b) (negsuc c) h k = absurd k
IsAtMost-trans (negsuc a) (negsuc b) (pos c) h k = tt
IsAtMost-trans (negsuc a) (negsuc b) (negsuc c) h k = omega arith

IsAtMost-refl : (a : ℤ) → IsAtMost a a
IsAtMost-refl (pos a) = le_refl a
IsAtMost-refl (negsuc a) = le_refl a

abbrev pub at_most : ℤ → ℤ → Bool
at_most (pos a) (pos b) = leb a b
at_most (pos a) (negsuc b) = false
at_most (negsuc a) (pos b) = true
at_most (negsuc a) (negsuc b) = leb b a

at_most-true : (a b : ℤ) → at_most a b ≡ true → IsAtMost a b
at_most-true (pos a) (pos b) h = ground arith
at_most-true (pos a) (negsuc b) h = cc
at_most-true (negsuc a) (pos b) h = tt
at_most-true (negsuc a) (negsuc b) h = ground arith

at_most-false : (a b : ℤ) → at_most a b ≡ false → IsAtMost b a
at_most-false (pos a) (pos b) h = ground arith
at_most-false (pos a) (negsuc b) h = tt
at_most-false (negsuc a) (pos b) h = cc
at_most-false (negsuc a) (negsuc b) h = ground arith

pub ints-IsOrder : IsOrder IsAtMost at_most
ints-IsOrder = record {
  sound = at_most-true;
  total = at_most-false;
  trans = IsAtMost-trans;
  same = IsAtMost-refl;
}
