-- ===== src/Optional.antt =====
-- src/optional.h: a value that is there or not, in storage that the class constructs and destroys by
-- hand. `poisoned` is what the sanitizers are told. `none` is a use that they would report: a value
-- that is constructed over a live one, destroyed or read when it is not live, or touched while it is
-- poisoned. `husk` gives what a value becomes when it is moved from.
pub mod Lifetime
use librtcbase.Prelude.{Bool, true, false, not, ◌&&◌, ◌||◌, Option, none, some, if◌then◌else◌}

module _ (A : Type 0) where
  pub record Optional : Type 0 where
    pub has_value : Bool
    pub live : Option A
    pub poisoned : Bool

module _ {A : Type 0} where
  abbrev pub poison_value : Optional A → Optional A
  poison_value o = record o { poisoned = true }

  abbrev pub unpoison_value : Optional A → Optional A
  unpoison_value o = record o { poisoned = false }

  -- Placement new, the destructor of the value, and a read of it.
  unfoldable pub construct_value : A → Optional A → Option (Optional A)
  construct_value value o = elim o.live [
    | none ↦ if o.poisoned then none else some (record o { live = some value })
    | some old ↦ none
  ]

  unfoldable pub destroy_value : Optional A → Option (Optional A)
  destroy_value o = elim o.live [
    | none ↦ none
    | some old ↦ if o.poisoned then none else some (record o { live = none })
  ]

  unfoldable pub read_value : Optional A → Option A
  read_value o = if o.poisoned then none else o.live

  -- The assignment of the value itself.
  unfoldable pub assign_value : A → Optional A → Option (Optional A)
  unfolding read_value
  assign_value value o = elim (read_value o) [
    | none ↦ none
    | some old ↦ some (record o { live = some value })
  ]

  abbrev pub empty_optional : Optional A
  empty_optional = record { has_value = false; live = none; poisoned = true }

  abbrev pub of_value : A → Optional A
  of_value value = record { has_value = true; live = some value; poisoned = false }

  unfoldable pub copy : Optional A → Option (Optional A)
  unfolding read_value
  copy m =
      if m.has_value
      then elim (read_value m) [ none ↦ none | some value ↦ some (of_value value) ]
      else some empty_optional

  unfoldable pub destruct : Optional A → Option (Optional A)
  unfolding destroy_value
  destruct o = if o.has_value then destroy_value o else some (unpoison_value o)

  unfoldable pub reset : Optional A → Option (Optional A)
  unfolding destroy_value
  reset o = if not o.has_value then some o else elim (destroy_value o) [
    | none ↦ none
    | some o1 ↦ some (poison_value (record o1 { has_value = false }))
  ]

  abbrev with_value : Option (Optional A) → Option (Optional A)
  with_value none = none
  with_value (some o) = some (record o { has_value = true })

  -- Copy assignment from the value of `m`, which a move assignment does too.
  unfoldable pub assign_from : A → Optional A → Option (Optional A)
  unfolding assign_value construct_value
  assign_from value o =
      if o.has_value
      then assign_value value o
      else with_value (construct_value value (unpoison_value o))

  unfoldable pub assign : Optional A → Optional A → Option (Optional A)
  unfolding read_value assign_from reset
  assign o m =
      if m.has_value
      then elim (read_value m) [ none ↦ none | some value ↦ assign_from value o ]
      else reset o

  -- Move assignment and the move constructor, with the other one after them.
  unfoldable pub move_assign : (A → A) → Optional A → Optional A → Option (Optional A × Optional A)
  unfolding read_value assign_from reset
  move_assign husk o m =
      if m.has_value
      then elim (read_value m) [
        | none ↦ none
        | some value ↦ elim (assign_from value o) [
          | none ↦ none
          | some o' ↦ some (o', record m { live = some (husk value) })
        ]
      ]
      else elim (reset o) [ none ↦ none | some o' ↦ some (o', m) ]

  unfoldable pub move : (A → A) → Optional A → Option (Optional A × Optional A)
  unfolding read_value
  move husk m =
      if m.has_value
      then elim (read_value m) [
        | none ↦ none
        | some value ↦ some (of_value value, record m { live = some (husk value) })
      ]
      else some (empty_optional, m)

  unfoldable pub emplace : A → Optional A → Option (Optional A)
  unfolding destroy_value construct_value
  emplace value o =
      if o.has_value
      then elim (destroy_value o) [ none ↦ none | some o1 ↦ with_value (construct_value value o1) ]
      else with_value (construct_value value (unpoison_value o))

  -- The value of `m1` is moved to `m2`, which has none.
  unfoldable pub move_over : Optional A → Optional A → Option (Optional A × Optional A)
  unfolding read_value construct_value destroy_value
  move_over m1 m2 = elim (read_value m1) [
    | none ↦ none
    | some value ↦ elim (construct_value value (unpoison_value m2)) [
      | none ↦ none
      | some n2 ↦ elim (destroy_value m1) [
        | none ↦ none
        | some n1 ↦
            some (poison_value (record n1 { has_value = false }), record n2 { has_value = true })
      ]
    ]
  ]

  unfoldable pub swap_values : Optional A → Optional A → Option (Optional A × Optional A)
  unfolding read_value
  swap_values m1 m2 = elim (read_value m1) [
    | none ↦ none
    | some a ↦ elim (read_value m2) [
      | none ↦ none
      | some b ↦ some (record m1 { live = some b }, record m2 { live = some a })
    ]
  ]

  unfoldable pub swap : Optional A → Optional A → Option (Optional A × Optional A)
  unfolding move_over swap_values
  swap m1 m2 =
      let back : Option (Optional A × Optional A) = elim (move_over m2 m1) [
        | none ↦ none
        | some (n2, n1) ↦ some (n1, n2)
      ] in
      if m1.has_value
      then if m2.has_value then swap_values m1 m2 else move_over m1 m2
      else if m2.has_value
      then back
      else some (m1, m2)

  unfoldable pub value_or : A → Optional A → Option A
  unfolding read_value
  value_or default_val o = if o.has_value then read_value o else some default_val

  -- operator==, with `same` that of the values.
  unfoldable pub equals : (A → A → Bool) → Optional A → Optional A → Option Bool
  unfolding read_value
  equals same m1 m2 =
      if m1.has_value && m2.has_value
      then elim (read_value m1) [
        | none ↦ none
        | some a ↦ elim (read_value m2) [ none ↦ none | some b ↦ some (same a b) ]
      ]
      else some (if m1.has_value then m2.has_value else not m2.has_value)

  -- operator!=, with `differ` that of the values, and the comparisons with a value.
  unfoldable pub not_equals : (A → A → Bool) → Optional A → Optional A → Option Bool
  unfolding read_value
  not_equals differ m1 m2 =
      if m1.has_value && m2.has_value
      then elim (read_value m1) [
        | none ↦ none
        | some a ↦ elim (read_value m2) [ none ↦ none | some b ↦ some (differ a b) ]
      ]
      else some (if m1.has_value then not m2.has_value else m2.has_value)

  unfoldable pub equals_value : (A → A → Bool) → Optional A → A → Option Bool
  unfolding read_value
  equals_value same opt value =
      if not opt.has_value
      then some false
      else elim (read_value opt) [ none ↦ none | some a ↦ some (same a value) ]

  unfoldable pub not_equals_value : (A → A → Bool) → Optional A → A → Option Bool
  unfolding read_value
  not_equals_value differ opt value =
      if not opt.has_value
      then some true
      else elim (read_value opt) [ none ↦ none | some a ↦ some (differ a value) ]

  unfoldable pub move_value : (A → A) → Optional A → Option (A × Optional A)
  unfolding read_value
  move_value husk o = elim (read_value o) [
    | none ↦ none
    | some value ↦ some (value, record o { live = some (husk value) })
  ]
