-- ===== src/Optional/Lifetime.antt =====
-- An optional is an option: the value is live exactly if it says so.
use librtcbase.Prelude.{not, Bool, true, false, Option, none, some, ◌≡◌, refl}
use librtcbase.Optional.{
  Optional, empty_optional, of_value, copy, destruct, reset, assign, move_assign, move, emplace,
  swap, value_or, equals, not_equals, equals_value, not_equals_value, move_value, read_value,
  construct_value, destroy_value, assign_value, assign_from, move_over, swap_values,
}

abbrev negation : Option Bool → Option Bool
negation none = none
negation (some b) = some (not b)

module _ {A : Type 0} where
  -- The optional of an option.
  abbrev pub optional_of : Option A → Optional A
  optional_of none = empty_optional
  optional_of (some a) = of_value a

  -- A moved-from value is still there.
  abbrev pub moved_from : (A → A) → Option A → Option A
  moved_from husk none = none
  moved_from husk (some a) = some (husk a)

  abbrev pub or_else : A → Option A → A
  or_else a none = a
  or_else a (some b) = b

  abbrev pub same_option : (A → A → Bool) → Option A → Option A → Bool
  same_option same none none = true
  same_option same (some a) (some b) = same a b
  same_option same _ _ = false

  -- For an optional that stands for an option, every use is one that the sanitizers allow, and: the
  -- copy is the same optional; a moved optional keeps a moved-from value, if it had one; reset empties
  -- it; emplace puts the new value there; value_or is its value, or else the default; and the
  -- destructor leaves no value alive and nothing poisoned.
  pub optional_lem :
      (v : Option A)
      → (a : A) → (husk : A → A)
      → (copy (optional_of v) ≡ some (optional_of v))
        × (move husk (optional_of v) ≡ some (optional_of v, optional_of (moved_from husk v)))
        × (reset (optional_of v) ≡ some (optional_of none))
        × (emplace a (optional_of v) ≡ some (optional_of (some a)))
        × (value_or a (optional_of v) ≡ some (or_else a v))
        × (destruct (optional_of v)
            ≡ some
                (record { has_value = (optional_of v).has_value; live = none; poisoned = false }))
  unfolding copy move reset emplace value_or destruct read_value construct_value destroy_value
  optional_lem none a husk = (refl, refl, refl, refl, refl, refl)
  optional_lem (some b) a husk = (refl, refl, refl, refl, refl, refl)

  -- For two optionals that stand for options, copy assignment, move assignment, swap and operator==
  -- use only live values that are not poisoned, and do to the optionals what they mean for the
  -- options.
  pub optionals_lem :
      (v w : Option A)
      → (husk : A → A) → (same : A → A → Bool)
      → (assign (optional_of v) (optional_of w) ≡ some (optional_of w))
        × (move_assign husk (optional_of v) (optional_of w)
            ≡ some (optional_of w, optional_of (moved_from husk w)))
        × (swap (optional_of v) (optional_of w) ≡ some (optional_of w, optional_of v))
        × (equals same (optional_of v) (optional_of w) ≡ some (same_option same v w))
  unfolding assign move_assign swap equals read_value construct_value destroy_value assign_value
      assign_from reset move_over swap_values
  optionals_lem none none husk same = (refl, refl, refl, refl)
  optionals_lem none (some b) husk same = (refl, refl, refl, refl)
  optionals_lem (some a) none husk same = (refl, refl, refl, refl)
  optionals_lem (some a) (some b) husk same = (refl, refl, refl, refl)

  -- With values that differ exactly when they are not the same, operator!= is the negation of
  -- operator==, and a comparison with a value is one with the optional of that value.
  comparisons_lem :
      (v w : Option A)
      → (a : A) → (same : A → A → Bool)
      → (not_equals (λ x y. not (same x y)) (optional_of v) (optional_of w)
          ≡ negation (equals same (optional_of v) (optional_of w)))
        × (equals_value same (optional_of v) a ≡ equals same (optional_of v) (of_value a))
        × (not_equals_value (λ x y. not (same x y)) (optional_of v) a
            ≡ negation (equals_value same (optional_of v) a))
  unfolding equals not_equals equals_value not_equals_value read_value
  comparisons_lem none none a same = (refl, refl, refl)
  comparisons_lem none (some c) a same = (refl, refl, refl)
  comparisons_lem (some b) none a same = (refl, refl, refl)
  comparisons_lem (some b) (some c) a same = (refl, refl, refl)

  -- Moving the value out gives it and leaves a moved-from value; from an empty optional it is a use
  -- that the sanitizers report.
  move_value_lem :
      (a : A)
      → (husk : A → A)
      → (move_value husk (optional_of (some a)) ≡ some (a, optional_of (some (husk a))))
        × (move_value husk (optional_of none) ≡ none)
  unfolding move_value read_value
  move_value_lem a husk = (refl, refl)
