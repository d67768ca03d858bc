-- ===== src/Oauth/Once.antt =====
-- `consumeOnce` of src/oauth/state.ts gives a value at most once, and never an expired one.
use brain_mcp_server.Prelude.{
  ℕ, ◌≡◌, refl, ◌≤◌, ◌+◌, false, Option, none, some, List, [], ◌∷◌, Text, text_eq, arith,
}
use brain_mcp_server.Prelude.Maps.{beq_refl, Map, get, remove, get-remove}
use brain_mcp_server.Oauth.{Fields, is_expired, sweep_expired, consumed, consume_once}

-- The answers to consumptions of one key, at any times.
abbrev pub consumptions : {V : Type 0} → Fields V → Text → List ℕ → Map Text V → List (Option V)
consumptions fields k [] table = []
consumptions fields k (now ∷ times) table =
    (consume_once fields now k table).0
    ∷ consumptions fields k times (consume_once fields now k table).1

abbrev pub successes : {V : Type 0} → List (Option V) → ℕ
successes [] = 0
successes (none ∷ answers) = successes answers
successes (some value ∷ answers) = 1 + successes answers

module _ {V : Type 0} (fields : Fields V) (k : Text) where
  -- What is not in a table is not in what is left of it.
  pub get-sweep_none :
      (now : ℕ) (table : Map Text V)
      → get k table ≡ none
      → get k (sweep_expired fields now table) ≡ none
  unfolding get sweep_expired
  get-sweep_none now [] h = refl
  get-sweep_none now ((j, v) ∷ table) h = ground (arith, get-sweep_none now table)

  pub get-remove_self : (table : Map Text V) → get k (remove k table) ≡ none
  get-remove_self table = rw (get-remove k k table) (rw (beq_refl k) refl)

  pub get-sweep_expired :
      (now : ℕ) (table : Map Text V) (value : V)
      → get k (sweep_expired fields now table) ≡ some value
      → is_expired fields now value ≡ false
  unfolding get sweep_expired
  get-sweep_expired now [] value h = cc
  get-sweep_expired now ((j, v) ∷ table) value h = ground (arith, get-sweep_expired now table value)

-- A key that a table does not inherit.
module _ {V : Type 0} (fields : Fields V) (k : Text) (plain : fields.inherits k ≡ none) where
  no_successes :
      (times : List ℕ) (table : Map Text V)
      → get k table ≡ none
      → successes (consumptions fields k times table) ≡ 0
  unfolding consume_once
  no_successes [] table h = refl
  no_successes (now ∷ times) table h =
      rw (plain, get-sweep_none fields k now table h) (no_successes times table h)

  -- However often a key is consumed that the table, as an object, does not inherit, and at
  -- whatever times, at most one consumption gives a value.
  pub successes-consumptions_le :
      (times : List ℕ) (table : Map Text V) → successes (consumptions fields k times table) ≤ 1
  unfolding consume_once
  successes-consumptions_le [] table = omega arith
  successes-consumptions_le (now ∷ times) table =
      rw plain (of (get k (sweep_expired fields now table)) (successes-consumptions_le times table))
    where
      of :
          (found : Option V)
          → successes (consumptions fields k times table) ≤ 1
          → successes (
              (consumed fields found k (sweep_expired fields now table) table).0
              ∷ consumptions fields k times
                  (consumed fields found k (sweep_expired fields now table) table).1)
            ≤ 1
      of none i = i
      of (some value) i = omega (
        arith,
        no_successes times (remove k (sweep_expired fields now table))
            (get-remove_self fields k (sweep_expired fields now table)),
      )

  -- What a consumption gives, for a key that the table, as an object, does not inherit, has not
  -- expired, and it is in the table no more.
  pub consume_once-IsFresh :
      (now : ℕ) (table : Map Text V) (value : V)
      → (consume_once fields now k table).0 ≡ some value
      → (is_expired fields now value ≡ false) × (get k (consume_once fields now k table).1 ≡ none)
  unfolding consume_once
  consume_once-IsFresh now table value h = rw plain (
      of (get k (sweep_expired fields now table)) (get-sweep_expired fields k now table value)
        (rw plain at h))
    where
      of :
          (found : Option V)
          → (found ≡ some value → is_expired fields now value ≡ false)
          → (consumed fields found k (sweep_expired fields now table) table).0 ≡ some value
          → (is_expired fields now value ≡ false)
            × (get k (consumed fields found k (sweep_expired fields now table) table).1 ≡ none)
      of none f h = absurd (cc)
      of (some v) f h = (f h, get-remove_self fields k (sweep_expired fields now table))
