-- ===== src/Oauth/Limits.antt =====
-- The registration of clients of src/oauth/state.ts keeps its limits.
use brain_mcp_server.Prelude.{
  ℕ, ◌≡◌, refl, ◌≤◌, ◌+◌, Bool, true, false, some, [], ◌∷◌, Text, text_eq, length, leb, arith,
  if◌then◌else◌,
}
use brain_mcp_server.Prelude.Maps.{Map, get, set, get-set_self}
use brain_mcp_server.Oauth.{Fields, RegistrationLimits, sweep_expired, is_full, register_client}

length-set-le : {V : Type 0} (k : Text) (v : V) (m : Map Text V) → length (set k v m) ≤ length m + 1
unfolding set
length-set-le k v [] = omega arith
length-set-le k v ((j, w) ∷ m) = ground (arith, length-set-le k v m)

-- What a registration answers and leaves.
abbrev pub Registered :
    {V : Type 0} → RegistrationLimits → Text → V → Map Text V → Bool × Map Text V → Type 0
Registered limits k value table (true, after) =
    (length after ≤ limits.maximum_clients) × (get k after ≡ some value)
Registered limits k value table (false, after) = after ≡ table

-- A registration is refused and changes nothing, or the client is there and the clients are no more than
-- the maximum.
pub register_client-Registered :
    {V : Type 0} (fields : Fields V) (now : ℕ) (k : Text) (value : V) (limits : RegistrationLimits)
    (table : Map Text V)
    → Registered limits k value table (register_client fields now k value limits table)
unfolding register_client
register_client-Registered {V} fields now k value limits table =
    of (is_full fields limits now (sweep_expired fields now table)) refl
  where
    of :
        (full : Bool)
        → is_full fields limits now (sweep_expired fields now table) ≡ full
        → Registered limits k value table
            (if full then (false, table) else (true, set k value (sweep_expired fields now table)))
    of true e = refl
    of false e = (
      (let room : leb limits.maximum_clients (length (sweep_expired fields now table)) ≡ false =
            ground arith in
          ground (arith, room, length-set-le k value (sweep_expired fields now table))),
      get-set_self k value (sweep_expired fields now table),
    )
