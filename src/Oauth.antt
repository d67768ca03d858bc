-- ===== src/Oauth.antt =====
-- src/oauth/state.ts: the file provider of the OAuth server's state. Every store is a table of entries in
-- a file, a missing file is an empty table, and the lock of a store makes each operation atomic.
pub mod Once
pub mod Limits
pub mod Grants
pub mod Pkce
pub mod Clients
pub mod Token
mod Tests
use brain_mcp_server.Prelude.{
  ℕ, ◌+◌, Bool, true, false, not, ◌||◌, Option, none, some, List, [], Text, text_eq, keep, length,
  ltb, leb, if◌then◌else◌, ◌∷◌, codes, contains,
}
use brain_mcp_server.Prelude.Maps.{Map, get, set, remove, values}

-- The names that every object inherits. A table is an object, and `entries[key]` reads these as well.
abbrev pub object_names : List Text
object_names =
    codes "constructor"
    ∷ codes "__defineGetter__"
    ∷ codes "__defineSetter__"
    ∷ codes "hasOwnProperty"
    ∷ codes "__lookupGetter__"
    ∷ codes "__lookupSetter__"
    ∷ codes "isPrototypeOf"
    ∷ codes "propertyIsEnumerable"
    ∷ codes "toString"
    ∷ codes "valueOf"
    ∷ codes "__proto__"
    ∷ codes "toLocaleString"
    ∷ []

-- The value that a table inherits under a name, given how its fields are read.
abbrev pub inherited_by {ℓ} : {A : Type ℓ} → A → Text → Option A
inherited_by value k = if contains k object_names then some value else none

-- What `entries[key]` reads, given what is inherited and what is the table's own.
abbrev pub own_or {ℓ} : {A : Type ℓ} → Option A → Option A → Option A
own_or none own = own
own_or (some value) none = some value
own_or (some value) (some own) = some own

-- The values are objects of any kind, of which the provider reads two fields: `expires_at`, if it is a
-- number, and `client_id_issued_at`. `inherits` gives what a table inherits; it is none for every key where
-- all keys are made by the server.
pub record Fields (V : Type 0) : Type 0 where
  pub inherits : Text → Option V
  pub expires_at : V → Option ℕ
  pub client_id_issued_at : V → ℕ

pub record RegistrationLimits : Type 0 where
  pub maximum_clients : ℕ
  pub per_hour : ℕ

pub record Stores (V : Type 0) : Type 0 where
  pub clients : Map Text V
  pub auth_codes : Map Text V
  pub refresh_tokens : Map Text V
  pub oauth_states : Map Text V

abbrev is_before : Option ℕ → ℕ → Bool
is_before none now = false
is_before (some at_time) now = ltb at_time now

-- `now` is `Math.floor(Date.now() / 1000)`.
module _ {V : Type 0} (fields : Fields V) where
  abbrev pub is_expired : ℕ → V → Bool
  is_expired now value = is_before (fields.expires_at value) now

  unfoldable pub sweep_expired : ℕ → Map Text V → Map Text V
  sweep_expired now entries = keep (λ (e : Text × V). not (is_expired now e.1)) entries

  -- `get`, and the table as `load` and `listAll` give it.
  unfoldable pub get_entry : ℕ → Text → Map Text V → Option V
  get_entry now k table = own_or (fields.inherits k) (get k (sweep_expired now table))

  unfoldable pub put_entry : ℕ → Text → V → Map Text V → Map Text V
  put_entry now k value table = set k value (sweep_expired now table)

  abbrev deleted : Option V → Text → Map Text V → Map Text V → Bool × Map Text V
  deleted none k entries table = (false, table)
  deleted (some value) k entries table = (true, remove k entries)

  -- `del`: whether `key in entries`. The file is written only then.
  unfoldable pub delete_entry : ℕ → Text → Map Text V → Bool × Map Text V
  delete_entry now k table =
      deleted (own_or (fields.inherits k) (get k (sweep_expired now table))) k
        (sweep_expired now table) table

  abbrev pub consumed : Option V → Text → Map Text V → Map Text V → Option V × Map Text V
  consumed none k entries table = (none, table)
  consumed (some value) k entries table = (some value, remove k entries)

  unfoldable pub consume_once : ℕ → Text → Map Text V → Option V × Map Text V
  consume_once now k table =
      consumed (own_or (fields.inherits k) (get k (sweep_expired now table))) k
        (sweep_expired now table) table

  -- `Number(client.client_id_issued_at) > Date.now() / 1000 - 3600`, for whole seconds.
  abbrev pub is_recent : ℕ → V → Bool
  is_recent now client = ltb now (fields.client_id_issued_at client + 3600)

  abbrev pub is_full : RegistrationLimits → ℕ → Map Text V → Bool
  is_full limits now clients =
      leb limits.maximum_clients (length clients)
      || leb limits.per_hour (length (keep (is_recent now) (values clients)))

  unfoldable pub register_client :
      ℕ → Text → V → RegistrationLimits → Map Text V → Bool × Map Text V
  register_client now k value limits table =
      let entries = sweep_expired now table in
      if is_full limits now entries then (false, table) else (true, set k value entries)

  -- `cleanupExpired`: the clients are not swept.
  unfoldable pub cleanup_expired : ℕ → Stores V → Stores V
  cleanup_expired now stores = record stores {
    auth_codes = sweep_expired now stores.auth_codes;
    refresh_tokens = sweep_expired now stores.refresh_tokens;
    oauth_states = sweep_expired now stores.oauth_states;
  }
