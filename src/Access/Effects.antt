-- ===== src/Access/Effects.antt =====
-- What `applyMutation` of src/services/access-grants.ts writes: the grant, and its trace in the audit.
use brain_mcp_server.Prelude.{
  ap₂, ◌∙◌, ◌&&◌, ◌≡◌, refl, ◌+◌, ℕ, Bool, true, false, Option, some, List, [], ◌∷◌, ◌++◌, Text,
  text_eq, ◌==◌, arith, if◌then◌else◌,
}
use brain_mcp_server.Prelude.Maps.{beq_refl}
use brain_mcp_server.Policy.{unknown_brain, owner_roster_too_small, Runtime, Result, ok, err}
use brain_mcp_server.Access.{
  Identity, RoleRow, Database, AccessGrantMutation, AccessGrant, identity_of, identity_eq,
}
use brain_mcp_server.Access.Mutations.{
  is_grant, find_grant, upsert_role, role_row, version_after, apply_mutation, audit_event, grant_of,
  written,
}

module _ (rt : Runtime) (input : AccessGrantMutation) where
  abbrev target : Identity
  target = identity_of rt input.target

  is_grant-role_row : (n : ℕ) → is_grant input.brain_id target (role_row rt input n) ≡ true
  is_grant-role_row n = rw (beq_refl input.brain_id, beq_refl target) refl

  find_grant-upsert_role :
      (rows : List RoleRow)
      → find_grant input.brain_id target (upsert_role rt input rows)
        ≡ some (role_row rt input (version_after (find_grant input.brain_id target rows)))
  unfolding find_grant upsert_role
  find_grant-upsert_role [] = rw (is_grant-role_row 1) refl
  find_grant-upsert_role (r ∷ rows) =
      of (is_grant input.brain_id target r) refl (find_grant-upsert_role rows)
    where
      of :
          (hit : Bool)
          → is_grant input.brain_id target r ≡ hit
          → find_grant input.brain_id target (upsert_role rt input rows)
            ≡ some (role_row rt input (version_after (find_grant input.brain_id target rows)))
          → find_grant input.brain_id target (
              if hit
              then role_row rt input (r.version + 1) ∷ rows
              else r ∷ upsert_role rt input rows)
            ≡ some (
                role_row rt input
                  (version_after (if hit then some r else find_grant input.brain_id target rows)))
      of true e i = rw (is_grant-role_row (r.version + 1)) refl
      of false e i = ground (arith, i)

  find_grant-upsert_role_ne :
      (brain_id : Text) (principal : Identity) (rows : List RoleRow)
      → is_grant brain_id principal (role_row rt input 1) ≡ false
      → find_grant brain_id principal (upsert_role rt input rows)
        ≡ find_grant brain_id principal rows
  unfolding find_grant upsert_role
  find_grant-upsert_role_ne brain_id principal [] o = rw o refl
  find_grant-upsert_role_ne brain_id principal (r ∷ rows) o =
      of (is_grant input.brain_id target r) refl
        (find_grant-upsert_role_ne brain_id principal rows o)
    where
      of :
          (hit : Bool)
          → is_grant input.brain_id target r ≡ hit
          → find_grant brain_id principal (upsert_role rt input rows)
            ≡ find_grant brain_id principal rows
          → find_grant brain_id principal (
              if hit
              then role_row rt input (r.version + 1) ∷ rows
              else r ∷ upsert_role rt input rows)
            ≡ find_grant brain_id principal (r ∷ rows)
      of true e ih =
          let b : r.brain_id ≡ input.brain_id = (text_eq.beq_iff _ _).0 (ground arith) in
          let i : r.principal ≡ target = (identity_eq.beq_iff _ _).0 (ground arith) in
          let other : is_grant brain_id principal r ≡ false =
            ap₂ (λ x y. x == brain_id && y == principal) b i ∙ o in
          ground (arith, other, o)
      of false e i = ground (arith, i)

  -- What a mutation leaves: its own grant in the place of the old one, the others, and one event more.
  pub record IsApplied (before : Database) (g : AccessGrant) (after : Database) : Type 0 where
    pub granted : find_grant input.brain_id target after.roles ≡ some (role_row rt input g.version)
    pub version : g.version ≡ version_after (find_grant input.brain_id target before.roles)
    pub others :
        (brain_id : Text) (principal : Identity)
        → is_grant brain_id principal (role_row rt input 1) ≡ false
        → find_grant brain_id principal after.roles ≡ find_grant brain_id principal before.roles
    pub audited :
        after.events
        ≡ before.events ++ audit_event rt input (find_grant input.brain_id target before.roles) ∷ []

  abbrev pub Applied : Database → Result AccessGrant × Database → Type 0
  Applied before (ok g, after) = IsApplied before g after
  Applied before (err e, after) = after ≡ before

  -- A mutation either fails and changes nothing, or stores exactly its grant with the next version,
  -- leaves every other grant alone and records one event.
  pub apply_mutation-Applied : (db : Database) → Applied db (apply_mutation rt input db)
  unfolding apply_mutation
  apply_mutation-Applied db = of _ _
    where
      old : Option RoleRow
      old = find_grant input.brain_id target db.roles

      of :
          (unknown small : Bool)
          → Applied db (
              if unknown
              then (err (unknown_brain input.brain_id), db)
              else if small
              then (err owner_roster_too_small, db)
              else (ok (grant_of input (version_after old)), written rt input old db))
      of true small = refl
      of false true = refl
      of false false = record {
        granted = find_grant-upsert_role db.roles;
        version = refl;
        others = λ b i o. find_grant-upsert_role_ne b i db.roles o;
        audited = refl;
      }
