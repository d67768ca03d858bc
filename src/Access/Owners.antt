-- ===== src/Access/Owners.antt =====
-- `applyMutation` of src/services/access-grants.ts and the roster of active owners.
use brain_mcp_server.Prelude.{
  refl, ◌≡◌, ◌+◌, ℕ, Bool, true, false, Option, none, some, List, [], ◌∷◌, Text, text_eq,
  text_beq_iff, arith, Bool-cases, inl, inr, sym, ap, ◌∙◌, text_beq, ◌&&◌, ◌≤◌, find_sound, leb,
  contains,
}
use brain_mcp_server.Policy.{Runtime}
use brain_mcp_server.Access.{
  RoleRow, AccessGrantMutation, identity_of, identity_eq, identity_beq_iff, normalized_tenant,
  Database,
}
use brain_mcp_server.Access.Mutations.{
  in_roster, is_grant, count_active_owners, find_grant, upsert_role, role_row, demotes,
  apply_mutation, min_active_owners,
}

abbrev one_if : Bool → ℕ
one_if true = 1
one_if false = 0

count_active_owners-cons :
    (brain_id provider tenant : Text) (row : RoleRow) (rows : List RoleRow)
    → count_active_owners brain_id provider tenant (row ∷ rows)
      ≡ one_if (in_roster brain_id provider tenant row)
        + count_active_owners brain_id provider tenant rows
unfolding count_active_owners
count_active_owners-cons brain_id provider tenant row rows =
    elim (Bool-cases (in_roster brain_id provider tenant row)) [
      | inl e ↦ rw e (omega arith)
      | inr e ↦ rw e (omega arith)
    ]

module _ (rt : Runtime) (input : AccessGrantMutation) (brain_id provider tenant : Text) where
  abbrev weight : Option RoleRow → ℕ
  weight none = 0
  weight (some row) = one_if (in_roster brain_id provider tenant row)

  -- A write of a grant takes the old one out of the roster and puts the new one in.
  count_active_owners-upsert_role :
      (rows : List RoleRow)
      → count_active_owners brain_id provider tenant (upsert_role rt input rows)
          + weight (find_grant input.brain_id (identity_of rt input.target) rows)
        ≡ count_active_owners brain_id provider tenant rows
          + one_if (in_roster brain_id provider tenant (role_row rt input 1))
  unfolding upsert_role find_grant
  count_active_owners-upsert_role [] =
      omega (arith, count_active_owners-cons brain_id provider tenant (role_row rt input 1) [])
  count_active_owners-upsert_role (r ∷ rows) =
      let new = role_row rt input (r.version + 1) in
      let written = count_active_owners-cons brain_id provider tenant new rows in
      let before = count_active_owners-cons brain_id provider tenant r rows in
      let i = count_active_owners-upsert_role rows in
      let kept = count_active_owners-cons brain_id provider tenant r (upsert_role rt input rows) in
      elim (Bool-cases (is_grant input.brain_id (identity_of rt input.target) r)) [
        | inl hit ↦ rw hit (omega (arith, written, before))
        | inr miss ↦ rw miss (omega (arith, kept, before, i))
      ]

  -- Whoever is taken out of the roster was demoted, and counted in the roster of the target's tenant.
  demoted :
      (old : RoleRow)
      → is_grant input.brain_id (identity_of rt input.target) old ≡ true
      → in_roster brain_id provider tenant old ≡ true
      → in_roster brain_id provider tenant (role_row rt input 1) ≡ false
      → (demotes input (some old) ≡ true)
        × (input.brain_id ≡ brain_id)
        × (input.target.provider ≡ provider)
        × (normalized_tenant rt input.target ≡ tenant)
  demoted old g i n =
      let b : old.brain_id ≡ input.brain_id =
        ground (arith, text_eq.beq_iff old.brain_id input.brain_id) in
      let q : old.principal ≡ identity_of rt input.target =
        (identity_beq_iff old.principal (identity_of rt input.target)).0 (ground arith) in
      let c : old.brain_id ≡ brain_id = ground (arith, text_eq.beq_iff old.brain_id brain_id) in
      let d : old.principal.provider ≡ provider =
        ground (arith, text_eq.beq_iff old.principal.provider provider) in
      let e : old.principal.tenant ≡ tenant =
        ground (arith, text_eq.beq_iff old.principal.tenant tenant) in
      let b' : input.brain_id ≡ brain_id = cc in
      let p' : input.target.provider ≡ provider = sym (ap (λ x. x.provider) q) ∙ d in
      let t' : normalized_tenant rt input.target ≡ tenant = sym (ap (λ x. x.tenant) q) ∙ e in
      let bb : text_beq input.brain_id brain_id ≡ true = (text_beq_iff _ _).1 b' in
      let pb : text_beq input.target.provider provider ≡ true = (text_beq_iff _ _).1 p' in
      let tb : text_beq (normalized_tenant rt input.target) tenant ≡ true =
        (text_beq_iff _ _).1 t' in
      (ground arith, b', p', t')

  -- The guard of `applyMutation`.
  abbrev is_guarded : Option RoleRow → List RoleRow → Bool
  is_guarded old rows =
      demotes input old
      && leb
          (count_active_owners input.brain_id input.target.provider
            (normalized_tenant rt input.target) rows)
          min_active_owners

  kept_two :
      (rows : List RoleRow) (old : Option RoleRow)
      → find_grant input.brain_id (identity_of rt input.target) rows ≡ old
      → is_guarded old rows ≡ false
      → 2 ≤ count_active_owners brain_id provider tenant rows
      → 2 ≤ count_active_owners brain_id provider tenant (upsert_role rt input rows)
  kept_two rows none found guard h =
      let balance = count_active_owners-upsert_role rows in
      let nothing : weight (find_grant input.brain_id (identity_of rt input.target) rows) ≡ 0 =
        rw found refl in
      omega (arith, balance, nothing, h)
  kept_two rows (some old) found guard h =
      let balance = count_active_owners-upsert_role rows in
      let hit : is_grant input.brain_id (identity_of rt input.target) old ≡ true =
        find_sound (is_grant input.brain_id (identity_of rt input.target)) rows old
          (unfold find_grant in found) in
      let w : weight (find_grant input.brain_id (identity_of rt input.target) rows)
          ≡ one_if (in_roster brain_id provider tenant old) =
        rw found refl in
      elim (Bool-cases (in_roster brain_id provider tenant old)) [
        | inr out ↦
            let z : one_if (in_roster brain_id provider tenant old) ≡ 0 = rw out refl in
            omega (arith, balance, w, z, h)
        | inl member_now ↦
            elim (Bool-cases (in_roster brain_id provider tenant (role_row rt input 1))) [
              | inl stays ↦
                  let z : one_if (in_roster brain_id provider tenant (role_row rt input 1)) ≡ 1 =
                    rw stays refl in
                  let y : one_if (in_roster brain_id provider tenant old) ≡ 1 =
                    rw member_now refl in
                  omega (arith, balance, w, y, z, h)
              | inr leaves ↦
                  let (d, b, p, t) = demoted old hit member_now leaves in
                  let y : one_if (in_roster brain_id provider tenant old) ≡ 1 =
                    rw member_now refl in
                  let more : leb
                        (count_active_owners input.brain_id input.target.provider
                          (normalized_tenant rt input.target) rows)
                        2
                      ≡ false =
                    ground arith in
                  let more' : leb (count_active_owners brain_id provider tenant rows) 2 ≡ false =
                    rw (t, p, b) at more in
                  ground (arith, balance, w, y, more', h)
            ]
      ]

  -- No mutation of a grant takes a roster of at least two active owners below two.
  pub apply_mutation-owners :
      (db : Database)
      → 2 ≤ count_active_owners brain_id provider tenant db.roles
      → 2 ≤ count_active_owners brain_id provider tenant (apply_mutation rt input db).1.roles
  unfolding apply_mutation
  apply_mutation-owners db h =
      let old = find_grant input.brain_id (identity_of rt input.target) db.roles in
      elim (Bool-cases (contains input.brain_id db.brains)) [
        | inr unknown ↦ rw unknown h
        | inl known ↦ elim (Bool-cases (is_guarded old db.roles)) [
          | inl guard ↦ rw known (rw guard h)
          | inr free ↦ rw known (rw free (kept_two db.roles old refl free h))
        ]
      ]
