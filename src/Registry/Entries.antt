-- ===== src/Registry/Entries.antt =====
-- The accessible Brains that src/services/registry.ts lists, and the choice among them.
use brain_mcp_server.Prelude.{
  ℕ, ◌≡◌, ◌⊎◌, refl, ap, subst, inl, inr, true, false, Option, none, some, List, [], ◌∷◌, ◌∙◌, Text,
  arith, text_eq, text_beq, text_beq_iff, contains, is_empty, or_empty, All, All-impl, Bool-cases,
  some_inj,
}
use mathlib.Core.List.{Memᴰ}
use brain_mcp_server.Prelude.Maps.{Map}
use brain_mcp_server.Registry.{JsValue, BrainDefinition, property_of, ids_of}
use brain_mcp_server.Registry.Access.{
  is_truthy_value, AccessibleBrain, entry_of, brains_with_role, find_brain, only_entry,
}
use brain_mcp_server.Registry.Sound.{HasDefault}
use brain_mcp_server.Registry.Roles.{Finds}

-- The entries of the accessible Brains.
abbrev pub IsEntry : Map Text JsValue → List BrainDefinition → AccessibleBrain → Type 0
IsEntry roles brains entry =
    (property_of roles entry.brain.id ≡ some entry.role) × Memᴰ entry.brain brains

pub brains_with_role-IsEntry :
    (roles : Map Text JsValue) (brains : List BrainDefinition)
    → All (IsEntry roles brains) (brains_with_role roles brains)
unfolding brains_with_role
brains_with_role-IsEntry roles [] = tt
brains_with_role-IsEntry roles (brain ∷ brains) = entry (property_of roles brain.id) refl (
    All-impl (λ e h. (h.0, Memᴰ.tail h.1)) (brains_with_role roles brains)
      (brains_with_role-IsEntry roles brains))
  where
    entry :
        (o : Option JsValue)
        → property_of roles brain.id ≡ o
        → All (IsEntry roles (brain ∷ brains)) (brains_with_role roles brains)
        → All (IsEntry roles (brain ∷ brains)) (entry_of brain o (brains_with_role roles brains))
    entry none e later = later
    entry (some role) e later = elim (Bool-cases (is_truthy_value role)) [
      | inl t ↦ rw t ((e, Memᴰ.head refl), later)
      | inr t ↦ rw t later
    ]

pub contains-Mem :
    (brain : BrainDefinition) (brains : List BrainDefinition)
    → Memᴰ brain brains
    → contains brain.id (ids_of brains) ≡ true
contains-Mem brain [] m = elim m [ ]
contains-Mem brain (b ∷ brains) (Memᴰ.head e) =
    ground (arith, text_beq_iff b.id brain.id, ap (λ (x : BrainDefinition). x.id) e)
contains-Mem brain (b ∷ brains) (Memᴰ.tail m) =
    let later = contains-Mem brain brains m in ground (arith, later)

-- A Brain with a truthy role has an entry.
pub find_brain-entry :
    (roles : Map Text JsValue) (id : Text) (brains : List BrainDefinition)
    → contains id (ids_of brains) ≡ true
    → Finds id roles
    → (entry : AccessibleBrain) × (find_brain id (brains_with_role roles brains) ≡ some entry)
unfolding brains_with_role
find_brain-entry roles id [] h f = cc
find_brain-entry roles id (brain ∷ brains) h f = elim (Bool-cases (text_beq brain.id id)) [
  | inl t ↦
      let same : brain.id ≡ id = (text_beq_iff brain.id id).0 t in
      (
        record { brain = brain; role = f.0 },
        rw (ap (property_of roles) same ∙ f.1) (rw f.2 (rw t refl)),
      )
  | inr t ↦
      let later = find_brain-entry roles id brains (rw t at h) f in
      (later.0, skip (property_of roles brain.id) t later.0 later.1)
]
  where
    skip :
        (o : Option JsValue)
        → text_beq brain.id id ≡ false
        → (e : AccessibleBrain) → find_brain id (brains_with_role roles brains) ≡ some e
        → find_brain id (entry_of brain o (brains_with_role roles brains)) ≡ some e
    skip none t e h = h
    skip (some role) t e h = elim (Bool-cases (is_truthy_value role)) [
      | inl u ↦ rw u (rw t h)
      | inr u ↦ rw u h
    ]

pub only_entry-single :
    (entries : List AccessibleBrain) (entry : AccessibleBrain)
    → only_entry entries ≡ some entry
    → entries ≡ entry ∷ []
only_entry-single [] entry h = cc
only_entry-single (e ∷ []) entry h = ap (λ x. x ∷ []) (some_inj h)
only_entry-single (e ∷ f ∷ es) entry h = cc

pub default-cases :
    (o : Option Text) → (or_empty o ≡ []) ⊎ ((c : ℕ) × (s : Text) × (o ≡ some (c ∷ s)))
default-cases none = inl refl
default-cases (some []) = inl refl
default-cases (some (c ∷ s)) = inr (c, s, refl)

pub known-default :
    (ids : List Text) (o : Option Text) (c : ℕ) (s : Text)
    → HasDefault ids o
    → o ≡ some (c ∷ s)
    → contains (c ∷ s) ids ≡ true
known-default ids none c s h e = cc
known-default ids (some t) c s (inl h) e =
    let same : t ≡ c ∷ s = some_inj e in
    let wrong : is_empty (c ∷ s) ≡ true = subst (λ (x : Text). is_empty x ≡ true) same h in cc
known-default ids (some t) c s (inr h) e =
    subst (λ (x : Text). contains x ids ≡ true) (some_inj e) h
