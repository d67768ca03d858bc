-- ===== src/Oauth/Token/Retired.antt =====
-- The entry of a rotated refresh token in the tables of src/oauth/token.ts.
use brain_mcp_server.Prelude.{
  ◌∙◌, ℕ, ◌≤◌, ◌≡◌, sym, ◌≢◌, inl, inr, true, Option, none, some, [], ◌∷◌, Text, text_eq, ◌==◌,
  arith, Bool-cases, text_beq_iff, All, All-keep_of,
}
use brain_mcp_server.Prelude.Maps.{Map, get, remove, All-set, All-get}
use brain_mcp_server.Oauth.{sweep_expired, get_entry, put_entry, consumed, consume_once}
use brain_mcp_server.Oauth.Grants.{RefreshRecord}
use brain_mcp_server.Oauth.Clients.{refresh_fields}
use brain_mcp_server.Oauth.Token.Checks.{consume_once-get_entry}

abbrev pub Tokens : Type 0
Tokens = Map Text RefreshRecord

-- An entry of a rotated token is in its grace, which ends at `bound` at the latest.
abbrev pub EndsBy : Text → ℕ → Text × RefreshRecord → Type 0
EndsBy hash bound e = e.0 ≡ hash → (e.1.refresh_reuse_grace ≡ true) × (e.1.expires_at ≤ bound)

abbrev pub Retires : Text → ℕ → Tokens → Type 0
Retires hash bound table = All (EndsBy hash bound) table

pub All-remove {μ} :
    {V : Type 0} (P : Text × V → Type μ) (k : Text) (m : Map Text V) → All P m → All P (remove k m)
unfolding remove
All-remove P k [] h = tt
All-remove P k ((j, w) ∷ m) (h, hs) = elim (Bool-cases (j == k)) [
  | inl e ↦ rw e (All-remove P k m hs)
  | inr e ↦ rw e (h, All-remove P k m hs)
]

pub All-remove_self : {V : Type 0} (k : Text) (m : Map Text V) → All (λ e. e.0 ≢ k) (remove k m)
unfolding remove
All-remove_self k [] = tt
All-remove_self k ((j, w) ∷ m) = elim (Bool-cases (j == k)) [
  | inl e ↦ rw e (All-remove_self k m)
  | inr e ↦ rw e (ground (arith, e, text_beq_iff j k), All-remove_self k m)
]

module _ (hash : Text) (bound : ℕ) where
  pub sweep-Retires :
      (now : ℕ) (table : Tokens)
      → Retires hash bound table
      → Retires hash bound (sweep_expired refresh_fields now table)
  unfolding sweep_expired
  sweep-Retires now table h = All-keep_of (EndsBy hash bound) _ table h

  pub put-Retires :
      (now : ℕ) (k : Text) (r : RefreshRecord) (table : Tokens)
      → EndsBy hash bound (k, r)
      → Retires hash bound table
      → Retires hash bound (put_entry refresh_fields now k r table)
  unfolding put_entry
  put-Retires now k r table e h = All-set (EndsBy hash bound) k r _ e (sweep-Retires now table h)

  pub consume-Retires :
      (now : ℕ) (k : Text) (table : Tokens)
      → Retires hash bound table
      → Retires hash bound (consume_once refresh_fields now k table).1
  unfolding consume_once
  consume-Retires now k table h = of (get k (sweep_expired refresh_fields now table))
    where
      of :
          (o : Option RefreshRecord)
          → Retires hash bound
              (consumed refresh_fields o k (sweep_expired refresh_fields now table) table).1
      of none = h
      of (some r) = All-remove (EndsBy hash bound) k _ (sweep-Retires now table h)

  -- The token that is consumed is one of the table.
  pub consumed-EndsBy :
      (now : ℕ) (k : Text) (table : Tokens) (r : RefreshRecord)
      → Retires hash bound table
      → (consume_once refresh_fields now k table).0 ≡ some r
      → EndsBy hash bound (k, r)
  consumed-EndsBy now k table r h e =
      let found : get k (sweep_expired refresh_fields now table) ≡ some r =
        unfold get_entry in (sym (consume_once-get_entry refresh_fields now k table) ∙ e) in
      All-get (EndsBy hash bound) k r (sweep_expired refresh_fields now table)
        (sweep-Retires now table h) found
