-- ===== src/Oauth/Token/Rotation.antt =====
-- What the rotation of refresh tokens in src/oauth/token.ts promises: the old token dies with its grace, and the
-- new one is accepted.
use brain_mcp_server.Prelude.{
  text_beq, ℕ, ◌+◌, ◌≤◌, ◌<◌, ◌≡◌, refl, ◌∙◌, ◌≢◌, inl, inr, true, false, Option, none, some, List,
  [], ◌∷◌, Text, codes, text_eq, is_empty, arith, Bool-cases, All, All-impl,
}
use brain_mcp_server.Prelude.Maps.{Map, get}
use brain_mcp_server.Oauth.{sweep_expired, get_entry, consumed, consume_once}
use brain_mcp_server.Oauth.Grants.{RefreshRecord, Client, OauthConfig, Library}
use brain_mcp_server.Oauth.Clients.{
  TokenState, refresh_fields, TokenAnswer, refused, issued, Request, field, submitted_hash,
  Authentication, authenticated, rejected, authenticate_client,
}
use brain_mcp_server.Oauth.Token.{
  refresh_refusal, refresh_checked, refresh_consumed, refresh_token_grant, dispatched, handle_token,
  grace_expires_at,
}
use brain_mcp_server.Oauth.Token.Checks.{consume_once-get_entry, rejected-refuses}
use brain_mcp_server.Oauth.Token.Spent.{is_issued}
use brain_mcp_server.Oauth.Token.Retired.{Tokens, Retires, All-remove_self}
use brain_mcp_server.Oauth.Token.Grace.{rotated-Retires, run, IsFresh, run-Retires, expired-refused}
use brain_mcp_server.Access.{BrainRole, BrainPrincipal}

consume-Cleared :
    (now : ℕ) (k : Text) (table : Tokens) (r : RefreshRecord)
    → (consume_once refresh_fields now k table).0 ≡ some r
    → All (λ e. e.0 ≢ k) (consume_once refresh_fields now k table).1
unfolding consume_once
consume-Cleared now k table r = of (get k (sweep_expired refresh_fields now table))
  where
    of :
        (o : Option RefreshRecord)
        → (consumed refresh_fields o k (sweep_expired refresh_fields now table) table).0 ≡ some r
        → All
            (λ e. e.0 ≢ k)
            (consumed refresh_fields o k (sweep_expired refresh_fields now table) table).1
    of none e = cc
    of (some v) e = All-remove_self k (sweep_expired refresh_fields now table)

-- An entry that has not expired is read.
pub get-sweep_alive :
    (now : ℕ) (k : Text) (table : Tokens) (r : RefreshRecord)
    → get k table ≡ some r
    → now ≤ r.expires_at
    → get k (sweep_expired refresh_fields now table) ≡ some r
unfolding get sweep_expired
get-sweep_alive now k [] r h alive = cc
get-sweep_alive now k ((j, v) ∷ table) r h alive = ground (arith, get-sweep_alive now k table r)

module _ (library : Library) (config : OauthConfig)
    (roles_for : BrainPrincipal → Map Text BrainRole) (brain_id : Text) where
  abbrev handled : Request → TokenState → TokenAnswer × TokenState
  handled = handle_token library config roles_for brain_id

  grace-le :
      (now : ℕ) (r : RefreshRecord)
      → r.refresh_reuse_grace ≡ false
      → grace_expires_at library config roles_for brain_id now r
        ≤ now + config.refresh_token_reuse_grace_sec
  unfolding grace_expires_at
  grace-le now r g = ground (arith, g)

  -- The step from an answer of a request for a refresh token to the call of the grant.
  refresh_handled {ℓ} :
      (P : TokenAnswer × TokenState → Type ℓ) (request : Request) (s : TokenState)
      → field request (codes "grant_type") ≡ codes "refresh_token"
      → is_issued (handled request s).0 ≡ true
      → ((client : Client)
          → authenticate_client library request s ≡ authenticated client
          → is_issued (refresh_token_grant library config roles_for brain_id request client s).0
            ≡ true
          → P (refresh_token_grant library config roles_for brain_id request client s))
      → P (handled request s)
  unfolding handle_token text_beq
  refresh_handled P request s kind i f = of (authenticate_client library request s) refl i
    where
      of :
          (a : Authentication)
          → authenticate_client library request s ≡ a
          → is_issued (dispatched library config roles_for brain_id request s a).0 ≡ true
          → P (dispatched library config roles_for brain_id request s a)
      of (rejected (refused status code)) e i = cc
      of (rejected (issued response)) e i =
          absurd (rejected-refuses library request s _ response e refl)
      of (authenticated client) e i = rw kind (f client e (rw kind at i))

  -- After a rotation outside a grace, the old token is in its grace.
  rotation-Retires :
      (first : Request) (s : TokenState) (r : RefreshRecord)
      → field first (codes "grant_type") ≡ codes "refresh_token"
      → get_entry refresh_fields first.now (submitted_hash library first) s.refresh_tokens ≡ some r
      → r.refresh_reuse_grace ≡ false
      → IsFresh library config roles_for brain_id (submitted_hash library first) first
      → is_issued (handled first s).0 ≡ true
      → Retires
          (submitted_hash library first)
          (first.now + config.refresh_token_reuse_grace_sec)
          (handled first s).1.refresh_tokens
  unfolding refresh_token_grant
  rotation-Retires first s r kind stored g fresh i =
      refresh_handled
        (λ (p : TokenAnswer × TokenState).
          Retires (submitted_hash library first) (first.now + config.refresh_token_reuse_grace_sec)
            p.1.refresh_tokens)
        first s kind i granted
    where
      checked :
          (client : Client) (v : RefreshRecord) (left : Tokens) (refusal : Option TokenAnswer)
          → v.refresh_reuse_grace ≡ false
          → Retires
              (submitted_hash library first)
              (first.now + config.refresh_token_reuse_grace_sec)
              left
          → Retires
              (submitted_hash library first)
              (first.now + config.refresh_token_reuse_grace_sec)
              (refresh_checked library config roles_for brain_id first client
                (submitted_hash library first)
                v
                (record s { refresh_tokens = left })
                refusal).1.refresh_tokens
      checked client v left none f l =
          rotated-Retires library config roles_for brain_id (submitted_hash library first)
            (first.now + config.refresh_token_reuse_grace_sec) first.now
            (submitted_hash library first) _ v left fresh (λ same. grace-le first.now v f) l
      checked client v left (some a) f l = l

      of :
          (client : Client) (c : Option RefreshRecord × Tokens)
          → c.0 ≡ some r
          → All (λ e. e.0 ≢ submitted_hash library first) c.1
          → Retires
              (submitted_hash library first)
              (first.now + config.refresh_token_reuse_grace_sec)
              (refresh_consumed library config roles_for brain_id first client
                (submitted_hash library first)
                s
                c).1.refresh_tokens
      of client (none, left) e l = cc
      of client (some v, left) e l =
          checked client v left (refresh_refusal library config roles_for brain_id first client v)
            (ground (arith, e, g))
            (All-impl {P = λ (e : Text × RefreshRecord). e.0 ≢ submitted_hash library first}
              (λ (p : Text × RefreshRecord) n same. absurd (n same)) left l)

      granted :
          (client : Client)
          → authenticate_client library first s ≡ authenticated client
          → is_issued (refresh_token_grant library config roles_for brain_id first client s).0
            ≡ true
          → Retires
              (submitted_hash library first)
              (first.now + config.refresh_token_reuse_grace_sec)
              (refresh_token_grant library config roles_for brain_id first client
                s).1.refresh_tokens
      granted client known j = elim (Bool-cases (is_empty (field first (codes "refresh_token")))) [
        | inl e ↦ ground (arith, j, e)
        | inr e ↦
            let found : (consume_once refresh_fields first.now (submitted_hash library first)
                  s.refresh_tokens).0
                ≡ some r =
              consume_once-get_entry refresh_fields first.now (submitted_hash library first)
                s.refresh_tokens
              ∙ stored in
            rw e (
              of client
                (consume_once refresh_fields first.now (submitted_hash library first)
                  s.refresh_tokens)
                found
                (consume-Cleared first.now (submitted_hash library first) s.refresh_tokens r found))
      ]

  -- A refresh token that a request has rotated outside a grace is refused once the grace is over, whatever
  -- requests came between, where no new token has the hash of the old one.
  pub rotated-refused :
      (first : Request) (later : List Request) (last : Request) (s : TokenState) (r : RefreshRecord)
      → field first (codes "grant_type") ≡ codes "refresh_token"
      → get_entry refresh_fields first.now (submitted_hash library first) s.refresh_tokens ≡ some r
      → r.refresh_reuse_grace ≡ false
      → is_issued (handled first s).0 ≡ true
      → All
          (IsFresh library config roles_for brain_id (submitted_hash library first))
          (first ∷ later)
      → field last (codes "grant_type") ≡ codes "refresh_token"
      → submitted_hash library last ≡ submitted_hash library first
      → first.now + config.refresh_token_reuse_grace_sec < last.now
      → is_issued (handled last (run library config roles_for brain_id later (handled first s).1)).0
        ≡ false
  rotated-refused first later last s r kind stored g i (fresh, rest) last_kind same over =
      expired-refused library config roles_for brain_id
        (first.now + config.refresh_token_reuse_grace_sec) last _ last_kind over
        (rw same (
          run-Retires library config roles_for brain_id (submitted_hash library first) _ later _
            rest (rotation-Retires first s r kind stored g fresh i)))
