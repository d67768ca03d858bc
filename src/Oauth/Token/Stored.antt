-- ===== src/Oauth/Token/Stored.antt =====
-- The refresh token that src/oauth/token.ts issues is in the table.
use brain_mcp_server.Prelude.{
  ltb, ℕ, ◌+◌, ◌≡◌, refl, ◌≢◌, inl, inr, true, ◌||◌, ◌&&◌, Option, none, some, Text, codes, text_eq,
  ◌==◌, is_empty, arith, Bool-cases, text_beq_iff,
}
use brain_mcp_server.Prelude.Maps.{Map, get, set, get-set, get-set_self}
use brain_mcp_server.Oauth.{sweep_expired, put_entry}
use brain_mcp_server.Oauth.Grants.{AuthCode, RefreshRecord, Client, OauthConfig, Library}
use brain_mcp_server.Oauth.Clients.{
  TokenState, refresh_fields, TokenAnswer, refused, issued, Request, field, submitted_hash,
  authenticated,
}
use brain_mcp_server.Oauth.Token.{
  code_refusal, code_checked, code_consumed, authorization_code_grant, refresh_refusal,
  refresh_checked, refresh_consumed, refresh_token_grant, dispatched, rotated, grace_expires_at,
  grace_record, next_record, first_record,
}
use brain_mcp_server.Oauth.Token.Checks.{refresh_refusal-none, refusal-code, refusal-refresh}
use brain_mcp_server.Oauth.Token.Spent.{is_issued}
use brain_mcp_server.Oauth.Token.Retired.{Tokens}
use brain_mcp_server.Oauth.Token.Rotation.{get-sweep_alive}
use brain_mcp_server.Access.{BrainRole, BrainPrincipal}

module _ (library : Library) (config : OauthConfig)
    (roles_for : BrainPrincipal → Map Text BrainRole) (brain_id : Text) where
  -- The table holds a token of the client, until the lifetime of refresh tokens is over.
  pub record IsHeld (now : ℕ) (hash : Text) (client : Client) (table : Tokens) (r : RefreshRecord)
      : Type 0 where
    pub held : get hash table ≡ some r
    pub lives : r.expires_at ≡ now + config.refresh_token_ttl_sec
    pub owner : r.grant.client_id ≡ client.client_id

  rotated-IsHeld :
      (now : ℕ) (hash new_hash : Text) (client : Client) (r : RefreshRecord) (table : Tokens)
      → new_hash ≢ hash
      → r.grant.client_id ≡ client.client_id
      → IsHeld now new_hash client
          (rotated library config roles_for brain_id now hash new_hash r table)
          (next_record library config roles_for brain_id now hash r)
  unfolding rotated put_entry next_record
  rotated-IsHeld now hash new_hash client r table n e =
      elim (Bool-cases (
        ltb 0 config.refresh_token_reuse_grace_sec
        && ltb now (grace_expires_at library config roles_for brain_id now r))) [
          | inl lasts ↦ rw lasts (record { held = kept; lives = refl; owner = e })
          | inr ends ↦ rw ends (record {
            held = get-set_self new_hash _ (sweep_expired refresh_fields now table);
            lives = refl;
            owner = e;
          })
        ]
    where
      next : RefreshRecord
      next = next_record library config roles_for brain_id now hash r

      first_put : Tokens
      first_put = set new_hash next (sweep_expired refresh_fields now table)

      alive : get new_hash (sweep_expired refresh_fields now first_put) ≡ some next
      alive =
          get-sweep_alive now new_hash first_put next
            (get-set_self new_hash next (sweep_expired refresh_fields now table)) (omega arith)

      kept :
          get new_hash (
            set hash
              (grace_record library config roles_for brain_id now new_hash r)
              (sweep_expired refresh_fields now first_put))
          ≡ some next
      kept = ground (
        arith,
        alive,
        n,
        text_beq_iff hash new_hash,
        get-set hash new_hash (grace_record library config roles_for brain_id now new_hash r)
            (sweep_expired refresh_fields now first_put),
      )

  abbrev pub Holds : Request → Client → TokenAnswer × TokenState → Type 0
  Holds request client p =
      (r : RefreshRecord) × IsHeld request.now (library.sha256_hex request.new_token) client
        p.1.refresh_tokens r

  module _ (request : Request) (client : Client) (s : TokenState) where
    code_checked-Holds :
        (code : AuthCode) (t : TokenState) (refusal : Option TokenAnswer)
        → code_refusal library config roles_for brain_id request client code ≡ refusal
        → is_issued (code_checked library config roles_for brain_id request client code t refusal).0
          ≡ true
        → Holds request client
            (code_checked library config roles_for brain_id request client code t refusal)
    unfolding put_entry first_record
    code_checked-Holds code t none e i = (
      _,
      record {
        held =
            get-set_self (library.sha256_hex request.new_token) _
              (sweep_expired refresh_fields request.now t.refresh_tokens);
        lives = refl;
        owner = refl;
      },
    )
    code_checked-Holds code t (some (refused status error)) e i = cc
    code_checked-Holds code t (some (issued response)) e i =
        absurd
          (refusal-code library config roles_for brain_id request client code _ response e refl)

    refresh_checked-Holds :
        (r : RefreshRecord) (t : TokenState) (refusal : Option TokenAnswer)
        → library.sha256_hex request.new_token ≢ submitted_hash library request
        → refresh_refusal library config roles_for brain_id request client r ≡ refusal
        → is_issued
            (refresh_checked library config roles_for brain_id request client
              (submitted_hash library request)
              r
              t
              refusal).0
          ≡ true
        → Holds request client (
            refresh_checked library config roles_for brain_id request client
              (submitted_hash library request)
              r
              t
              refusal)
    refresh_checked-Holds r t none n e i = (
      _,
      rotated-IsHeld request.now (submitted_hash library request)
          (library.sha256_hex request.new_token) client r t.refresh_tokens n
          (refresh_refusal-none library config roles_for brain_id request client r e).0,
    )
    refresh_checked-Holds r t (some (refused status error)) n e i = cc
    refresh_checked-Holds r t (some (issued response)) n e i =
        absurd
          (refusal-refresh library config roles_for brain_id request client r _ response e refl)

    code_consumed-Holds :
        (c : Option AuthCode × Map Text AuthCode)
        → is_issued (code_consumed library config roles_for brain_id request client s c).0 ≡ true
        → Holds request client (code_consumed library config roles_for brain_id request client s c)
    code_consumed-Holds (none, left) i = cc
    code_consumed-Holds (some code, left) i =
        code_checked-Holds code _
          (code_refusal library config roles_for brain_id request client code) refl i

    refresh_consumed-Holds :
        (c : Option RefreshRecord × Tokens)
        → library.sha256_hex request.new_token ≢ submitted_hash library request
        → is_issued
            (refresh_consumed library config roles_for brain_id request client
              (submitted_hash library request)
              s
              c).0
          ≡ true
        → Holds request client (
            refresh_consumed library config roles_for brain_id request client
              (submitted_hash library request)
              s
              c)
    refresh_consumed-Holds (none, left) n i = cc
    refresh_consumed-Holds (some r, left) n i =
        refresh_checked-Holds r _
          (refresh_refusal library config roles_for brain_id request client r) n refl i

    pub granted-Holds :
        library.sha256_hex request.new_token ≢ submitted_hash library request
        → is_issued
            (dispatched library config roles_for brain_id request s (authenticated client)).0
          ≡ true
        → Holds request client
            (dispatched library config roles_for brain_id request s (authenticated client))
    unfolding authorization_code_grant refresh_token_grant
    granted-Holds n i =
        elim (Bool-cases (field request (codes "grant_type") == codes "authorization_code")) [
          | inl k ↦
              rw k
                (elim (Bool-cases (
                  is_empty (field request (codes "code"))
                  || is_empty (field request (codes "redirect_uri"))
                  || is_empty (field request (codes "code_verifier")))) [
                    | inl e ↦ ground (arith, rw (k, e) at i)
                    | inr e ↦ rw e (code_consumed-Holds _ (rw (k, e) at i))
                  ])
          | inr k ↦
              rw k
                (elim (Bool-cases (field request (codes "grant_type") == codes "refresh_token")) [
                  | inl t ↦
                      rw t (elim (Bool-cases (is_empty (field request (codes "refresh_token")))) [
                        | inl e ↦ ground (arith, rw (k, t, e) at i)
                        | inr e ↦ rw e (refresh_consumed-Holds _ n (rw (k, t, e) at i))
                      ])
                  | inr t ↦ ground (arith, rw (k, t) at i)
                ])
        ]
