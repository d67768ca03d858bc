-- ===== src/Oauth/Token/Kept.antt =====
-- A stored refresh token stays in the tables of src/oauth/token.ts while it is not submitted.
use brain_mcp_server.Prelude.{
  ltb, ℕ, ◌≤◌, ◌≡◌, ◌≢◌, inl, inr, ◌||◌, ◌&&◌, Option, none, some, List, [], ◌∷◌, Text, codes,
  text_eq, is_empty, arith, Bool-cases, All, text_beq_iff,
}
use brain_mcp_server.Prelude.Maps.{Map, get-remove, get-set}
use brain_mcp_server.Oauth.{sweep_expired, put_entry, consume_once, consumed, get}
use brain_mcp_server.Oauth.Grants.{AuthCode, RefreshRecord, Client, OauthConfig, Library}
use brain_mcp_server.Oauth.Clients.{
  TokenState, code_fields, refresh_fields, TokenAnswer, Request, field, submitted_hash,
  Authentication, authenticated, rejected, authenticate_client,
}
use brain_mcp_server.Oauth.Token.{
  code_refusal, code_checked, code_consumed, authorization_code_grant, refresh_refusal,
  refresh_checked, refresh_consumed, refresh_token_grant, dispatched, handle_token, rotated,
  grace_expires_at, next_record,
}
use brain_mcp_server.Access.{BrainRole, BrainPrincipal}
use brain_mcp_server.Oauth.Token.Retired.{Tokens}
use brain_mcp_server.Oauth.Token.Rotation.{get-sweep_alive}
use brain_mcp_server.Oauth.Token.Grace.{run}

-- A request within the lifetime of a token that neither submits it nor draws one with the same hash.
pub record Spares (library : Library) (hash : Text) (bound : ℕ) (request : Request) : Type 0 where
  pub early : request.now ≤ bound
  pub other : submitted_hash library request ≢ hash
  pub fresh : library.sha256_hex request.new_token ≢ hash

module _ (hash : Text) (r : RefreshRecord) where
  abbrev Has : Tokens → Type 0
  Has table = get hash table ≡ some r

  put-Has :
      (now : ℕ) (k : Text) (v : RefreshRecord) (table : Tokens)
      → now ≤ r.expires_at
      → k ≢ hash
      → Has table
      → Has (put_entry refresh_fields now k v table)
  unfolding put_entry
  put-Has now k v table alive n h = ground (
    arith,
    n,
    text_beq_iff k hash,
    get-set k hash v (sweep_expired refresh_fields now table),
    get-sweep_alive now hash table r h alive,
  )

  consume-Has :
      (now : ℕ) (k : Text) (table : Tokens)
      → now ≤ r.expires_at
      → k ≢ hash
      → Has table
      → Has (consume_once refresh_fields now k table).1
  unfolding consume_once
  consume-Has now k table alive n h = of (get k (sweep_expired refresh_fields now table))
    where
      of :
          (o : Option RefreshRecord)
          → Has (consumed refresh_fields o k (sweep_expired refresh_fields now table) table).1
      of none = h
      of (some v) = ground (
        arith,
        n,
        text_beq_iff k hash,
        get-remove k hash (sweep_expired refresh_fields now table),
        get-sweep_alive now hash table r h alive,
      )

module _ (library : Library) (config : OauthConfig)
    (roles_for : BrainPrincipal → Map Text BrainRole) (brain_id : Text) where
  module _ (hash : Text) (bound : ℕ) (r : RefreshRecord) (lives : bound ≤ r.expires_at) where
    rotated-Has :
        (now : ℕ) (k new_hash : Text) (v : RefreshRecord) (table : Tokens)
        → now ≤ bound
        → k ≢ hash
        → new_hash ≢ hash
        → Has hash r table
        → Has hash r (rotated library config roles_for brain_id now k new_hash v table)
    unfolding rotated
    rotated-Has now k new_hash v table alive m n h =
        elim (Bool-cases (
          ltb 0 config.refresh_token_reuse_grace_sec
          && ltb now (grace_expires_at library config roles_for brain_id now v))) [
            | inl lasts ↦ rw lasts (put-Has hash r now k _ _ (omega (arith, alive, lives)) m next)
            | inr ends ↦ rw ends next
          ]
      where
        next : Has hash r (
            put_entry refresh_fields now new_hash
              (next_record library config roles_for brain_id now k v)
              table)
        next = put-Has hash r now new_hash _ table (omega (arith, alive, lives)) n h

    module _ (request : Request) (client : Client) (s : TokenState)
        (spares : Spares library hash bound request) (h : Has hash r s.refresh_tokens) where
      authorization_code_grant-Has :
          Has hash r
            (authorization_code_grant library config roles_for brain_id request client
              s).1.refresh_tokens
      unfolding authorization_code_grant
      authorization_code_grant-Has =
          elim (Bool-cases (
            is_empty (field request (codes "code"))
            || is_empty (field request (codes "redirect_uri"))
            || is_empty (field request (codes "code_verifier")))) [
              | inl e ↦ rw e h
              | inr e ↦ rw e (
                  of (
                    consume_once code_fields request.now (field request (codes "code"))
                      s.auth_codes))
            ]
        where
          checked :
              (code : AuthCode) (left : Map Text AuthCode) (refusal : Option TokenAnswer)
              → Has hash r
                  (code_checked library config roles_for brain_id request client code
                    (record s { auth_codes = left })
                    refusal).1.refresh_tokens
          checked code left none =
              put-Has hash r request.now _ _ s.refresh_tokens (omega (arith, spares.early, lives))
                spares.fresh h
          checked code left (some a) = h

          of :
              (c : Option AuthCode × Map Text AuthCode)
              → Has hash r
                  (code_consumed library config roles_for brain_id request client s
                    c).1.refresh_tokens
          of (none, left) = h
          of (some code, left) =
              checked code left (code_refusal library config roles_for brain_id request client code)

      refresh_token_grant-Has :
          Has hash r
            (refresh_token_grant library config roles_for brain_id request client
              s).1.refresh_tokens
      unfolding refresh_token_grant
      refresh_token_grant-Has =
          elim (Bool-cases (is_empty (field request (codes "refresh_token")))) [
            | inl e ↦ rw e h
            | inr e ↦ rw e (
                of
                  (consume_once refresh_fields request.now (submitted_hash library request)
                    s.refresh_tokens)
                  (consume-Has hash r request.now (submitted_hash library request) s.refresh_tokens
                    (omega (arith, spares.early, lives)) spares.other h))
          ]
        where
          checked :
              (v : RefreshRecord) (left : Tokens) (refusal : Option TokenAnswer)
              → Has hash r left
              → Has hash r
                  (refresh_checked library config roles_for brain_id request client
                    (submitted_hash library request)
                    v
                    (record s { refresh_tokens = left })
                    refusal).1.refresh_tokens
          checked v left none l =
              rotated-Has request.now (submitted_hash library request) _ v left spares.early
                spares.other spares.fresh l
          checked v left (some a) l = l

          of :
              (c : Option RefreshRecord × Tokens)
              → Has hash r c.1
              → Has hash r
                  (refresh_consumed library config roles_for brain_id request client
                    (submitted_hash library request)
                    s
                    c).1.refresh_tokens
          of (none, left) l = l
          of (some v, left) l =
              checked v left (refresh_refusal library config roles_for brain_id request client v) l

    handle_token-Has :
        (request : Request) (s : TokenState)
        → Spares library hash bound request
        → Has hash r s.refresh_tokens
        → Has hash r (handle_token library config roles_for brain_id request s).1.refresh_tokens
    unfolding handle_token
    handle_token-Has request s spares h = of (authenticate_client library request s)
      where
        of :
            (a : Authentication)
            → Has hash r (dispatched library config roles_for brain_id request s a).1.refresh_tokens
        of (rejected answer) = h
        of (authenticated client) = ground (
          arith,
          authorization_code_grant-Has request client s spares h,
          refresh_token_grant-Has request client s spares h,
          h,
        )

    pub run-Has :
        (requests : List Request) (s : TokenState)
        → All (Spares library hash bound) requests
        → Has hash r s.refresh_tokens
        → Has hash r (run library config roles_for brain_id requests s).refresh_tokens
    unfolding run
    run-Has [] s f h = h
    run-Has (request ∷ requests) s (f, fs) h =
        run-Has requests _ fs (handle_token-Has request s f h)
