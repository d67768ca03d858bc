-- ===== src/Oauth/Token/Grace.antt =====
-- How long src/oauth/token.ts accepts a refresh token that has been rotated.
use brain_mcp_server.Prelude.{
  ltb, ℕ, ◌≤◌, ◌<◌, ◌≡◌, refl, ◌≢◌, inl, inr, true, false, ◌||◌, ◌&&◌, Option, none, some, List, [],
  ◌∷◌, Text, codes, text_eq, ◌==◌, is_empty, arith, Bool-cases, All,
}
use brain_mcp_server.Prelude.Maps.{Map, All-get}
use brain_mcp_server.Oauth.{is_expired, sweep_expired, get_entry, put_entry, consume_once}
use brain_mcp_server.Oauth.Once.{get-sweep_expired}
use brain_mcp_server.Oauth.Grants.{AuthCode, RefreshRecord, Client, OauthConfig, Library}
use brain_mcp_server.Oauth.Clients.{
  TokenState, code_fields, refresh_fields, TokenAnswer, refused, issued, Request, field,
  submitted_hash, Authentication, authenticated, rejected, authenticate_client,
}
use brain_mcp_server.Oauth.Token.{
  code_refusal, code_checked, code_consumed, authorization_code_grant, refresh_refusal,
  refresh_checked, refresh_consumed, refresh_token_grant, dispatched, handle_token, rotated,
  grace_expires_at, next_record,
}
use brain_mcp_server.Oauth.Token.Answers.{for_code, for_token, handle_token-IsIssued}
use brain_mcp_server.Oauth.Token.Spent.{is_issued}
use brain_mcp_server.Access.{BrainRole, BrainPrincipal}
use brain_mcp_server.Oauth.Token.Retired.{
  Tokens, EndsBy, Retires, sweep-Retires, put-Retires, consume-Retires, consumed-EndsBy,
}

module _ (library : Library) (config : OauthConfig)
    (roles_for : BrainPrincipal → Map Text BrainRole) (brain_id : Text) where
  module _ (hash : Text) (bound : ℕ) where
    pub rotated-Retires :
        (now : ℕ) (k new_hash : Text) (r : RefreshRecord) (table : Tokens)
        → new_hash ≢ hash
        → (k ≡ hash → grace_expires_at library config roles_for brain_id now r ≤ bound)
        → Retires hash bound table
        → Retires hash bound (rotated library config roles_for brain_id now k new_hash r table)
    unfolding rotated
    rotated-Retires now k new_hash r table n e h =
        elim (Bool-cases (
          ltb 0 config.refresh_token_reuse_grace_sec
          && ltb now (grace_expires_at library config roles_for brain_id now r))) [
            | inl lasts ↦ rw lasts (put-Retires hash bound now k _ _ (λ same. (refl, e same)) next)
            | inr ends ↦ rw ends next
          ]
      where
        next : Retires hash bound (
            put_entry refresh_fields now new_hash
              (next_record library config roles_for brain_id now k r)
              table)
        next = put-Retires hash bound now new_hash _ table (λ same. absurd (n same)) h

    module _ (request : Request) (client : Client) (s : TokenState)
        (fresh : library.sha256_hex request.new_token ≢ hash)
        (h : Retires hash bound s.refresh_tokens) where
      authorization_code_grant-Retires :
          Retires hash bound
            (authorization_code_grant library config roles_for brain_id request client
              s).1.refresh_tokens
      unfolding authorization_code_grant
      authorization_code_grant-Retires =
          elim (Bool-cases (
            is_empty (field request (codes "code"))
            || is_empty (field request (codes "redirect_uri"))
            || is_empty (field request (codes "code_verifier")))) [
              | inl e ↦ rw e h
              | inr e ↦ rw e (
                  of (
                    consume_once code_fields request.now (field request (codes "code"))
                      s.auth_codes))
            ]
        where
          checked :
              (code : AuthCode) (left : Map Text AuthCode) (refusal : Option TokenAnswer)
              → Retires hash bound
                  (code_checked library config roles_for brain_id request client code
                    (record s { auth_codes = left })
                    refusal).1.refresh_tokens
          checked code left none =
              put-Retires hash bound request.now _ _ s.refresh_tokens (λ same. absurd (fresh same))
                h
          checked code left (some a) = h

          of :
              (c : Option AuthCode × Map Text AuthCode)
              → Retires hash bound
                  (code_consumed library config roles_for brain_id request client s
                    c).1.refresh_tokens
          of (none, left) = h
          of (some code, left) =
              checked code left (code_refusal library config roles_for brain_id request client code)

      refresh_token_grant-Retires :
          Retires hash bound
            (refresh_token_grant library config roles_for brain_id request client
              s).1.refresh_tokens
      unfolding refresh_token_grant
      refresh_token_grant-Retires =
          elim (Bool-cases (is_empty (field request (codes "refresh_token")))) [
            | inl e ↦ rw e h
            | inr e ↦ rw e (
                of
                  (consume_once refresh_fields request.now (submitted_hash library request)
                    s.refresh_tokens)
                  (consume-Retires hash bound request.now (submitted_hash library request)
                    s.refresh_tokens h)
                  (λ r.
                    consumed-EndsBy hash bound request.now (submitted_hash library request)
                      s.refresh_tokens r h))
          ]
        where
          kept :
              (r : RefreshRecord)
              → (r.refresh_reuse_grace ≡ true) × (r.expires_at ≤ bound)
              → grace_expires_at library config roles_for brain_id request.now r ≤ bound
          kept r (g, le) = unfold grace_expires_at in ground (arith, g, le)

          checked :
              (r : RefreshRecord) (left : Tokens) (refusal : Option TokenAnswer)
              → EndsBy hash bound (submitted_hash library request, r)
              → Retires hash bound left
              → Retires hash bound
                  (refresh_checked library config roles_for brain_id request client
                    (submitted_hash library request)
                    r
                    (record s { refresh_tokens = left })
                    refusal).1.refresh_tokens
          checked r left none e l =
              rotated-Retires request.now (submitted_hash library request) _ r left fresh
                (λ same. kept r (e same)) l
          checked r left (some a) e l = l

          of :
              (c : Option RefreshRecord × Tokens)
              → Retires hash bound c.1
              → ((r : RefreshRecord)
                  → c.0 ≡ some r
                  → EndsBy hash bound (submitted_hash library request, r))
              → Retires hash bound
                  (refresh_consumed library config roles_for brain_id request client
                    (submitted_hash library request)
                    s
                    c).1.refresh_tokens
          of (none, left) l f = l
          of (some r, left) l f =
              checked r left (refresh_refusal library config roles_for brain_id request client r)
                (f r refl) l

    handle_token-Retires :
        (request : Request) (s : TokenState)
        → library.sha256_hex request.new_token ≢ hash
        → Retires hash bound s.refresh_tokens
        → Retires hash bound
            (handle_token library config roles_for brain_id request s).1.refresh_tokens
    unfolding handle_token
    handle_token-Retires request s fresh h = of (authenticate_client library request s)
      where
        of :
            (a : Authentication)
            → Retires hash bound
                (dispatched library config roles_for brain_id request s a).1.refresh_tokens
        of (rejected answer) = h
        of (authenticated client) =
            elim (Bool-cases (field request (codes "grant_type") == codes "authorization_code")) [
              | inl k ↦ rw k (authorization_code_grant-Retires request client s fresh h)
              | inr k ↦
                  rw k
                    (elim (Bool-cases
                      (field request (codes "grant_type") == codes "refresh_token")) [
                        | inl t ↦ rw t (refresh_token_grant-Retires request client s fresh h)
                        | inr t ↦ rw t h
                      ])
            ]

  -- The requests handled in turn.
  unfoldable pub run : List Request → TokenState → TokenState
  run [] s = s
  run (request ∷ requests) s =
      run requests (handle_token library config roles_for brain_id request s).1

  abbrev pub IsFresh : Text → Request → Type 0
  IsFresh hash request = library.sha256_hex request.new_token ≢ hash

  pub run-Retires :
      (hash : Text) (bound : ℕ) (requests : List Request) (s : TokenState)
      → All (IsFresh hash) requests
      → Retires hash bound s.refresh_tokens
      → Retires hash bound (run requests s).refresh_tokens
  unfolding run
  run-Retires hash bound [] s f h = h
  run-Retires hash bound (request ∷ requests) s (f, fs) h =
      run-Retires hash bound requests _ fs (handle_token-Retires hash bound request s f h)

  -- A token whose grace is over by `bound` is refused from then on.
  pub expired-refused :
      (bound : ℕ) (request : Request) (s : TokenState)
      → field request (codes "grant_type") ≡ codes "refresh_token"
      → bound < request.now
      → Retires (submitted_hash library request) bound s.refresh_tokens
      → is_issued (handle_token library config roles_for brain_id request s).0 ≡ false
  unfolding get_entry
  expired-refused bound request s kind later h =
      of (handle_token library config roles_for brain_id request s).0 refl
    where
      stale :
          (r : RefreshRecord)
          → get_entry refresh_fields request.now (submitted_hash library request) s.refresh_tokens
            ≡ some r
          → false ≡ true
      stale r e =
          let alive : is_expired refresh_fields request.now r ≡ false =
            get-sweep_expired refresh_fields (submitted_hash library request) request.now
              s.refresh_tokens r e in
          let ends =
            All-get (EndsBy (submitted_hash library request) bound) (submitted_hash library request)
              r (sweep_expired refresh_fields request.now s.refresh_tokens)
              (sweep-Retires (submitted_hash library request) bound request.now s.refresh_tokens h)
              e refl in
          ground (arith, alive, ends.1, later)

      of :
          (a : TokenAnswer)
          → (handle_token library config roles_for brain_id request s).0 ≡ a
          → is_issued a ≡ false
      of (refused status code) e = refl
      of (issued response) e =
          elim (handle_token-IsIssued library config roles_for brain_id request s response e) [
            | for_code client code known i q ↦ absurd (ground (arith, i.kind, kind))
            | for_token client r known i q ↦ absurd (ground (arith, stale r i.stored))
          ]
