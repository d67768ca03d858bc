-- ===== src/Oauth/Token/Answers.antt =====
-- What the token endpoint of src/oauth/token.ts has checked where it issues tokens.
use brain_mcp_server.Prelude.{
  or_text, ◌≡◌, refl, sym, inl, inr, true, ◌||◌, Option, none, some, Text, codes, text_eq,
  option_eq, ◌==◌, is_empty, arith, Bool-cases, text_beq_iff, subst,
}
use brain_mcp_server.Prelude.Maps.{Map}
use brain_mcp_server.Oauth.{get_entry, consume_once, false, get, sweep_expired}
use brain_mcp_server.Oauth.Pkce.{verify_challenge}
use brain_mcp_server.Oauth.Grants.{
  AuthCode, RefreshRecord, Client, OauthConfig, Library, is_resource_match, current_grant_allows,
}
use brain_mcp_server.Oauth.Clients.{
  TokenState, code_fields, refresh_fields, TokenResponse, TokenAnswer, issued, Request, field,
  submitted_hash, Authentication, authenticated, rejected, authenticate_client,
}
use brain_mcp_server.Oauth.Token.{
  response_of, code_refusal, code_checked, code_consumed, authorization_code_grant, refresh_refusal,
  refresh_checked, refresh_consumed, refresh_token_grant, dispatched, handle_token,
}
use brain_mcp_server.Access.{BrainRole, BrainPrincipal}
use brain_mcp_server.Oauth.Token.Checks.{
  get_entry-own, consume_once-get_entry, IsClient, authenticate_client-IsClient, rejected-refuses,
  code_refusal-none, refresh_refusal-none, refusal-code, refusal-refresh, issued-inj,
}

module _ (library : Library) (config : OauthConfig)
    (roles_for : BrainPrincipal → Map Text BrainRole) (brain_id : Text) where
  -- What has been checked of the code of a request.
  pub record IsExchanged (request : Request) (s : TokenState) (client : Client) (code : AuthCode)
      : Type 0 where
    pub kind : field request (codes "grant_type") ≡ codes "authorization_code"
    pub stored :
        get (field request (codes "code")) (sweep_expired code_fields request.now s.auth_codes)
        ≡ some code
    pub owner : code.grant.client_id ≡ client.client_id
    pub redirect : code.redirect_uri ≡ field request (codes "redirect_uri")
    pub proof_key :
        verify_challenge library.utf8 library.sha256_base64url
          (field request (codes "code_verifier"))
          code.code_challenge
          code.code_challenge_method
        ≡ true
    pub audience :
        is_resource_match library
          (or_text (field request (codes "resource")) code.grant.resource)
          config.resource_uri
        ≡ true
    pub allowed : current_grant_allows config roles_for brain_id code.grant ≡ true

  -- What has been checked of the refresh token of a request.
  pub record IsRefreshed (request : Request) (s : TokenState) (client : Client) (r : RefreshRecord)
      : Type 0 where
    pub kind : field request (codes "grant_type") ≡ codes "refresh_token"
    pub stored :
        get_entry refresh_fields request.now (submitted_hash library request) s.refresh_tokens
        ≡ some r
    pub owner : r.grant.client_id ≡ client.client_id
    pub allowed : current_grant_allows config roles_for brain_id r.grant ≡ true

  pub data IsIssued (request : Request) (s : TokenState) (response : TokenResponse) : Type 0 where
    for_code :
        (client : Client) (code : AuthCode)
        → IsClient library request s client
        → IsExchanged request s client code
        → response ≡ response_of library config request client code.grant
        → IsIssued request s response
    for_token :
        (client : Client) (r : RefreshRecord)
        → IsClient library request s client
        → IsRefreshed request s client r
        → response ≡ response_of library config request client r.grant
        → IsIssued request s response

  module _ (request : Request) (client : Client) (s : TokenState)
      (known : IsClient library request s client) (response : TokenResponse) where
    code_checked-IsIssued :
        (kind : field request (codes "grant_type") ≡ codes "authorization_code")
        (full : is_empty (field request (codes "redirect_uri")) ≡ false) (code : AuthCode)
        (t : TokenState) (refusal : Option TokenAnswer)
        → get_entry code_fields request.now (field request (codes "code")) s.auth_codes ≡ some code
        → code_refusal library config roles_for brain_id request client code ≡ refusal
        → (code_checked library config roles_for brain_id request client code t refusal).0
          ≡ issued response
        → IsIssued request s response
    code_checked-IsIssued kind full code t (some a) found e h =
        absurd (refusal-code library config roles_for brain_id request client code a response e h)
    code_checked-IsIssued kind full code t none found e h =
        let (owner, redirect, proof_key, audience, allowed) =
          code_refusal-none library config roles_for brain_id request client code e in
        for_code client code known
          (record {
            kind = kind;
            stored =
                get_entry-own request.now (field request (codes "code")) s.auth_codes code found
                  (subst (λ (x : Text). is_empty x ≡ false) (sym redirect) full);
            owner = owner;
            redirect = redirect;
            proof_key = proof_key;
            audience = audience;
            allowed = allowed;
          })
          (sym (issued-inj library config roles_for brain_id request client h))

    code_consumed-IsIssued :
        (kind : field request (codes "grant_type") ≡ codes "authorization_code")
        (full : is_empty (field request (codes "redirect_uri")) ≡ false) (o : Option AuthCode)
        (left : Map Text AuthCode)
        → get_entry code_fields request.now (field request (codes "code")) s.auth_codes ≡ o
        → (code_consumed library config roles_for brain_id request client s (o, left)).0
          ≡ issued response
        → IsIssued request s response
    code_consumed-IsIssued kind full none left found h = cc
    code_consumed-IsIssued kind full (some code) left found h =
        code_checked-IsIssued kind full code _
          (code_refusal library config roles_for brain_id request client code) found refl h

    authorization_code_grant-IsIssued :
        field request (codes "grant_type") ≡ codes "authorization_code"
        → (authorization_code_grant library config roles_for brain_id request client s).0
          ≡ issued response
        → IsIssued request s response
    unfolding authorization_code_grant
    authorization_code_grant-IsIssued kind h =
        elim (Bool-cases (
          is_empty (field request (codes "code"))
          || is_empty (field request (codes "redirect_uri"))
          || is_empty (field request (codes "code_verifier")))) [
            | inl e ↦ ground (arith, h, e)
            | inr e ↦
                code_consumed-IsIssued kind (ground (arith, e))
                  (consume_once code_fields request.now (field request (codes "code"))
                    s.auth_codes).0
                  (consume_once code_fields request.now (field request (codes "code"))
                    s.auth_codes).1
                  (sym (
                    consume_once-get_entry code_fields request.now (field request (codes "code"))
                      s.auth_codes))
                  (rw e at h)
          ]

    refresh_checked-IsIssued :
        (kind : field request (codes "grant_type") ≡ codes "refresh_token") (r : RefreshRecord)
        (t : TokenState) (refusal : Option TokenAnswer)
        → get_entry refresh_fields request.now (submitted_hash library request) s.refresh_tokens
          ≡ some r
        → refresh_refusal library config roles_for brain_id request client r ≡ refusal
        → (refresh_checked library config roles_for brain_id request client
            (submitted_hash library request)
            r
            t
            refusal).0
          ≡ issued response
        → IsIssued request s response
    refresh_checked-IsIssued kind r t (some a) found e h =
        absurd (refusal-refresh library config roles_for brain_id request client r a response e h)
    refresh_checked-IsIssued kind r t none found e h =
        let (owner, allowed) =
          refresh_refusal-none library config roles_for brain_id request client r e in
        for_token client r known
          (record { kind = kind; stored = found; owner = owner; allowed = allowed })
          (sym (issued-inj library config roles_for brain_id request client h))

    refresh_consumed-IsIssued :
        (kind : field request (codes "grant_type") ≡ codes "refresh_token")
        (o : Option RefreshRecord) (left : Map Text RefreshRecord)
        → get_entry refresh_fields request.now (submitted_hash library request) s.refresh_tokens ≡ o
        → (refresh_consumed library config roles_for brain_id request client
            (submitted_hash library request)
            s
            (o, left)).0
          ≡ issued response
        → IsIssued request s response
    refresh_consumed-IsIssued kind none left found h = cc
    refresh_consumed-IsIssued kind (some r) left found h =
        refresh_checked-IsIssued kind r _
          (refresh_refusal library config roles_for brain_id request client r) found refl h

    refresh_token_grant-IsIssued :
        field request (codes "grant_type") ≡ codes "refresh_token"
        → (refresh_token_grant library config roles_for brain_id request client s).0
          ≡ issued response
        → IsIssued request s response
    unfolding refresh_token_grant
    refresh_token_grant-IsIssued kind h =
        elim (Bool-cases (is_empty (field request (codes "refresh_token")))) [
          | inl e ↦ ground (arith, h, e)
          | inr e ↦
              refresh_consumed-IsIssued kind
                (consume_once refresh_fields request.now (submitted_hash library request)
                  s.refresh_tokens).0
                (consume_once refresh_fields request.now (submitted_hash library request)
                  s.refresh_tokens).1
                (sym (
                  consume_once-get_entry refresh_fields request.now (submitted_hash library request)
                    s.refresh_tokens))
                (rw e at h)
        ]

    authenticated-IsIssued :
        (dispatched library config roles_for brain_id request s (authenticated client)).0
          ≡ issued response
        → IsIssued request s response
    authenticated-IsIssued h =
        elim (Bool-cases (field request (codes "grant_type") == codes "authorization_code")) [
          | inl k ↦
              authorization_code_grant-IsIssued
                ((text_beq_iff (field request (codes "grant_type")) (codes "authorization_code")).0
                  k)
                (rw k at h)
          | inr k ↦
              elim (Bool-cases (field request (codes "grant_type") == codes "refresh_token")) [
                | inl t ↦
                    refresh_token_grant-IsIssued
                      ((text_beq_iff (field request (codes "grant_type")) (codes "refresh_token")).0
                        t)
                      (rw (k, t) at h)
                | inr t ↦ ground (arith, h, k, t)
              ]
        ]

  pub handle_token-IsIssued :
      (request : Request) (s : TokenState) (response : TokenResponse)
      → (handle_token library config roles_for brain_id request s).0 ≡ issued response
      → IsIssued request s response
  unfolding handle_token
  handle_token-IsIssued request s response h = of (authenticate_client library request s) refl h
    where
      of :
          (a : Authentication)
          → authenticate_client library request s ≡ a
          → (dispatched library config roles_for brain_id request s a).0 ≡ issued response
          → IsIssued request s response
      of (rejected answer) e h = absurd (rejected-refuses library request s answer response e h)
      of (authenticated client) e h =
          authenticated-IsIssued request client s
            (authenticate_client-IsClient library request s client e) response h
