-- ===== src/Oauth/Token.antt =====
-- src/oauth/token.ts: the token endpoint over the tables of clients, authorization codes and refresh tokens.
-- One request sees one time `now`; the random texts that it draws are arguments. The sentences
-- `error_description` are left out.
pub mod Checks
pub mod Answers
pub mod Spent
pub mod Retired
pub mod Grace
pub mod Rotation
pub mod Stored
pub mod Kept
pub mod Renewal
mod Tests
use brain_mcp_server.Prelude.{
  or_empty, or_text, ℕ, ◌+◌, Bool, true, false, not, ◌&&◌, ◌||◌, Option, none, some, List, [], ◌∷◌,
  ◌++◌, Text, codes, text_eq, nat_eq, ◌==◌, if◌then◌else◌, is_empty, take, drop, after_prefix, ltb,
  min,
}
use brain_mcp_server.Prelude.Maps.{Map, get}
use brain_mcp_server.Oauth.{Fields, get_entry, put_entry, consume_once}
use brain_mcp_server.Oauth.Pkce.{constant_time_equal, verify_challenge}
use brain_mcp_server.Oauth.Clients.{
  TokenState, client_fields, code_fields, refresh_fields, TokenResponse, TokenAnswer, unless,
  Request, field, split_colon, parse_basic_auth, requested_client_id, submitted_secret,
  submitted_hash, Authentication, client_checked, authenticate_client, authenticated, rejected,
  refused, issued,
}
use brain_mcp_server.Oauth.Grants.{
  given, Grant, AuthCode, RefreshRecord, Client, OauthConfig, AccessTokenClaims, Library,
  is_resource_match, current_grant_allows,
}
use brain_mcp_server.Access.{BrainRole, BrainPrincipal}

-- `issueAccessToken` of src/oauth/jwt.ts, with the arguments that both grants pass.
unfoldable pub claims_of : OauthConfig → Request → Client → Grant → AccessTokenClaims
claims_of config request client g = record {
  iss = config.issuer;
  aud = config.resource_uri;
  sub = g.provider ++ (58 ∷ g.provider_user_id);
  client_id = client.client_id;
  scope = g.scope;
  iat = request.now;
  exp = request.now + config.access_token_ttl_sec;
  jti = request.jti;
  provider = given (some g.provider);
  provider_user_id = given (some g.provider_user_id);
  provider_tenant_id = given g.provider_tenant_id;
  upstream_role = given g.entra_role;
  github_login = given g.github_login;
  email = given g.email;
  name = given g.name;
}

unfoldable pub response_of : Library → OauthConfig → Request → Client → Grant → TokenResponse
unfolding claims_of
response_of library config request client g = record {
  access_token = library.encode_token config.signing_secret (claims_of config request client g);
  claims = claims_of config request client g;
  expires_in = config.access_token_ttl_sec;
  refresh_token = request.new_token;
  scope = g.scope;
}

module _ (library : Library) (config : OauthConfig)
    (roles_for : BrainPrincipal → Map Text BrainRole) (brain_id : Text) where
  abbrev pub resource_of : Request → AuthCode → Text
  resource_of request code = or_text (field request (codes "resource")) code.grant.resource

  -- A resource that the request names is the one that was granted.
  abbrev pub is_bound : Request → Grant → Bool
  is_bound request g =
      is_empty (field request (codes "resource"))
      || is_resource_match library (field request (codes "resource")) g.resource

  -- The checks of a consumed code, in order; `none` means that all of them pass.
  unfoldable pub code_refusal : Request → Client → AuthCode → Option TokenAnswer
  unfolding verify_challenge is_resource_match current_grant_allows
  code_refusal request client code =
      unless (code.grant.client_id == client.client_id) 400 (codes "invalid_grant") (
        unless (code.redirect_uri == field request (codes "redirect_uri")) 400
          (codes "invalid_grant")
          (unless
            (verify_challenge library.utf8 library.sha256_base64url
              (field request (codes "code_verifier")) code.code_challenge
              code.code_challenge_method)
            400 (codes "invalid_grant")
            (unless (not (is_empty (resource_of request code))) 400 (codes "invalid_target") (
              unless (is_bound request code.grant) 400 (codes "invalid_target") (
                unless (is_resource_match library (resource_of request code) config.resource_uri)
                  400 (codes "invalid_target")
                  (unless (current_grant_allows config roles_for brain_id code.grant) 403
                    (codes "access_denied") none))))))

  -- The record of the new refresh token, which keeps the login of a code for GitHub alone.
  unfoldable pub first_record : Request → Client → AuthCode → RefreshRecord
  first_record request client code = record {
    grant = record code.grant {
      client_id = client.client_id;
      provider_tenant_id = given code.grant.provider_tenant_id;
      entra_role = given code.grant.entra_role;
      login = none;
      email = given code.grant.email;
      name = given code.grant.name;
    };
    created_at = request.now;
    expires_at = request.now + config.refresh_token_ttl_sec;
    last_used_at = request.now;
    refresh_reuse_grace = false;
    rotated_from = none;
    rotated_to = none;
  }

  abbrev pub code_checked :
      Request → Client → AuthCode → TokenState → Option TokenAnswer → TokenAnswer × TokenState
  code_checked request client code s (some refusal) = (refusal, s)
  code_checked request client code s none = (
    issued (response_of library config request client code.grant),
    record s {
      refresh_tokens =
          put_entry refresh_fields request.now (library.sha256_hex request.new_token)
            (first_record request client code) s.refresh_tokens;
    },
  )

  abbrev pub code_consumed :
      Request → Client → TokenState → Option AuthCode × Map Text AuthCode → TokenAnswer × TokenState
  code_consumed request client s (none, codes_left) =
      (refused 400 (codes "invalid_grant"), record s { auth_codes = codes_left })
  code_consumed request client s (some code, codes_left) =
      code_checked request client code (record s { auth_codes = codes_left })
        (code_refusal request client code)

  unfoldable pub authorization_code_grant : Request → Client → TokenState → TokenAnswer × TokenState
  unfolding consume_once put_entry code_refusal first_record response_of
  authorization_code_grant request client s =
      if is_empty (field request (codes "code"))
        || is_empty (field request (codes "redirect_uri"))
        || is_empty (field request (codes "code_verifier"))
      then (refused 400 (codes "invalid_request"), s)
      else code_consumed request client s
          (consume_once code_fields request.now (field request (codes "code")) s.auth_codes)

  unfoldable pub refresh_refusal : Request → Client → RefreshRecord → Option TokenAnswer
  unfolding is_resource_match current_grant_allows
  refresh_refusal request client r =
      unless (r.grant.client_id == client.client_id) 400 (codes "invalid_grant") (
        unless (is_bound request r.grant) 400 (codes "invalid_target") (
          unless (current_grant_allows config roles_for brain_id r.grant) 400
            (codes "invalid_grant") none))

  -- Until when a token may be used again; 0 where there is no grace.
  unfoldable pub grace_expires_at : ℕ → RefreshRecord → ℕ
  grace_expires_at now r =
      if ltb 0 config.refresh_token_reuse_grace_sec
      then (if r.refresh_reuse_grace
          then r.expires_at
          else min
              (if r.expires_at == 0
                then now + config.refresh_token_reuse_grace_sec
                else r.expires_at)
              (now + config.refresh_token_reuse_grace_sec))
      else 0

  unfoldable pub next_record : ℕ → Text → RefreshRecord → RefreshRecord
  next_record now hash r = record r {
    expires_at = now + config.refresh_token_ttl_sec;
    last_used_at = now;
    refresh_reuse_grace = false;
    rotated_from = some (take 8 hash);
    rotated_to = none;
  }

  unfoldable pub grace_record : ℕ → Text → RefreshRecord → RefreshRecord
  unfolding grace_expires_at
  grace_record now new_hash r = record r {
    expires_at = grace_expires_at now r;
    last_used_at = now;
    refresh_reuse_grace = true;
    rotated_to = some (take 8 new_hash);
  }

  -- The new record is put, and the old one again where its grace lasts.
  unfoldable pub rotated :
      ℕ → (hash new_hash : Text) → RefreshRecord → Map Text RefreshRecord → Map Text RefreshRecord
  unfolding put_entry next_record grace_record
  rotated now hash new_hash r tokens =
      let next = put_entry refresh_fields now new_hash (next_record now hash r) tokens in
      if ltb 0 config.refresh_token_reuse_grace_sec && ltb now (grace_expires_at now r)
      then put_entry refresh_fields now hash (grace_record now new_hash r) next
      else next

  abbrev pub refresh_checked :
      Request
      → Client
      → Text
      → RefreshRecord
      → TokenState
      → Option TokenAnswer
      → TokenAnswer × TokenState
  refresh_checked request client hash r s (some refusal) = (refusal, s)
  refresh_checked request client hash r s none = (
    issued (response_of library config request client r.grant),
    record s {
      refresh_tokens =
          rotated request.now hash (library.sha256_hex request.new_token) r s.refresh_tokens;
    },
  )

  abbrev pub refresh_consumed :
      Request
      → Client
      → Text
      → TokenState
      → Option RefreshRecord × Map Text RefreshRecord
      → TokenAnswer × TokenState
  refresh_consumed request client hash s (none, tokens_left) =
      (refused 400 (codes "invalid_grant"), record s { refresh_tokens = tokens_left })
  refresh_consumed request client hash s (some r, tokens_left) =
      refresh_checked request client hash r (record s { refresh_tokens = tokens_left })
        (refresh_refusal request client r)

  unfoldable pub refresh_token_grant : Request → Client → TokenState → TokenAnswer × TokenState
  unfolding consume_once refresh_refusal rotated response_of
  refresh_token_grant request client s =
      if is_empty (field request (codes "refresh_token"))
      then (refused 400 (codes "invalid_request"), s)
      else refresh_consumed request client (submitted_hash library request) s (
          consume_once refresh_fields request.now (submitted_hash library request) s.refresh_tokens)

  abbrev pub dispatched : Request → TokenState → Authentication → TokenAnswer × TokenState
  dispatched request s (rejected answer) = (answer, s)
  dispatched request s (authenticated client) =
      if field request (codes "grant_type") == codes "authorization_code"
      then authorization_code_grant request client s
      else if field request (codes "grant_type") == codes "refresh_token"
      then refresh_token_grant request client s
      else (refused 400 (codes "unsupported_grant_type"), s)

  -- The client id and the grant type that the result also carries serve telemetry, and are left out.
  unfoldable pub handle_token : Request → TokenState → TokenAnswer × TokenState
  unfolding authenticate_client authorization_code_grant refresh_token_grant
  handle_token request s = dispatched request s (authenticate_client library request s)
