-- ===== src/Oauth/Token/Tests.antt =====
-- The token endpoint of src/oauth/token.ts on concrete requests, and the theorems about it there.
use brain_mcp_server.Prelude.{
  text_beq_iff, ℕ, ◌≤◌, ◌≡◌, ◌≢◌, refl, true, false, none, some, List, [], ◌∷◌, ◌++◌, Text, codes,
  text_eq, text_beq, take, arith, starts_with,
}
use brain_mcp_server.Prelude.Maps.{Map, get, set, remove}
use brain_mcp_server.Access.{BrainRole, owner, BrainPrincipal}
use brain_mcp_server.Oauth.{get_entry, sweep_expired}
use brain_mcp_server.Oauth.Grants.{Grant, RefreshRecord, Client, OauthConfig, Library}
use brain_mcp_server.Oauth.Clients.{
  TokenState, TokenAnswer, refused, issued, Request, field, submitted_hash, authenticated,
  authenticate_client, unless, refresh_fields,
}
use brain_mcp_server.Oauth.Token.{handle_token, response_of}
use brain_mcp_server.Oauth.Token.Spent.{is_issued, exchanges, exchanges_le}
use brain_mcp_server.Oauth.Token.Grace.{run}
use brain_mcp_server.Oauth.Token.Rotation.{rotated-refused}

abbrev library : Library
library = record {
  utf8 = λ s. s;
  sha256_hex = λ s. codes "h:" ++ s;
  sha256_base64url = λ s. take 43 s;
  decode_base64 = λ s. s;
  resource_url = λ s. some (record { has_hash = false; is_root = false; text = s });
  encode_token = λ secret claims. claims.sub;
}

abbrev config : OauthConfig
config = record {
  issuer = codes "https://b";
  resource_uri = codes "https://b/mcp";
  signing_secret = codes "s";
  access_token_ttl_sec = 600;
  refresh_token_ttl_sec = 1000;
  refresh_token_reuse_grace_sec = 30;
  identity_providers = codes "github" ∷ [];
  enforce_current_grants = true;
}

abbrev roles_for : BrainPrincipal → Map Text BrainRole
roles_for p = (codes "team", owner) ∷ []

abbrev brain_id : Text
brain_id = codes "team"

abbrev grant : Grant
grant = record {
  client_id = codes "c1";
  provider = codes "github";
  provider_user_id = codes "7";
  provider_tenant_id = none;
  entra_role = none;
  github_login = some (codes "ada");
  login = none;
  email = none;
  name = none;
  scope = codes "brain";
  resource = codes "https://b/mcp";
}

abbrev verifier : Text
verifier = codes "abcdefghijklmnopqrstuvwxyzabcdefghijklmnopq"

abbrev client : Client
client = record {
  client_id = codes "c1";
  client_secret = none;
  token_endpoint_auth_method = codes "none";
  client_id_issued_at = 0;
}

abbrev state : TokenState
state = record {
  clients = (codes "c1", client) ∷ [];
  auth_codes =
      (
        codes "k1",
        record {
          grant = grant;
          redirect_uri = codes "https://c/cb";
          code_challenge = verifier;
          code_challenge_method = codes "S256";
          expires_at = 100;
        },
      )
      ∷ [];
  refresh_tokens = [];
}

abbrev exchange : Request
exchange = record {
  form =
      (codes "grant_type", codes "authorization_code")
      ∷ (codes "client_id", codes "c1")
      ∷ (codes "code", codes "k1")
      ∷ (codes "redirect_uri", codes "https://c/cb")
      ∷ (codes "code_verifier", verifier)
      ∷ [];
  auth_header = none;
  now = 50;
  new_token = codes "t1";
  jti = codes "j";
}

abbrev refresh : (token new_token : Text) → ℕ → Request
refresh token new_token now = record {
  form =
      (codes "grant_type", codes "refresh_token")
      ∷ (codes "client_id", codes "c1")
      ∷ (codes "refresh_token", token)
      ∷ [];
  auth_header = none;
  now = now;
  new_token = new_token;
  jti = codes "j";
}

abbrev handled : Request → TokenState → TokenAnswer × TokenState
handled = handle_token library config roles_for brain_id

abbrev after_exchange : TokenState
after_exchange = (handled exchange state).1

abbrev record_1 : RefreshRecord
record_1 = record {
  grant = grant;
  created_at = 50;
  expires_at = 1050;
  last_used_at = 50;
  refresh_reuse_grace = false;
  rotated_from = none;
  rotated_to = none;
}

abbrev state_1 : TokenState
state_1 = record state { auth_codes = []; refresh_tokens = (codes "h:t1", record_1) ∷ [] }

exchanged :
    handled exchange state ≡ (issued (response_of library config exchange client grant), state_1)
unfolding handle_token unless text_beq get set remove sweep_expired starts_with
exchanged = refl

-- In its grace the old token is accepted again, and refused after it.
graces :
    (is_issued (handled (refresh (codes "t1") (codes "t2") 60) state_1).0 ≡ true)
    × (is_issued
          (handled
            (refresh (codes "t1") (codes "t3") 90)
            (handled (refresh (codes "t1") (codes "t2") 60) state_1).1).0
        ≡ true)
    × (is_issued
          (handled
            (refresh (codes "t1") (codes "t3") 91)
            (handled (refresh (codes "t1") (codes "t2") 60) state_1).1).0
        ≡ false)
unfolding handle_token unless text_beq get set remove sweep_expired starts_with
graces = (refl, refl, refl)

wrong_verifier :
    (handled
      (record exchange { form = set (codes "code_verifier") (codes "x") exchange.form })
      state).0
    ≡ refused 400 (codes "invalid_grant")
unfolding handle_token unless text_beq get set remove sweep_expired starts_with
wrong_verifier = refl

exchanges_le_example :
    exchanges library config roles_for brain_id (codes "k1") (exchange ∷ exchange ∷ []) state ≤ 1
exchanges_le_example =
    exchanges_le library config roles_for brain_id (codes "k1") (exchange ∷ exchange ∷ []) state

exchanges_once :
    exchanges library config roles_for brain_id (codes "k1") (exchange ∷ exchange ∷ []) state ≡ 1
unfolding handle_token unless text_beq get set remove sweep_expired starts_with
exchanges_once = refl

abbrev first : Request
first = refresh (codes "t1") (codes "t2") 60

abbrev last : Request
last = refresh (codes "t1") (codes "t4") 91

abbrev later : List Request
later = refresh (codes "t1") (codes "t3") 80 ∷ []

abbrev next : Request
next = refresh (codes "t2") (codes "t5") 900

stored :
    (get_entry refresh_fields 60 (codes "h:t1") state_1.refresh_tokens ≡ some record_1)
    × (is_issued (handled first state_1).0 ≡ true)
    × (authenticate_client library first state_1 ≡ authenticated client)
    × (authenticate_client library next (handled first state_1).1 ≡ authenticated client)
unfolding handle_token unless text_beq get set remove get_entry sweep_expired starts_with
stored = (refl, refl, refl, refl)

fields :
    (field first (codes "grant_type") ≡ codes "refresh_token")
    × (field last (codes "grant_type") ≡ codes "refresh_token")
    × (field next (codes "grant_type") ≡ codes "refresh_token")
    × (field next (codes "refresh_token") ≡ first.new_token)
    × (field next (codes "resource") ≡ [])
    × (submitted_hash library first ≡ codes "h:t1")
    × (submitted_hash library last ≡ submitted_hash library first)
unfolding get text_beq
fields = (refl, refl, refl, refl, refl, refl, refl)

distinct : ¬ (false ≡ true)
distinct e = cc

hashes :
    (codes "h:t2" ≢ submitted_hash library first) × (codes "h:t3" ≢ submitted_hash library first)
unfolding get text_beq
hashes = (
  λ e. distinct ((text_beq_iff (codes "h:t2") (submitted_hash library first)).1 e),
  λ e. distinct ((text_beq_iff (codes "h:t3") (submitted_hash library first)).1 e),
)

stored_first :
    get_entry refresh_fields first.now (submitted_hash library first) state_1.refresh_tokens
    ≡ some record_1
stored_first = rw fields.5 stored.0

rotated-refused_example :
    is_issued
      (handled last (run library config roles_for brain_id later (handled first state_1).1)).0
    ≡ false
rotated-refused_example =
    rotated-refused library config roles_for brain_id first later last state_1 record_1 fields.0
      stored_first refl stored.1 (hashes.0, (hashes.1, tt)) fields.1 fields.6 (omega arith)
