-- ===== src/Oauth/Clients.antt =====
-- The tables, requests and answers of src/oauth/token.ts, and the authentication of its clients.
use brain_mcp_server.Prelude.{
  or_empty, or_text, ℕ, Bool, true, false, Option, none, some, [], ◌∷◌, Text, codes, text_eq,
  nat_eq, ◌==◌, if◌then◌else◌, is_empty, after_prefix,
}
use brain_mcp_server.Prelude.Maps.{Map, get}
use brain_mcp_server.Oauth.{Fields, get_entry, inherited_by}
use brain_mcp_server.Oauth.Pkce.{constant_time_equal}
use brain_mcp_server.Oauth.Grants.{AuthCode, RefreshRecord, Client, AccessTokenClaims, Library}

pub record TokenState : Type 0 where
  pub clients : Map Text Client
  pub auth_codes : Map Text AuthCode
  pub refresh_tokens : Map Text RefreshRecord

-- What is inherited has none of the fields: an undefined text is the empty text here, which no check
-- below tells from it, as a client id is never empty and a redirect URI is compared with one that is not.
abbrev pub inherited_client : Client
inherited_client = record {
  client_id = [];
  client_secret = none;
  token_endpoint_auth_method = [];
  client_id_issued_at = 0;
}

abbrev pub inherited_code : AuthCode
inherited_code = record {
  grant = record {
    client_id = [];
    provider = [];
    provider_user_id = [];
    provider_tenant_id = none;
    entra_role = none;
    github_login = none;
    login = none;
    email = none;
    name = none;
    scope = [];
    resource = [];
  };
  redirect_uri = [];
  code_challenge = [];
  code_challenge_method = [];
  expires_at = 0;
}

abbrev pub client_fields : Fields Client
client_fields = record {
  inherits = inherited_by inherited_client;
  expires_at = λ c. none;
  client_id_issued_at = λ c. c.client_id_issued_at;
}

abbrev pub code_fields : Fields AuthCode
code_fields = record {
  inherits = inherited_by inherited_code;
  expires_at = λ c. some c.expires_at;
  client_id_issued_at = λ c. 0;
}

-- The keys are SHA-256 hashes in hexadecimal, and no such name is inherited.
abbrev pub refresh_fields : Fields RefreshRecord
refresh_fields = record {
  inherits = λ k. none;
  expires_at = λ r. some r.expires_at;
  client_id_issued_at = λ r. 0;
}

pub record TokenResponse : Type 0 where
  pub access_token : Text
  pub claims : AccessTokenClaims
  pub expires_in : ℕ
  pub refresh_token : Text
  pub scope : Text

-- A refusal with its status and its code, or the tokens with status 200.
pub data TokenAnswer : Type 0 where
  refused : ℕ → Text → TokenAnswer
  issued : TokenResponse → TokenAnswer

-- `if (!passed) return error(code, …, status)`
unfoldable pub unless : Bool → ℕ → Text → Option TokenAnswer → Option TokenAnswer
unless true status code next = next
unless false status code next = some (refused status code)

-- What a request brings: its form, its header, its time, and the random texts that are drawn for it.
pub record Request : Type 0 where
  pub form : Map Text Text
  pub auth_header : Option Text
  pub now : ℕ
  pub new_token : Text
  pub jti : Text

-- `form.get(name) || ""`
abbrev pub field : Request → Text → Text
field request name = or_empty (get name request.form)

-- The text before the first colon and the text behind it.
abbrev push_left : ℕ → Option (Text × Text) → Option (Text × Text)
push_left c none = none
push_left c (some (a, b)) = some (c ∷ a, b)

unfoldable pub split_colon : Text → Option (Text × Text)
split_colon [] = none
split_colon (c ∷ s) = if c == 58 then some ([], s) else push_left c (split_colon s)

abbrev credentials : Library → Option Text → Option (Text × Text)
credentials library none = none
credentials library (some encoded) = split_colon (library.decode_base64 encoded)

unfoldable pub parse_basic_auth : Library → Option Text → Option (Text × Text)
unfolding split_colon after_prefix
parse_basic_auth library none = none
parse_basic_auth library (some header) = credentials library (after_prefix (codes "Basic ") header)

abbrev first_of : Option (Text × Text) → Text
first_of none = []
first_of (some (id, secret)) = id

abbrev second_of : Option (Text × Text) → Text
second_of none = []
second_of (some (id, secret)) = secret

abbrev pub requested_client_id : Library → Request → Text
requested_client_id library request =
    or_text (first_of (parse_basic_auth library request.auth_header))
      (field request (codes "client_id"))

abbrev pub submitted_secret : Library → Request → Text
submitted_secret library request =
    or_text (second_of (parse_basic_auth library request.auth_header))
      (field request (codes "client_secret"))

-- `hashRefreshToken(submitted)`
abbrev pub submitted_hash : Library → Request → Text
submitted_hash library request = library.sha256_hex (field request (codes "refresh_token"))

pub data Authentication : Type 0 where
  authenticated : Client → Authentication
  rejected : TokenAnswer → Authentication

abbrev invalid_client : Authentication
invalid_client = rejected (refused 401 (codes "invalid_client"))

abbrev pub client_checked : Library → Request → Option Client → Authentication
client_checked library request none = invalid_client
client_checked library request (some client) =
    if client.token_endpoint_auth_method == codes "none"
    then authenticated client
    else if constant_time_equal library.utf8 (submitted_secret library request)
        (or_empty client.client_secret)
    then authenticated client
    else invalid_client

unfoldable pub authenticate_client : Library → Request → TokenState → Authentication
unfolding parse_basic_auth constant_time_equal get_entry
authenticate_client library request s =
    if is_empty (requested_client_id library request)
    then invalid_client
    else client_checked library request
        (get_entry client_fields request.now (requested_client_id library request) s.clients)
