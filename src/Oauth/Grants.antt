-- ===== src/Oauth/Grants.antt =====
-- The records of src/oauth/token.ts, the resource of src/oauth/config.ts, and the check of the current grant.
use brain_mcp_server.Prelude.{
  ℕ, Bool, true, false, not, ◌&&◌, ◌||◌, Option, none, some, List, [], ◌∷◌, Text, codes, text_eq,
  option_eq, ◌==◌, if◌then◌else◌, contains, reverse, drop, starts_with,
}
use brain_mcp_server.Prelude.Maps.{Map, get}
use brain_mcp_server.Access.{BrainRole, owner, admin, member, reader, BrainPrincipal}

-- `a || undefined`, and `a || b || undefined`, where the empty text is falsy.
abbrev pub given : Option Text → Option Text
given none = none
given (some []) = none
given (some (c ∷ s)) = some (c ∷ s)

abbrev pub or_given : Option Text → Option Text → Option Text
or_given none other = given other
or_given (some []) other = given other
or_given (some (c ∷ s)) other = some (c ∷ s)

-- What an authorization code and a refresh token share: whom they were given to, and for what.
pub record Grant : Type 0 where
  pub client_id : Text
  pub provider : Text
  pub provider_user_id : Text
  pub provider_tenant_id : Option Text
  pub entra_role : Option Text
  pub github_login : Option Text
  pub login : Option Text
  pub email : Option Text
  pub name : Option Text
  pub scope : Text
  pub resource : Text

pub record AuthCode : Type 0 where
  pub grant : Grant
  pub redirect_uri : Text
  pub code_challenge : Text
  pub code_challenge_method : Text
  pub expires_at : ℕ

pub record RefreshRecord : Type 0 where
  pub grant : Grant
  pub created_at : ℕ
  pub expires_at : ℕ
  pub last_used_at : ℕ
  pub refresh_reuse_grace : Bool
  pub rotated_from : Option Text
  pub rotated_to : Option Text

pub record Client : Type 0 where
  pub client_id : Text
  pub client_secret : Option Text
  pub token_endpoint_auth_method : Text
  pub client_id_issued_at : ℕ

pub record OauthConfig : Type 0 where
  pub issuer : Text
  pub resource_uri : Text
  pub signing_secret : Text
  pub access_token_ttl_sec : ℕ
  pub refresh_token_ttl_sec : ℕ
  pub refresh_token_reuse_grace_sec : ℕ
  pub identity_providers : List Text
  pub enforce_current_grants : Bool

-- `AccessTokenClaims` of src/oauth/jwt.ts.
pub record AccessTokenClaims : Type 0 where
  pub iss : Text
  pub aud : Text
  pub sub : Text
  pub client_id : Text
  pub scope : Text
  pub iat : ℕ
  pub exp : ℕ
  pub jti : Text
  pub provider : Option Text
  pub provider_user_id : Option Text
  pub provider_tenant_id : Option Text
  pub upstream_role : Option Text
  pub github_login : Option Text
  pub email : Option Text
  pub name : Option Text

-- What `new URL(uri)` gives: whether it has a fragment, whether its path is "/", and its text.
pub record ResourceUrl : Type 0 where
  pub has_hash : Bool
  pub is_root : Bool
  pub text : Text

-- The functions of the runtime and of its libraries: digests, base64, the parser of URLs, and the encoding
-- of a signed token under a secret.
pub record Library : Type 0 where
  pub utf8 : Text → Text
  pub sha256_hex : Text → Text
  pub sha256_base64url : Text → Text
  pub decode_base64 : Text → Text
  pub resource_url : Text → Option ResourceUrl
  pub encode_token : Text → AccessTokenClaims → Text

abbrev ends_in_slash : Text → Bool
ends_in_slash s = starts_with (reverse s) (codes "/")

abbrev normalized_url : Option ResourceUrl → Option Text
normalized_url none = none
normalized_url (some url) =
    if url.has_hash
    then none
    else if ends_in_slash url.text && url.is_root
    then some (reverse (drop 1 (reverse url.text)))
    else some url.text

unfoldable pub normalize_resource : Library → Text → Option Text
normalize_resource library [] = none
normalize_resource library (c ∷ s) = normalized_url (library.resource_url (c ∷ s))

unfoldable pub is_resource_match : Library → Text → Text → Bool
unfolding normalize_resource
is_resource_match library requested canonical =
    normalize_resource library requested == normalize_resource library canonical

abbrev pub app_role : BrainRole → Text
app_role reader = codes "Brain.Reader"
app_role member = codes "Brain.Curator"
app_role admin = codes "Brain.Admin"
app_role owner = codes "Brain.Owner"

unfoldable pub is_identity_provider_enabled : OauthConfig → Text → Bool
is_identity_provider_enabled config provider =
    (provider == codes "github" || provider == codes "entra")
    && contains provider config.identity_providers

unfoldable pub grant_principal : Grant → BrainPrincipal
grant_principal g = record {
  provider = g.provider;
  provider_tenant_id = given g.provider_tenant_id;
  provider_user_id = g.provider_user_id;
  login = or_given g.github_login g.login;
  email = given g.email;
  name = given g.name;
}

abbrev role_allows : Bool → Option Text → Option BrainRole → Bool
role_allows is_entra upstream none = false
role_allows is_entra none (some role) = true
role_allows is_entra (some []) (some role) = true
role_allows is_entra (some (c ∷ s)) (some role) =
    if is_entra then app_role role == (c ∷ s) else true

-- `roles_for` is `rolesForPrincipal`, and `brain_id` the Brain of the process. The names of
-- Object.prototype are no ids of Brains.
unfoldable pub current_grant_allows :
    OauthConfig → (BrainPrincipal → Map Text BrainRole) → Text → Grant → Bool
unfolding is_identity_provider_enabled grant_principal
current_grant_allows config roles_for brain_id g =
    if not (is_identity_provider_enabled config g.provider)
    then false
    else if not config.enforce_current_grants && not (g.provider == codes "entra")
    then true
    else role_allows (g.provider == codes "entra") g.entra_role
        (get brain_id (roles_for (grant_principal g)))
