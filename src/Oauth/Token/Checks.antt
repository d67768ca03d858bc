-- ===== src/Oauth/Token/Checks.antt =====
-- The checks of the token endpoint of src/oauth/token.ts, and what they leave where all pass.
use brain_mcp_server.Prelude.{
  or_empty, or_text, ◌≡◌, refl, ◌≢◌, ◌⊎◌, inl, inr, Bool, true, false, Option, none, some, Text,
  codes, text_eq, option_eq, ◌==◌, if◌then◌else◌, is_empty, arith, Bool-cases, text_beq_iff, ℕ,
  subst, contains, some_inj, sym,
}
use brain_mcp_server.Prelude.Maps.{Map, get}
use brain_mcp_server.Oauth.{
  object_names, own_or, Fields, sweep_expired, get_entry, consumed, consume_once,
}
use brain_mcp_server.Oauth.Pkce.{constant_time_equal, verify_challenge}
use brain_mcp_server.Oauth.Grants.{
  AuthCode, RefreshRecord, Client, OauthConfig, Library, is_resource_match, current_grant_allows,
}
use brain_mcp_server.Oauth.Clients.{
  TokenState, client_fields, code_fields, inherited_code, TokenResponse, TokenAnswer, refused,
  issued, unless, Request, field, requested_client_id, submitted_secret, authenticated, rejected,
  client_checked, authenticate_client,
}
use brain_mcp_server.Oauth.Token.{code_refusal, refresh_refusal}
use brain_mcp_server.Access.{BrainRole, BrainPrincipal}

unless-none :
    (b : Bool) (status : ℕ) (code : Text) {next : Option TokenAnswer}
    → unless b status code next ≡ none
    → (b ≡ true) × (next ≡ none)
unfolding unless
unless-none true status code h = (refl, h)
unless-none false status code h = cc

-- Whatever refuses does not issue.
abbrev pub Refuses : Option TokenAnswer → TokenAnswer → TokenResponse → Type 0
Refuses o a response = o ≡ some a → a ≢ issued response

none-Refuses : {a : TokenAnswer} {response : TokenResponse} → Refuses none a response
none-Refuses h = cc

unless-Refuses :
    (b : Bool) (status : ℕ) (code : Text) {next : Option TokenAnswer} {a : TokenAnswer}
    {response : TokenResponse}
    → Refuses next a response
    → Refuses (unless b status code next) a response
unfolding unless
unless-Refuses true status code f h = f h
unless-Refuses false status code f h = ground arith

-- A consumption gives the entry that is read at that time.
pub consume_once-get_entry :
    {V : Type 0} (fields : Fields V) (now : ℕ) (k : Text) (table : Map Text V)
    → (consume_once fields now k table).0 ≡ get_entry fields now k table
unfolding consume_once get_entry
consume_once-get_entry fields now k table =
    of (own_or (fields.inherits k) (get k (sweep_expired fields now table)))
  where
    of : (o : Option _) → (consumed fields o k (sweep_expired fields now table) table).0 ≡ o
    of none = refl
    of (some value) = refl

-- A code with a redirect URI is the table's own.
pub get_entry-own :
    (now : ℕ) (k : Text) (table : Map Text AuthCode) (code : AuthCode)
    → get_entry code_fields now k table ≡ some code
    → is_empty code.redirect_uri ≡ false
    → get k (sweep_expired code_fields now table) ≡ some code
unfolding get_entry
get_entry-own now k table code h full =
    of (contains k object_names) (get k (sweep_expired code_fields now table)) h
  where
    of :
        (named : Bool) (own : Option AuthCode)
        → own_or (if named then some inherited_code else none) own ≡ some code
        → own ≡ some code
    of true none e =
        let same : inherited_code ≡ code = some_inj e in
        let wrong : is_empty inherited_code.redirect_uri ≡ false =
          subst (λ (x : AuthCode). is_empty x.redirect_uri ≡ false) (sym same) full in
        cc
    of true (some own) e = e
    of false own e = e

-- The client is read under the id of the request, and has shown its secret where it has one. It is
-- registered, or it is what the table inherits under that id.
pub record IsClient (library : Library) (request : Request) (s : TokenState) (client : Client)
    : Type 0 where
  pub registered :
      get_entry client_fields request.now (requested_client_id library request) s.clients
      ≡ some client
  pub secret :
      (client.token_endpoint_auth_method ≡ codes "none")
      ⊎ (constant_time_equal library.utf8
            (submitted_secret library request)
            (or_empty client.client_secret)
          ≡ true)

module _ (library : Library) (request : Request) (s : TokenState) (client : Client) where
  checked-IsClient :
      (found : Option Client)
      → get_entry client_fields request.now (requested_client_id library request) s.clients ≡ found
      → client_checked library request found ≡ authenticated client
      → IsClient library request s client
  checked-IsClient none e h = cc
  checked-IsClient (some c) e h = elim (Bool-cases (c.token_endpoint_auth_method == codes "none")) [
    | inl n ↦
        let same : c ≡ client = of (rw n at h) in
        subst (IsClient library request s) same (record {
          registered = e;
          secret = inl ((text_beq_iff c.token_endpoint_auth_method (codes "none")).0 n);
        })
    | inr n ↦
        elim (Bool-cases (
          constant_time_equal library.utf8 (submitted_secret library request)
            (or_empty c.client_secret))) [
              | inl q ↦
                  let same : c ≡ client = of (rw (n, q) at h) in
                  subst (IsClient library request s) same
                    (record { registered = e; secret = inr q })
              | inr q ↦ ground (arith, h, n, q)
            ]
  ]
    where
      of : {a b : Client} → authenticated a ≡ authenticated b → a ≡ b
      of p = cc

  pub authenticate_client-IsClient :
      authenticate_client library request s ≡ authenticated client
      → IsClient library request s client
  unfolding authenticate_client
  authenticate_client-IsClient h =
      elim (Bool-cases (is_empty (requested_client_id library request))) [
        | inl e ↦ ground (arith, h, e)
        | inr e ↦
            checked-IsClient
              (get_entry client_fields request.now (requested_client_id library request) s.clients)
              refl (rw e at h)
      ]

pub rejected-refuses :
    (library : Library) (request : Request) (s : TokenState) (answer : TokenAnswer)
    (response : TokenResponse)
    → authenticate_client library request s ≡ rejected answer
    → answer ≢ issued response
unfolding authenticate_client
rejected-refuses library request s answer response h =
    of (get_entry client_fields request.now (requested_client_id library request) s.clients) h
  where
    of :
        (o : Option Client)
        → (if is_empty (requested_client_id library request)
            then rejected (refused 401 (codes "invalid_client"))
            else client_checked library request o)
          ≡ rejected answer
        → answer ≢ issued response
    of none h = ground arith
    of (some c) h = ground arith

module _ (library : Library) (config : OauthConfig)
    (roles_for : BrainPrincipal → Map Text BrainRole) (brain_id : Text) (request : Request)
    (client : Client) where
  -- The checks that no refusal leaves open.
  pub code_refusal-none :
      (code : AuthCode)
      → code_refusal library config roles_for brain_id request client code ≡ none
      → (code.grant.client_id ≡ client.client_id)
        × (code.redirect_uri ≡ field request (codes "redirect_uri"))
        × (verify_challenge library.utf8 library.sha256_base64url
              (field request (codes "code_verifier"))
              code.code_challenge
              code.code_challenge_method
            ≡ true)
        × (is_resource_match library
              (or_text (field request (codes "resource")) code.grant.resource)
              config.resource_uri
            ≡ true)
        × (current_grant_allows config roles_for brain_id code.grant ≡ true)
  unfolding code_refusal
  code_refusal-none code h =
      let (owner, h) = unless-none _ _ _ h in
      let (redirect, h) = unless-none _ _ _ h in
      let (proof_key, h) = unless-none _ _ _ h in
      let (some_resource, h) = unless-none _ _ _ h in
      let (bound, h) = unless-none _ _ _ h in
      let (audience, h) = unless-none _ _ _ h in
      let (allowed, h) = unless-none _ _ _ h in
      ((text_beq_iff _ _).0 owner, (text_beq_iff _ _).0 redirect, proof_key, audience, allowed)

  pub refresh_refusal-none :
      (r : RefreshRecord)
      → refresh_refusal library config roles_for brain_id request client r ≡ none
      → (r.grant.client_id ≡ client.client_id)
        × (current_grant_allows config roles_for brain_id r.grant ≡ true)
  unfolding refresh_refusal
  refresh_refusal-none r h =
      let (owner, h) = unless-none _ _ _ h in
      let (bound, h) = unless-none _ _ _ h in
      let (allowed, h) = unless-none _ _ _ h in ((text_beq_iff _ _).0 owner, allowed)

  pub issued-inj : {a b : TokenResponse} → issued a ≡ issued b → a ≡ b
  issued-inj h = cc

  pub refusal-code :
      (code : AuthCode) (a : TokenAnswer) (response : TokenResponse)
      → code_refusal library config roles_for brain_id request client code ≡ some a
      → a ≢ issued response
  unfolding code_refusal
  refusal-code code a response = unless-Refuses _ _ _ (
      unless-Refuses _ _ _ (
        unless-Refuses _ _ _ (
          unless-Refuses _ _ _
            (unless-Refuses _ _ _ (unless-Refuses _ _ _ (unless-Refuses _ _ _ none-Refuses))))))

  pub refusal-refresh :
      (r : RefreshRecord) (a : TokenAnswer) (response : TokenResponse)
      → refresh_refusal library config roles_for brain_id request client r ≡ some a
      → a ≢ issued response
  unfolding refresh_refusal
  refusal-refresh r a response =
      unless-Refuses _ _ _ (unless-Refuses _ _ _ (unless-Refuses _ _ _ none-Refuses))
