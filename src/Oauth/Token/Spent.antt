-- ===== src/Oauth/Token/Spent.antt =====
-- An authorization code is exchanged at most once, whatever requests reach src/oauth/token.ts.
use brain_mcp_server.Prelude.{
  ℕ, ◌+◌, ◌≤◌, ◌≡◌, refl, ◌⊎◌, inl, inr, Bool, true, false, ◌||◌, ◌&&◌, Option, none, some, List,
  [], ◌∷◌, Text, codes, text_eq, ◌==◌, if◌then◌else◌, is_empty, arith, Bool-cases, text_beq_iff,
}
use brain_mcp_server.Prelude.Maps.{Map, get, get-remove}
use brain_mcp_server.Oauth.{own_or, Fields, sweep_expired, consumed, consume_once}
use brain_mcp_server.Oauth.Once.{get-sweep_none, get-remove_self}
use brain_mcp_server.Oauth.Grants.{AuthCode, RefreshRecord, Client, OauthConfig, Library}
use brain_mcp_server.Oauth.Clients.{
  TokenState, code_fields, refresh_fields, TokenAnswer, refused, issued, Request, field,
  submitted_hash, Authentication, authenticated, rejected, authenticate_client,
}
use brain_mcp_server.Oauth.Token.{
  code_refusal, code_checked, code_consumed, authorization_code_grant, refresh_refusal,
  refresh_checked, refresh_consumed, refresh_token_grant, dispatched, handle_token,
}
use brain_mcp_server.Oauth.Token.Answers.{for_code, for_token, handle_token-IsIssued}
use brain_mcp_server.Oauth.Token.Checks.{rejected-refuses}
use brain_mcp_server.Access.{BrainRole, BrainPrincipal}

abbrev pub is_issued : TokenAnswer → Bool
is_issued (refused status code) = false
is_issued (issued response) = true

consume_once-none :
    {V : Type 0} (fields : Fields V) (now : ℕ) (j k : Text) (table : Map Text V)
    → get k table ≡ none
    → get k (consume_once fields now j table).1 ≡ none
unfolding consume_once
consume_once-none fields now j k table h =
    of (own_or (fields.inherits j) (get j (sweep_expired fields now table)))
      (get-sweep_none fields k now table h)
  where
    of :
        (o : Option _)
        → get k (sweep_expired fields now table) ≡ none
        → get k (consumed fields o j (sweep_expired fields now table) table).1 ≡ none
    of none e = h
    of (some value) e = ground (arith, get-remove j k (sweep_expired fields now table))

-- What was consumed is gone.
consume_once-spent :
    {V : Type 0} (fields : Fields V) (now : ℕ) (k : Text) (table : Map Text V) (value : V)
    → (consume_once fields now k table).0 ≡ some value
    → get k (consume_once fields now k table).1 ≡ none
unfolding consume_once
consume_once-spent fields now k table value h =
    of (own_or (fields.inherits k) (get k (sweep_expired fields now table))) h
  where
    of :
        (o : Option _)
        → (consumed fields o k (sweep_expired fields now table) table).0 ≡ some value
        → get k (consumed fields o k (sweep_expired fields now table) table).1 ≡ none
    of none e = cc
    of (some v) e = get-remove_self fields k (sweep_expired fields now table)

module _ (library : Library) (config : OauthConfig)
    (roles_for : BrainPrincipal → Map Text BrainRole) (brain_id : Text) where
  abbrev exchanged : Request → Client → TokenState → TokenAnswer × TokenState
  exchanged = authorization_code_grant library config roles_for brain_id

  module _ (request : Request) (client : Client) (s : TokenState) where
    codes-code_checked :
        (code : AuthCode) (left : Map Text AuthCode) (refusal : Option TokenAnswer)
        → (code_checked library config roles_for brain_id request client code
            (record s { auth_codes = left })
            refusal).1.auth_codes
          ≡ left
    codes-code_checked code left none = refl
    codes-code_checked code left (some a) = refl

    -- Apart from a consumption, the grant of a code leaves the codes alone.
    codes-authorization_code_grant :
        ((exchanged request client s).1.auth_codes ≡ s.auth_codes)
        ⊎ ((exchanged request client s).1.auth_codes
            ≡ (consume_once code_fields request.now (field request (codes "code")) s.auth_codes).1)
    unfolding authorization_code_grant
    codes-authorization_code_grant =
        elim (Bool-cases (
          is_empty (field request (codes "code"))
          || is_empty (field request (codes "redirect_uri"))
          || is_empty (field request (codes "code_verifier")))) [
            | inl e ↦ inl (rw e refl)
            | inr e ↦ inr (
                rw e (
                  of (
                    consume_once code_fields request.now (field request (codes "code"))
                      s.auth_codes)))
          ]
      where
        of :
            (c : Option AuthCode × Map Text AuthCode)
            → (code_consumed library config roles_for brain_id request client s c).1.auth_codes
              ≡ c.1
        of (none, left) = refl
        of (some code, left) =
            codes-code_checked code left
              (code_refusal library config roles_for brain_id request client code)

    codes-refresh_token_grant :
        (refresh_token_grant library config roles_for brain_id request client s).1.auth_codes
        ≡ s.auth_codes
    unfolding refresh_token_grant
    codes-refresh_token_grant =
        elim (Bool-cases (is_empty (field request (codes "refresh_token")))) [
          | inl e ↦ rw e refl
          | inr e ↦ rw e (
              of (
                consume_once refresh_fields request.now (submitted_hash library request)
                  s.refresh_tokens))
        ]
      where
        checked :
            (r : RefreshRecord) (left : Map Text RefreshRecord) (refusal : Option TokenAnswer)
            → (refresh_checked library config roles_for brain_id request client
                (submitted_hash library request)
                r
                (record s { refresh_tokens = left })
                refusal).1.auth_codes
              ≡ s.auth_codes
        checked r left none = refl
        checked r left (some a) = refl

        of :
            (c : Option RefreshRecord × Map Text RefreshRecord)
            → (refresh_consumed library config roles_for brain_id request client
                (submitted_hash library request)
                s
                c).1.auth_codes
              ≡ s.auth_codes
        of (none, left) = refl
        of (some r, left) =
            checked r left (refresh_refusal library config roles_for brain_id request client r)

    -- An exchange that issues tokens consumes its code.
    exchanged-spent :
        is_issued (exchanged request client s).0 ≡ true
        → get (field request (codes "code")) (exchanged request client s).1.auth_codes ≡ none
    unfolding authorization_code_grant
    exchanged-spent h =
        elim (Bool-cases (
          is_empty (field request (codes "code"))
          || is_empty (field request (codes "redirect_uri"))
          || is_empty (field request (codes "code_verifier")))) [
            | inl e ↦ ground (arith, h, e)
            | inr e ↦ rw e (
                of
                  (consume_once code_fields request.now (field request (codes "code")) s.auth_codes)
                  (consume_once-spent code_fields request.now (field request (codes "code"))
                    s.auth_codes)
                  (rw e at h))
          ]
      where
        of :
            (c : Option AuthCode × Map Text AuthCode)
            → ((code : AuthCode) → c.0 ≡ some code → get (field request (codes "code")) c.1 ≡ none)
            → is_issued (code_consumed library config roles_for brain_id request client s c).0
              ≡ true
            → get
                (field request (codes "code"))
                (code_consumed library config roles_for brain_id request client s c).1.auth_codes
              ≡ none
        of (none, left) f i = cc
        of (some code, left) f i =
            rw
              (codes-code_checked code left
                (code_refusal library config roles_for brain_id request client code))
              (f code refl)

  abbrev pub handled : Request → TokenState → TokenAnswer × TokenState
  handled = handle_token library config roles_for brain_id

  -- A code that is not there does not come back.
  codes-handle_token :
      (k : Text) (request : Request) (s : TokenState)
      → get k s.auth_codes ≡ none
      → get k (handled request s).1.auth_codes ≡ none
  unfolding handle_token
  codes-handle_token k request s h = of (authenticate_client library request s)
    where
      by_code : (client : Client) → get k (exchanged request client s).1.auth_codes ≡ none
      by_code client = elim (codes-authorization_code_grant request client s) [
        | inl e ↦ rw e h
        | inr e ↦ rw e (
            consume_once-none code_fields request.now (field request (codes "code")) k s.auth_codes
              h)
      ]

      of :
          (a : Authentication)
          → get k (dispatched library config roles_for brain_id request s a).1.auth_codes ≡ none
      of (rejected answer) = h
      of (authenticated client) =
          ground (arith, by_code client, codes-refresh_token_grant request client s, h)

  abbrev is_exchange : Text → Request → Bool
  is_exchange k request =
      field request (codes "grant_type") == codes "authorization_code"
      && field request (codes "code") == k

  -- How many of the requests, handled in turn, get tokens for the code `k`.
  abbrev pub exchanges : Text → List Request → TokenState → ℕ
  exchanges k [] s = 0
  exchanges k (request ∷ requests) s =
      (if is_exchange k request && is_issued (handled request s).0 then 1 else 0)
      + exchanges k requests (handled request s).1

  issued-stored :
      (k : Text) (request : Request) (s : TokenState)
      → is_exchange k request ≡ true
      → get k s.auth_codes ≡ none
      → is_issued (handled request s).0 ≡ false
  issued-stored k request s x h = of (handled request s).0 refl
    where
      of : (a : TokenAnswer) → (handled request s).0 ≡ a → is_issued a ≡ false
      of (refused status code) e = refl
      of (issued response) e =
          elim (handle_token-IsIssued library config roles_for brain_id request s response e) [
            | for_code client code known i q ↦ absurd (
                ground (
                  arith,
                  i.stored,
                  x,
                  text_beq_iff (field request (codes "code")) k,
                  get-sweep_none code_fields k request.now s.auth_codes h,
                ))
            | for_token client r known i q ↦ absurd (
                ground (
                  arith,
                  i.kind,
                  x,
                  text_beq_iff (field request (codes "grant_type")) (codes "authorization_code"),
                ))
          ]

  no_exchanges :
      (k : Text) (requests : List Request) (s : TokenState)
      → get k s.auth_codes ≡ none
      → exchanges k requests s ≡ 0
  no_exchanges k [] s h = refl
  no_exchanges k (request ∷ requests) s h = ground (
    arith,
    issued-stored k request s,
    no_exchanges k requests (handled request s).1 (codes-handle_token k request s h),
  )

  issued-spent :
      (k : Text) (request : Request) (s : TokenState)
      → is_exchange k request ≡ true
      → is_issued (handled request s).0 ≡ true
      → get k (handled request s).1.auth_codes ≡ none
  unfolding handle_token
  issued-spent k request s x = of (authenticate_client library request s) refl
    where
      of :
          (a : Authentication)
          → authenticate_client library request s ≡ a
          → is_issued (dispatched library config roles_for brain_id request s a).0 ≡ true
          → get k (dispatched library config roles_for brain_id request s a).1.auth_codes ≡ none
      of (rejected (refused status code)) e i = cc
      of (rejected (issued response)) e i =
          absurd (rejected-refuses library request s _ response e refl)
      of (authenticated client) e i = ground (
        arith,
        x,
        exchanged-spent request client s,
        text_beq_iff (field request (codes "code")) k,
      )

  -- Of any sequence of requests, whatever clients send them and at whatever times, at most one gets tokens for
  -- a given authorization code.
  pub exchanges_le :
      (k : Text) (requests : List Request) (s : TokenState) → exchanges k requests s ≤ 1
  exchanges_le k [] s = omega arith
  exchanges_le k (request ∷ requests) s = ground (
    arith,
    exchanges_le k requests (handled request s).1,
    no_exchanges k requests (handled request s).1,
    issued-spent k request s,
  )
