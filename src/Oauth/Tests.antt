-- ===== src/Oauth/Tests.antt =====
-- Runs of src/oauth/state.ts on concrete inputs.
use brain_mcp_server.Prelude.{
  ℕ, ◌≡◌, refl, ◌≤◌, false, none, some, [], ◌∷◌, Text, text_eq, text_beq, codes,
}
use brain_mcp_server.Prelude.Maps.{remove, Map, get}
use brain_mcp_server.Oauth.{
  inherited_by, Fields, RegistrationLimits, is_expired, sweep_expired, consume_once,
  register_client,
}
use brain_mcp_server.Oauth.Once.{
  consumptions, successes, successes-consumptions_le, consume_once-IsFresh,
}
use brain_mcp_server.Oauth.Limits.{Registered, register_client-Registered}

-- Values that are their own times of expiry.
abbrev times : Fields ℕ
times = record { inherits = inherited_by 7; expires_at = λ t. some t; client_id_issued_at = λ t. t }

abbrev one_code : Map Text ℕ
one_code = (codes "k", 9) ∷ []

plain : times.inherits (codes "k") ≡ none
unfolding text_beq
plain = refl

-- An inherited key gives a value every time.
consumed_twice : successes (consumptions times (codes "constructor") (5 ∷ 6 ∷ []) one_code) ≡ 2
unfolding consume_once sweep_expired get text_beq remove
consumed_twice = refl

successes-consumptions_le_example :
    successes (consumptions times (codes "k") (5 ∷ 6 ∷ []) one_code) ≤ 1
successes-consumptions_le_example =
    successes-consumptions_le times (codes "k") plain (5 ∷ 6 ∷ []) one_code

consumed_test : (consume_once times 5 (codes "k") one_code).0 ≡ some 9
unfolding consume_once sweep_expired get text_beq
consumed_test = refl

consume_once-IsFresh_example :
    (is_expired times 5 9 ≡ false)
    × (get (codes "k") (consume_once times 5 (codes "k") one_code).1 ≡ none)
consume_once-IsFresh_example =
    consume_once-IsFresh times (codes "k") plain 5 one_code 9 consumed_test

abbrev limits : RegistrationLimits
limits = record { maximum_clients = 2; per_hour = 2 }

register_client-Registered_example :
    Registered limits (codes "n") 8 one_code (register_client times 5 (codes "n") 8 limits one_code)
register_client-Registered_example =
    register_client-Registered times 5 (codes "n") 8 limits one_code
