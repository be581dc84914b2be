-- ===== src/Auth/Tests.antt =====
-- A node that accepts a listed address or a token.
use trex_dkg.Prelude.{◌≡◌, ◌↔◌, ◌⊎◌, inl, inr, refl, true, false, none, some, [], ◌∷◌}
use trex_dkg.Auth.{
  AuthConfig, Outside, Request, is_token_valid, on_whitelist, matches_entry, is_ip_whitelisted,
  is_public_operation, authentication_middleware, authorization_middleware, authenticate,
  is_authorized, validate_jwt, is_token_revoked,
}
use trex_dkg.Auth.Listed.{Any, Covers, is_ip_whitelisted_iff}
use trex_dkg.Auth.Access.{IsGood, IsAble, passes, is_token_valid_iff, access_lem, access_needs}
use text.Mathlib.Text.{◌==◌ as str_eq}

abbrev config : AuthConfig
config = record {
  token_based_auth_enabled = true;
  ip_based_auth_enabled = true;
  both_ip_and_token_auth_required = false;
  public_operations = some ("V0/INFO" ∷ []);
  ip_whitelist = "::1" ∷ "127.0.0.1" ∷ [];
}

-- One token, that may only publish.
abbrev outside : Outside
outside = record {
  is_v4_format = λ ip. str_eq ip "127.0.0.1";
  is_v6_format = λ ip. str_eq ip "::1";
  last_four_bytes = λ ip. ip;
  subnet_contains = λ subnet ip. none;
  is_equal = λ a b. some (str_eq a b);
  verify = λ token. some tt;
  jti = λ token. 3;
  token_revoked = λ jti. some false;
  token_abilities = λ jti. "PUBLISH" ∷ [];
}

abbrev request : Request
request = record { operation = some "GET"; ip = "127.0.0.1"; token = some "token" }

token-IsGood : IsGood outside config "token"
token-IsGood = record { filled = refl; verified = refl; live = refl }

is_token_valid_iff_example :
    (is_token_valid outside config (some "token") ≡ true) ↔ IsGood outside config "token"
is_token_valid_iff_example = is_token_valid_iff outside config "token" refl

is_ip_whitelisted_iff_example :
    (is_ip_whitelisted outside config "127.0.0.1" ≡ true)
    ↔ Any (Covers outside config "127.0.0.1") config.ip_whitelist
is_ip_whitelisted_iff_example = is_ip_whitelisted_iff outside config "127.0.0.1" refl

-- The token lacks the ability, and the request is refused.
refused : passes outside config request ≡ false
unfolding passes is_public_operation authentication_middleware authorization_middleware authenticate
    is_ip_whitelisted is_authorized is_token_valid validate_jwt is_token_revoked on_whitelist
    matches_entry
refused = refl

-- Without it, the request passes, as its address is listed.
passed : passes outside config (record request { token = none }) ≡ true
unfolding passes is_public_operation authentication_middleware authorization_middleware authenticate
    is_ip_whitelisted is_authorized is_token_valid on_whitelist matches_entry
passed = refl

abbrev strict : AuthConfig
strict = record config { both_ip_and_token_auth_required = true }

access_lem_example : (passes outside strict request ≡ true) ↔ (
    ((strict.ip_based_auth_enabled ≡ false)
      ⊎ Any (Covers outside strict request.ip) strict.ip_whitelist)
    × ((strict.token_based_auth_enabled ≡ false) ⊎ IsAble outside strict "GET" request.token))
unfolding is_public_operation
access_lem_example = access_lem outside strict request "GET" refl refl (inr (inr refl))

abbrev publishing : Request
publishing = record request { operation = some "PUBLISH" }

access_needs_example :
    Any (Covers outside strict publishing.ip) strict.ip_whitelist
    ⊎ IsAble outside strict "PUBLISH" publishing.token
unfolding is_public_operation passes authentication_middleware authorization_middleware authenticate
    is_ip_whitelisted is_authorized is_token_valid validate_jwt is_token_revoked on_whitelist
    matches_entry
access_needs_example = access_needs outside strict publishing "PUBLISH" refl refl (inl refl) refl
