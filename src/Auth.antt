-- ===== src/Auth.antt =====
-- Who may call the HTTP API: ot-node-docker/src/service/auth-service.js, service/util/jwt-util.js
-- and the two middlewares of modules/http-client/implementation/middleware.
pub mod Listed
pub mod Access
mod Tests
use Prim.Native.Char.{code}
use Prim.Native.String.{◌++◌ as str_append}
use text.Mathlib.Text.{◌==◌ as str_eq, starts_with}
use trex_dkg.Prelude.{
  ℕ, String, Bool, true, false, not, Option, none, some, List, [], ◌∷◌, ◌&&◌, ◌||◌, ◌==◌,
  if◌then◌else◌,
}

-- `config.auth`. `publicOperations` may be something else than an array.
pub record AuthConfig : Type 0 where
  pub token_based_auth_enabled : Bool
  pub ip_based_auth_enabled : Bool
  pub both_ip_and_token_auth_required : Bool
  pub public_operations : Option (List String)
  pub ip_whitelist : List String

-- What the service takes from elsewhere: the packages `ip` and `jsonwebtoken`, and the token
-- tables. A call that throws returns `none`; so does the table for a token that it lacks.
pub record Outside : Type 0 where
  pub is_v4_format : String → Bool
  pub is_v6_format : String → Bool
  pub last_four_bytes : String → String  -- `toString(toBuffer(ip).slice(-4))`
  pub subnet_contains : String → String → Option Bool
  pub is_equal : String → String → Option Bool
  pub verify : String → Option (Unit {0})
  pub jti : String → ℕ
  pub token_revoked : ℕ → Option Bool
  pub token_abilities : ℕ → List String

abbrev pub has_slash : String → Bool
has_slash String.[] = false
has_slash (String.◌∷◌ c s) = code c == b'/' || has_slash s

abbrev pub is_blank : String → Bool
is_blank String.[] = true
is_blank (String.◌∷◌ c s) = false

-- `includes`
abbrev pub includes : String → List String → Bool
includes x [] = false
includes x (y ∷ ys) = str_eq x y || includes x ys

-- What a request carries: the operation that the middlewares' pattern finds in the path, the
-- address, and the bearer token.
pub record Request : Type 0 where
  pub operation : Option String
  pub ip : String
  pub token : Option String

module _ (o : Outside) (cfg : AuthConfig) where
  -- `validateJWT`
  unfoldable pub validate_jwt : String → Bool
  validate_jwt token = elim (o.verify token) [ none ↦ false | some _ ↦ true ]

  -- `_isTokenRevoked`: `none` is the `null` of a token that is not in the table.
  unfoldable pub is_token_revoked : String → Option Bool
  is_token_revoked token =
      if not cfg.token_based_auth_enabled then some false else o.token_revoked (o.jti token)

  -- `isRevoked !== null && !isRevoked`
  abbrev pub stands : Option Bool → Bool
  stands none = false
  stands (some revoked) = not revoked

  -- `_isTokenValid`
  unfoldable pub is_token_valid : Option String → Bool
  unfolding validate_jwt is_token_revoked
  is_token_valid none = not cfg.token_based_auth_enabled
  is_token_valid (some token) =
      if not cfg.token_based_auth_enabled
      then true
      else if is_blank token
      then false
      else if not (validate_jwt token)
      then false
      else stands (is_token_revoked token)

  -- `normalizeIp`
  unfoldable pub normalize_ip : String → String
  normalize_ip ip =
      if o.is_v4_format ip
      then ip
      else if o.is_v6_format ip && starts_with "::ffff:" ip
      then o.last_four_bytes ip
      else ip

  -- The body of the loop over the whitelist: an entry that makes a call throw does not match.
  unfoldable pub matches_entry : String → String → Bool
  unfolding normalize_ip
  matches_entry req_ip entry =
      elim (if has_slash entry
        then o.subnet_contains entry (normalize_ip req_ip)
        else o.is_equal req_ip entry) [ none ↦ false | some found ↦ found ]

  unfoldable pub on_whitelist : String → List String → Bool
  on_whitelist req_ip [] = false
  on_whitelist req_ip (entry ∷ entries) =
      if matches_entry req_ip entry then true else on_whitelist req_ip entries

  -- `_isIpWhitelisted`
  unfoldable pub is_ip_whitelisted : String → Bool
  is_ip_whitelisted req_ip =
      if not cfg.ip_based_auth_enabled then true else on_whitelist req_ip cfg.ip_whitelist

  -- `authenticate`
  unfoldable pub authenticate : String → Option String → Bool
  authenticate ip token =
      if cfg.token_based_auth_enabled && cfg.ip_based_auth_enabled
      then (if cfg.both_ip_and_token_auth_required
          then is_ip_whitelisted ip && is_token_valid token
          else is_ip_whitelisted ip || is_token_valid token)
      else is_ip_whitelisted ip && is_token_valid token

  -- `jwtUtil.getPayload(token).jti` of a token that has been found valid.
  abbrev pub abilities_of : Option String → List String
  abilities_of none = []
  abilities_of (some token) = o.token_abilities (o.jti token)

  -- `isAuthorized`
  unfoldable pub is_authorized : Option String → String → Bool
  is_authorized token system_operation =
      if not cfg.token_based_auth_enabled
      then true
      else if not (is_token_valid token)
      then (if not cfg.both_ip_and_token_auth_required && cfg.ip_based_auth_enabled
          then true
          else false)
      else includes system_operation (abilities_of token)

  abbrev some_public : String → List String → Bool
  some_public name [] = false
  some_public name (p ∷ ps) =
      str_eq p (str_append "V0/" name) || str_eq p name || some_public name ps

  abbrev among : String → Option (List String) → Bool
  among name none = false
  among name (some ps) = some_public name ps

  -- `isPublicOperation`
  unfoldable pub is_public_operation : String → Bool
  is_public_operation name = among name cfg.public_operations

  -- The status with which a middleware ends a request, or `none` where it calls `next`.
  -- `authentication-middleware.js`
  unfoldable pub authentication_middleware : Request → Option ℕ
  authentication_middleware r = elim r.operation [
    | none ↦ some 404
    | some operation ↦
        if is_public_operation operation
        then none
        else if not (authenticate r.ip r.token)
        then some 401
        else none
  ]

  -- `authorization-middleware.js`
  unfoldable pub authorization_middleware : Request → Option ℕ
  authorization_middleware r = elim r.operation [
    | none ↦ some 404
    | some operation ↦
        if is_public_operation operation
        then none
        else if not (is_authorized r.token operation)
        then some 403
        else none
  ]
