-- ===== src/Auth/Access.antt =====
-- What a request that passes both middlewares has shown.
use trex_dkg.Prelude.{
  ◌≡◌, ◌↔◌, ◌⊎◌, refl, sym, ◌∙◌, Bool-cases, inl, inr, String, Bool, true, false, Option, none,
  some, ◌&&◌, if◌then◌else◌, arith,
}
use trex_dkg.Auth.Listed.{Any, Covers, on_whitelist→Any, Any→on_whitelist}
use trex_dkg.Auth.{
  AuthConfig, Outside, Request, is_blank, includes, is_token_valid, on_whitelist, is_ip_whitelisted,
  authenticate, is_authorized, abilities_of, is_public_operation, authentication_middleware,
  authorization_middleware,
}

module _ (o : Outside) (cfg : AuthConfig) where
  -- A token that has not expired or been tampered with, is known and is not revoked.
  pub record IsGood (t : String) : Type 0 where
    pub filled : is_blank t ≡ false
    pub verified : o.verify t ≡ some tt
    pub live : o.token_revoked (o.jti t) ≡ some false

  -- With token authentication, a token is valid exactly if it is not blank, its signature and
  -- expiry are verified, and the token table has it as not revoked.
  pub is_token_valid_iff :
      (t : String)
      → cfg.token_based_auth_enabled ≡ true
      → (is_token_valid o cfg (some t) ≡ true) ↔ IsGood t
  unfolding is_token_valid
  is_token_valid_iff t h = (λ e. ground arith, λ g. ground arith)

  valid_without_tokens :
      (token : Option String)
      → cfg.token_based_auth_enabled ≡ false
      → is_token_valid o cfg token ≡ true
  unfolding is_token_valid
  valid_without_tokens none h = ground arith
  valid_without_tokens (some t) h = ground arith

  unfoldable pub passes : Request → Bool
  passes r = elim (authentication_middleware o cfg r) [
    | some status ↦ false
    | none ↦ elim (authorization_middleware o cfg r) [ some status ↦ false | none ↦ true ]
  ]

  -- The token is good and has the ability.
  abbrev pub IsAble : String → Option String → Type 0
  IsAble operation token =
      (t : String) × (token ≡ some t)
      × IsGood t
      × (includes operation (o.token_abilities (o.jti t)) ≡ true)

  abbrev shown : Option String → String → Bool
  shown token operation =
      is_token_valid o cfg token && includes operation (abilities_of o cfg token)

  able_shown :
      (operation t : String) (u : String)
      → cfg.token_based_auth_enabled ≡ true
      → some t ≡ some u
      → IsGood u
      → includes operation (o.token_abilities (o.jti u)) ≡ true
      → shown (some t) operation ≡ true
  able_shown operation t u on same good able =
      let valid = (is_token_valid_iff u on).1 good in ground arith

  shown_iff :
      (operation : String) (token : Option String)
      → cfg.token_based_auth_enabled ≡ true
      → (shown token operation ≡ true) ↔ IsAble operation token
  shown_iff operation none on = (λ e. ground arith, λ g. absurd (cc g.1))
  shown_iff operation (some t) on = (
    λ e. (t, refl, (is_token_valid_iff t on).0 (ground arith), ground arith),
    λ g. able_shown operation t g.0 on g.1 g.2 g.3,
  )

  -- What lets a request through, by how the node is configured.
  abbrev granted : Bool → Bool → Bool → Bool → Bool → Bool → Bool
  granted true true true listed valid able = listed && valid && able
  granted true true false listed valid able = if valid then able else listed
  granted true false both listed valid able = valid && able
  granted false true both listed valid able = listed
  granted false false both listed valid able = true

  passes-granted :
      (r : Request) (operation : String)
      → r.operation ≡ some operation
      → is_public_operation o cfg operation ≡ false
      → passes r
        ≡ granted cfg.token_based_auth_enabled cfg.ip_based_auth_enabled
            cfg.both_ip_and_token_auth_required
            (on_whitelist o cfg r.ip cfg.ip_whitelist)
            (is_token_valid o cfg r.token)
            (includes operation (abilities_of o cfg r.token))
  unfolding passes authentication_middleware authorization_middleware authenticate is_authorized
      is_ip_whitelisted
  passes-granted r operation e p = ground (arith, valid_without_tokens r.token)

  granted_all :
      (tok ip both listed valid able : Bool)
      → (tok ≡ false) ⊎ (ip ≡ false) ⊎ (both ≡ true)
      → (granted tok ip both listed valid able ≡ true)
        ↔ (((ip ≡ false) ⊎ (listed ≡ true)) × ((tok ≡ false) ⊎ (valid && able ≡ true)))
  granted_all true true true listed valid able h = (λ e. ground arith, λ g. ground arith)
  granted_all true true false listed valid able h = absurd (ground arith)
  granted_all true false both listed valid able h = (λ e. ground arith, λ g. ground arith)
  granted_all false true both listed valid able h = (λ e. ground arith, λ g. ground arith)
  granted_all false false both listed valid able h = (λ e. ground arith, λ g. refl)

  granted_some :
      (tok ip both listed valid able : Bool)
      → (tok ≡ true) ⊎ (ip ≡ true)
      → granted tok ip both listed valid able ≡ true
      → (listed ≡ true) ⊎ ((tok ≡ true) × (valid && able ≡ true))
  granted_some true true true listed valid able h g = inl (ground arith)
  granted_some true true false listed true able h g = inr (refl, ground arith)
  granted_some true true false listed false able h g = inl (ground arith)
  granted_some true false both listed valid able h g = inr (refl, ground arith)
  granted_some false true both listed valid able h g = inl (ground arith)
  granted_some false false both listed valid able h g = absurd (ground arith)

  whitelisted :
      (r : Request)
      → (cfg.ip_based_auth_enabled ≡ false) ⊎ (on_whitelist o cfg r.ip cfg.ip_whitelist ≡ true)
      → (cfg.ip_based_auth_enabled ≡ false) ⊎ Any (Covers o cfg r.ip) cfg.ip_whitelist
  whitelisted r (inl off) = inl off
  whitelisted r (inr l) = inr (on_whitelist→Any o cfg r.ip cfg.ip_whitelist l)

  listed_if :
      (r : Request)
      → (cfg.ip_based_auth_enabled ≡ false) ⊎ Any (Covers o cfg r.ip) cfg.ip_whitelist
      → (cfg.ip_based_auth_enabled ≡ false) ⊎ (on_whitelist o cfg r.ip cfg.ip_whitelist ≡ true)
  listed_if r (inl off) = inl off
  listed_if r (inr l) = inr (Any→on_whitelist o cfg r.ip cfg.ip_whitelist l)

  shown-IsAble :
      (r : Request) (operation : String)
      → (cfg.token_based_auth_enabled ≡ false) ⊎ (shown r.token operation ≡ true)
      → (cfg.token_based_auth_enabled ≡ false) ⊎ IsAble operation r.token
  shown-IsAble r operation (inl off) = inl off
  shown-IsAble r operation (inr u) = elim (Bool-cases cfg.token_based_auth_enabled) [
    | inl on ↦ inr ((shown_iff operation r.token on).0 u)
    | inr off ↦ inl off
  ]

  shown_if :
      (r : Request) (operation : String)
      → (cfg.token_based_auth_enabled ≡ false) ⊎ IsAble operation r.token
      → (cfg.token_based_auth_enabled ≡ false) ⊎ (shown r.token operation ≡ true)
  shown_if r operation (inl off) = inl off
  shown_if r operation (inr a) = elim (Bool-cases cfg.token_based_auth_enabled) [
    | inl on ↦ inr ((shown_iff operation r.token on).1 a)
    | inr off ↦ inl off
  ]

  -- Unless both methods are enabled and either is enough, a request for an operation that is not
  -- public passes both middlewares exactly if it meets each method that is enabled: with address
  -- authentication, an entry of the whitelist covers its address; with token authentication, it has
  -- a token that is not blank, is verified, is known and not revoked, and has the ability.
  pub access_lem :
      (r : Request) (operation : String)
      → r.operation ≡ some operation
      → is_public_operation o cfg operation ≡ false
      → (cfg.token_based_auth_enabled ≡ false)
        ⊎ (cfg.ip_based_auth_enabled ≡ false)
        ⊎ (cfg.both_ip_and_token_auth_required ≡ true)
      → (passes r ≡ true) ↔ (
          ((cfg.ip_based_auth_enabled ≡ false) ⊎ Any (Covers o cfg r.ip) cfg.ip_whitelist)
          × ((cfg.token_based_auth_enabled ≡ false) ⊎ IsAble operation r.token))
  access_lem r operation e p h =
      let same = passes-granted r operation e p in
      let all =
        granted_all cfg.token_based_auth_enabled cfg.ip_based_auth_enabled
          cfg.both_ip_and_token_auth_required (on_whitelist o cfg r.ip cfg.ip_whitelist)
          (is_token_valid o cfg r.token) (includes operation (abilities_of o cfg r.token)) h in
      (
        λ g. let (i, t) = all.0 (sym same ∙ g) in (whitelisted r i, shown-IsAble r operation t),
        λ g. same ∙ all.1 (listed_if r g.0, shown_if r operation g.1),
      )

  -- With either method enabled, in any configuration, a request for an operation that is not public
  -- and passes both middlewares has an address that an entry of the whitelist covers, or a token
  -- that is not blank, is verified, is known and not revoked, and has the ability.
  pub access_needs :
      (r : Request) (operation : String)
      → r.operation ≡ some operation
      → is_public_operation o cfg operation ≡ false
      → (cfg.token_based_auth_enabled ≡ true) ⊎ (cfg.ip_based_auth_enabled ≡ true)
      → passes r ≡ true
      → Any (Covers o cfg r.ip) cfg.ip_whitelist ⊎ IsAble operation r.token
  access_needs r operation e p h g =
      let same = passes-granted r operation e p in
      elim (granted_some cfg.token_based_auth_enabled cfg.ip_based_auth_enabled
        cfg.both_ip_and_token_auth_required (on_whitelist o cfg r.ip cfg.ip_whitelist)
        (is_token_valid o cfg r.token) (includes operation (abilities_of o cfg r.token)) h
        (sym same ∙ g)) [
          | inl l ↦ inl (on_whitelist→Any o cfg r.ip cfg.ip_whitelist l)
          | inr (t, u) ↦ inr ((shown_iff operation r.token t).0 u)
        ]
