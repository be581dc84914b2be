-- ===== src/Auth/Listed.antt =====
-- `_isIpWhitelisted` of auth-service.js: which addresses are listed.
use trex_dkg.Prelude.{
  ◌≡◌, ◌↔◌, ◌⊎◌, refl, Bool-cases, inl, inr, String, true, false, some, List, [], ◌∷◌, arith,
}
use text.Mathlib.Text.{starts_with}
use trex_dkg.Auth.{
  has_slash, normalize_ip, AuthConfig, Outside, matches_entry, on_whitelist, is_ip_whitelisted,
}

-- Some entry of a list has a property.
abbrev pub Any {ℓ} : {A : Type ℓ} → (A → Type 0) → List A → Type 0
Any P [] = ⊥
Any P (x ∷ xs) = P x ⊎ Any P xs

module _ (o : Outside) (cfg : AuthConfig) where
  -- An address in the form that a subnet is asked with: one that is mapped into the format of
  -- version 6 is its last four bytes.
  abbrev pub IsNormal : String → String → Type 0
  IsNormal ip normal =
      ((o.is_v4_format ip ≡ false)
        × (o.is_v6_format ip ≡ true)
        × (starts_with "::ffff:" ip ≡ true)
        × (normal ≡ o.last_four_bytes ip))
      ⊎ (((o.is_v4_format ip ≡ true)
            ⊎ (o.is_v6_format ip ≡ false)
            ⊎ (starts_with "::ffff:" ip ≡ false))
          × (normal ≡ ip))

  -- What an entry of the list stands for: with a slash the addresses of a subnet, without one an
  -- address. A call of the address library that throws shows neither.
  abbrev pub Covers : String → String → Type 0
  Covers ip entry =
      ((has_slash entry ≡ true)
        × ((normal : String) × IsNormal ip normal × (o.subnet_contains entry normal ≡ some true)))
      ⊎ ((has_slash entry ≡ false) × (o.is_equal ip entry ≡ some true))

  normalize_ip-IsNormal : (ip : String) → IsNormal ip (normalize_ip o cfg ip)
  unfolding normalize_ip
  normalize_ip-IsNormal ip = ground arith

  IsNormal-normalize_ip : (ip normal : String) → IsNormal ip normal → normal ≡ normalize_ip o cfg ip
  unfolding normalize_ip
  IsNormal-normalize_ip ip normal h = ground arith

  matches_entry-Covers : (ip entry : String) → matches_entry o cfg ip entry ≡ true → Covers ip entry
  unfolding matches_entry
  matches_entry-Covers ip entry h = elim (Bool-cases (has_slash entry)) [
    | inl t ↦ inl (t, (normalize_ip o cfg ip, normalize_ip-IsNormal ip, ground arith))
    | inr f ↦ inr (f, ground arith)
  ]

  Covers-matches_entry : (ip entry : String) → Covers ip entry → matches_entry o cfg ip entry ≡ true
  unfolding matches_entry
  Covers-matches_entry ip entry (inl (t, (normal, n, e))) =
      let asked = rw (IsNormal-normalize_ip ip normal n) at e in ground arith
  Covers-matches_entry ip entry (inr (f, e)) = ground arith

  pub on_whitelist→Any :
      (ip : String) (l : List String) → on_whitelist o cfg ip l ≡ true → Any (Covers ip) l
  unfolding on_whitelist
  on_whitelist→Any ip [] h = cc
  on_whitelist→Any ip (x ∷ l) h = elim (Bool-cases (matches_entry o cfg ip x)) [
    | inl t ↦ inl (matches_entry-Covers ip x t)
    | inr f ↦ inr (on_whitelist→Any ip l (ground arith))
  ]

  pub Any→on_whitelist :
      (ip : String) (l : List String) → Any (Covers ip) l → on_whitelist o cfg ip l ≡ true
  unfolding on_whitelist
  Any→on_whitelist ip [] h = elim h [ ]
  Any→on_whitelist ip (x ∷ l) (inl h) = rw (Covers-matches_entry ip x h) refl
  Any→on_whitelist ip (x ∷ l) (inr h) = ground (arith, Any→on_whitelist ip l h)

  -- With address authentication, an address is whitelisted exactly if some entry of the list covers
  -- it: an entry with a slash is a subnet that has the address, where an address mapped into
  -- version 6 counts as its last four bytes; one without is equal to the address as it came. An
  -- entry on which the address library throws covers nothing and does not end the search.
  pub is_ip_whitelisted_iff :
      (ip : String)
      → cfg.ip_based_auth_enabled ≡ true
      → (is_ip_whitelisted o cfg ip ≡ true) ↔ Any (Covers ip) cfg.ip_whitelist
  unfolding is_ip_whitelisted
  is_ip_whitelisted_iff ip h = (
    λ e. on_whitelist→Any ip cfg.ip_whitelist (ground arith),
    λ a. ground (arith, Any→on_whitelist ip cfg.ip_whitelist a),
  )
