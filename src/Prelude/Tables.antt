-- ===== src/Prelude/Tables.antt =====
-- An object used as a dictionary, and a table with one row for each key. Keys are only compared,
-- so they are numbers.
use Prim.Native.Nat.{ℕ}
use mathlib.Core.Path.{◌≡◌, refl}
use mathlib.Core.Logic.{◌≢◌}
use mathlib.Core.List.{List, [], ◌∷◌}
use mathlib.Core.Bool.{Bool, true, false, ◌&&◌}
use mathlib.Core.Option.{Option, none, some}
use native.Mathlib.Omega.{arith}
use trex_dkg.Prelude.Tests.{◌==◌, if◌then◌else◌}

abbrev pub Dict {ℓ} : Type ℓ → Type ℓ
Dict V = List (ℕ × V)

module _ {ℓ} {V : Type ℓ} where
  abbrev pub lookup : ℕ → Dict V → Option V
  lookup k [] = none
  lookup k ((j, v) ∷ d) = if j == k then some v else lookup k d

  -- `d[k] = v`
  abbrev pub insert : ℕ → V → Dict V → Dict V
  insert k v [] = (k, v) ∷ []
  insert k v ((j, w) ∷ d) = if j == k then (k, v) ∷ d else (j, w) ∷ insert k v d

  -- `delete d[k]`
  abbrev pub erase : ℕ → Dict V → Dict V
  erase k [] = []
  erase k ((j, w) ∷ d) = let rest = erase k d in if j == k then rest else (j, w) ∷ rest

  -- `UPDATE … WHERE key = k`: a missing row stays missing.
  abbrev pub modify : ℕ → (V → V) → Dict V → Dict V
  modify k f [] = []
  modify k f ((j, w) ∷ d) = (j, if j == k then f w else w) ∷ modify k f d

  pub lookup-insert :
      (k j : ℕ) (v : V) (d : Dict V)
      → lookup j (insert k v d) ≡ (if k == j then some v else lookup j d)
  lookup-insert k j v [] = refl
  lookup-insert k j v ((i, w) ∷ d) = ground (arith, lookup-insert k j v d)

  pub lookup-erase :
      (k j : ℕ) (d : Dict V) → lookup j (erase k d) ≡ (if k == j then none else lookup j d)
  lookup-erase k j [] = ground arith
  lookup-erase k j ((i, w) ∷ d) = ground (arith, lookup-erase k j d)

  pub lookup-insert_self : (k : ℕ) (v : V) (d : Dict V) → lookup k (insert k v d) ≡ some v
  lookup-insert_self k v d = ground (arith, lookup-insert k k v d)

  pub lookup-insert_ne :
      (k j : ℕ) (v : V) (d : Dict V) → k ≢ j → lookup j (insert k v d) ≡ lookup j d
  lookup-insert_ne k j v d h = ground (arith, lookup-insert k j v d)

  pub lookup-erase_ne : (k j : ℕ) (d : Dict V) → k ≢ j → lookup j (erase k d) ≡ lookup j d
  lookup-erase_ne k j d h = ground (arith, lookup-erase k j d)

  -- What is in a row that may be missing, after `f`.
  abbrev pub change : (V → V) → Option V → Option V
  change f none = none
  change f (some v) = some (f v)

  pub lookup-modify :
      (k j : ℕ) (f : V → V) (d : Dict V)
      → lookup j (modify k f d) ≡ (if k == j then change f (lookup j d) else lookup j d)
  lookup-modify k j f [] = ground arith
  lookup-modify k j f ((i, w) ∷ d) = ground (arith, lookup-modify k j f d)

  pub lookup-modify_self :
      (k : ℕ) (f : V → V) (d : Dict V) {v : V}
      → lookup k d ≡ some v
      → lookup k (modify k f d) ≡ some (f v)
  lookup-modify_self k f d h = ground (arith, lookup-modify k k f d)

  abbrev pub is_none : Option V → Bool
  is_none none = true
  is_none (some v) = false

  -- Each key occurs once.
  abbrev pub distinct : Dict V → Bool
  distinct [] = true
  distinct ((k, v) ∷ d) = let rest = distinct d in is_none (lookup k d) && rest

  pub distinct-insert :
      (k : ℕ) (v : V) (d : Dict V) → distinct d ≡ true → distinct (insert k v d) ≡ true
  distinct-insert k v [] h = refl
  distinct-insert k v ((j, w) ∷ d) h = ground (arith, distinct-insert k v d, lookup-insert k j v d)

  pub distinct-erase : (k : ℕ) (d : Dict V) → distinct d ≡ true → distinct (erase k d) ≡ true
  distinct-erase k [] h = refl
  distinct-erase k ((j, w) ∷ d) h = ground (arith, distinct-erase k d, lookup-erase k j d)
