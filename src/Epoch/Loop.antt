-- ===== src/Epoch/Loop.antt =====
-- The loop of both halves of the epoch check: commands are scheduled for the rows of a query until
-- there are as many as allowed.
use trex_dkg.Prelude.{
  ℕ, ◌≤◌, ◌≡◌, refl, Option, none, some, List, [], ◌∷◌, ◌++◌, length, length-append, leb,
  if◌then◌else◌, arith, dec_le, Bool-cases, inl, inr, false, true,
}
use mathlib.Core.List.{Memᴰ}

abbrev pub to_list {ℓ} : {C : Type ℓ} → Option C → List C
to_list none = []
to_list (some c) = c ∷ []

abbrev pub All {ℓ} : {C : Type ℓ} → (C → Type 0) → List C → Type 0
All P [] = Unit
All P (c ∷ cs) = P c × All P cs

module _ {C : Type 0} (P : C → Type 0) where
  pub All-append : (cs ds : List C) → All P cs → All P ds → All P (cs ++ ds)
  All-append [] ds h k = k
  All-append (c ∷ cs) ds (h, hs) k = (h, All-append cs ds hs k)

  pub All-to_list : (c : Option C) → ((x : C) → c ≡ some x → P x) → All P (to_list c)
  All-to_list none h = tt
  All-to_list (some c) h = (h c refl, tt)

  pub All-Memᴰ : (c : C) (cs : List C) → All P cs → Memᴰ c cs → P c
  All-Memᴰ c [] h i = elim i [ ]
  All-Memᴰ c (d ∷ cs) (h, hs) (Memᴰ.head e) = rw e h
  All-Memᴰ c (d ∷ cs) (h, hs) (Memᴰ.tail i) = All-Memᴰ c cs hs i

  pub All-mono : (Q : C → Type 0) (cs : List C) → ((c : C) → P c → Q c) → All P cs → All Q cs
  All-mono Q [] f h = tt
  All-mono Q (c ∷ cs) f (h, hs) = (f c h, All-mono Q cs f hs)

-- `step` is the body of the `try`, with the command that it adds, if any.
module _ {Row State C : Type 0} (step : Row → State → State × Option C) where
  unfoldable pub schedule : ℕ → List Row → State → List C → State × List C
  schedule max_transactions [] s commands = (s, commands)
  schedule max_transactions (r ∷ rs) s commands =
      if leb max_transactions (length commands)
      then (s, commands)
      else schedule max_transactions rs (step r s).0 (commands ++ to_list (step r s).1)

  length-to_list : (c : Option C) → length (to_list c) ≤ 1
  length-to_list none = omega arith
  length-to_list (some c) = omega arith

  pub length-schedule :
      (max : ℕ) (rs : List Row) (s : State) (cs : List C)
      → length cs ≤ max
      → length (schedule max rs s cs).1 ≤ max
  unfolding schedule
  length-schedule max [] s cs h = h
  length-schedule max (r ∷ rs) s cs h = elim (dec_le max (length cs)) [
    | yes full ↦ let e : leb max (length cs) ≡ true = ground arith in rw e h
    | no room ↦
        let e : leb max (length cs) ≡ false = ground arith in
        rw e (
          length-schedule max rs (step r s).0 (cs ++ to_list (step r s).1)
            (omega (arith, length-append cs (to_list (step r s).1), length-to_list (step r s).1)))
  ]

  -- Whatever holds of each command that a step adds, holds of all.
  module _ (P : C → Type 0) where
    pub schedule-All :
        (max : ℕ) (rs : List Row) (s : State) (cs : List C)
        → ((r : Row) (t : State) (c : C) → Memᴰ r rs → (step r t).1 ≡ some c → P c)
        → All P cs
        → All P (schedule max rs s cs).1
    unfolding schedule
    schedule-All max [] s cs each h = h
    schedule-All max (r ∷ rs) s cs each h = elim (Bool-cases (leb max (length cs))) [
      | inl full ↦ rw full h
      | inr room ↦ rw room (
          schedule-All max rs (step r s).0 (cs ++ to_list (step r s).1)
            (λ r' t c i e. each r' t c (Memᴰ.tail i) e)
            (All-append P cs (to_list (step r s).1) h
              (All-to_list P (step r s).1 (λ c e. each r s c (Memᴰ.head refl) e))))
    ]
