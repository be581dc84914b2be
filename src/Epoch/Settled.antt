-- ===== src/Epoch/Settled.antt =====
-- What a step of the loop writes for a command stays written.
use trex_dkg.Prelude.{
  ℕ, ◌≡◌, ◌≢◌, Bool, true, not, ◌&&◌, Option, some, List, [], ◌∷◌, ◌++◌, length, leb, ◌==◌, arith,
  Bool-cases, inl, inr,
}
use trex_dkg.Epoch.Loop.{to_list, schedule, All, All-append, All-to_list, All-mono}
use trex_dkg.Epoch.Data.{Due}

-- No row of the query is of an agreement; no two are of the same one.
abbrev pub lacks : ℕ → List Due → Bool
lacks id [] = true
lacks id (r ∷ rs) = let rest = lacks id rs in not (r.agreement.agreement_id == id) && rest

abbrev pub have_distinct_ids : List Due → Bool
have_distinct_ids [] = true
have_distinct_ids (r ∷ rs) =
    let rest = have_distinct_ids rs in lacks r.agreement.agreement_id rs && rest

-- The body of the loop; the agreement of a command; and that the table has what is written for it.
module _ {T C : Type 0} (step : Due → T → T × Option C) (id_of : C → ℕ)
    (Written : T → C → Type 0) where
  abbrev Settled : T → List Due → C → Type 0
  Settled t rs c = Written t c × (lacks (id_of c) rs ≡ true)

  pub schedule-Written :
      ((r : Due) (t : T) (c : C)
        → r.agreement.agreement_id ≢ id_of c
        → Written t c
        → Written (step r t).0 c)
      → ((r : Due) (t : T) (c : C)
          → (step r t).1 ≡ some c
          → Written (step r t).0 c × (id_of c ≡ r.agreement.agreement_id))
      → (max : ℕ) (rs : List Due) (t : T) (cs : List C) → have_distinct_ids rs ≡ true
      → All (Settled t rs) cs
      → let out = schedule step max rs t cs in All (Written out.0) out.1
  unfolding schedule
  schedule-Written keep new max [] t cs d h = All-mono (Settled t []) (Written t) cs (λ c k. k.0) h
  schedule-Written keep new max (r ∷ rs) t cs d h = elim (Bool-cases (leb max (length cs))) [
    | inl full ↦ rw full (All-mono (Settled t (r ∷ rs)) (Written t) cs (λ c k. k.0) h)
    | inr room ↦ rw room (
        schedule-Written keep new max rs (step r t).0 (cs ++ to_list (step r t).1) (ground arith) (
          All-append (Settled (step r t).0 rs) cs (to_list (step r t).1)
            (All-mono (Settled t (r ∷ rs)) (Settled (step r t).0 rs) cs
              (λ c k. (keep r t c (λ e. absurd (ground (arith, e, k.1))) k.0, ground (arith, k.1)))
              h)
            (All-to_list (Settled (step r t).0 rs) (step r t).1
              (λ c e. let (done, same) = new r t c e in (done, rw same (ground arith))))))
  ]
