-- ===== src/Operation/Batches.antt =====
-- Arithmetic of batches, and the answers of the nodes of a batch.
use native.Mathlib.Nat.{mod-eq_of_lt, mod-add-mod}
use trex_dkg.Prelude.{
  ◌⊎◌, inl, inr, ℕ, zero, suc, ◌+◌, ◌-◌, ◌%◌, ◌<◌, ◌≤◌, ◌≡◌, refl, sym, ◌∙◌, ap, true, false, List,
  [], ◌∷◌, ◌++◌, take, length, if◌then◌else◌, arith,
}
use trex_dkg.Operation.Data.{RequestStatus, is_completed}
use trex_dkg.Operation.Service.{Counts, bump}
use trex_dkg.Operation.Replication.{fills_batches}

mod_inside : (q j b : ℕ) → q % b ≡ 0 → j < b → (q + j) % b ≡ j
mod_inside q j b h lt =
    sym (mod-add-mod q b j)
    ∙ ap (λ (t : ℕ). (t + j) % b) h
    ∙ mod-eq_of_lt (omega arith)
    ∙ omega arith

-- Between two multiples of the batch size no batch is full.
pub fills_batches-inside : (q x b : ℕ) → q % b ≡ 0 → q < x → x < q + b → fills_batches x b ≡ false
fills_batches-inside q x b h lo hi =
    let e : x % b ≡ x - q =
      ap (λ (t : ℕ). t % b) (omega arith) ∙ mod_inside q (x - q) b h (omega arith) in
    ground arith

pub fills_batches-next : (q b : ℕ) → q % b ≡ 0 → 0 < b → fills_batches (q + b) b ≡ true
fills_batches-next q b h pos = grind arith

pub mod-next : (q b : ℕ) → q % b ≡ 0 → 0 < b → (q + b) % b ≡ 0
mod-next q b h pos = grind arith

-- How many of the nodes acknowledge.
abbrev pub acks_of : (ℕ → RequestStatus) → List ℕ → ℕ
acks_of answer [] = 0
acks_of answer (n ∷ ns) = (if is_completed (answer n) then 1 else 0) + acks_of answer ns

pub acks_of-append :
    (answer : ℕ → RequestStatus) (xs ys : List ℕ)
    → acks_of answer (xs ++ ys) ≡ acks_of answer xs + acks_of answer ys
acks_of-append answer [] ys = omega arith
acks_of-append answer (x ∷ xs) ys = omega (arith, acks_of-append answer xs ys)

pub take-all {ℓ} : {A : Type ℓ} (n : ℕ) (xs : List A) → length xs ≤ n → take n xs ≡ xs
take-all zero [] h = refl
take-all zero (x ∷ xs) h = absurd (omega arith)
take-all (suc n) [] h = refl
take-all (suc n) (x ∷ xs) h = ap (◌∷◌ x) (take-all n xs (omega arith))

-- The counts after the nodes of a batch have answered.
abbrev pub count_answers : (ℕ → RequestStatus) → Counts → List ℕ → Counts
count_answers answer c [] = c
count_answers answer c (n ∷ ns) = count_answers answer (bump (answer n) c) ns

abbrev pub total : Counts → ℕ
total c = c.completed_number + c.failed_number

pub completed-bump :
    (status : RequestStatus) (c : Counts)
    → (bump status c).completed_number ≡ c.completed_number + (if is_completed status then 1 else 0)
completed-bump RequestStatus.failed c = omega arith
completed-bump RequestStatus.completed c = omega arith

pub total-bump : (status : RequestStatus) (c : Counts) → total (bump status c) ≡ total c + 1
total-bump RequestStatus.failed c = omega arith
total-bump RequestStatus.completed c = omega arith

pub completed-count_answers :
    (answer : ℕ → RequestStatus) (c : Counts) (ns : List ℕ)
    → (count_answers answer c ns).completed_number ≡ c.completed_number + acks_of answer ns
completed-count_answers answer c [] = omega arith
completed-count_answers answer c (n ∷ ns) =
    omega
      (arith, completed-count_answers answer (bump (answer n) c) ns, completed-bump (answer n) c)

pub total-count_answers :
    (answer : ℕ → RequestStatus) (c : Counts) (ns : List ℕ)
    → total (count_answers answer c ns) ≡ total c + length ns
total-count_answers answer c [] = omega arith
total-count_answers answer c (n ∷ ns) =
    omega (arith, total-count_answers answer (bump (answer n) c) ns, total-bump (answer n) c)

-- A batch ends at the last node or at a multiple of its size.
pub batch_end :
    (t u q b found : ℕ)
    → q % b ≡ 0
    → q ≤ t
    → u ≡ t + 1
    → (t + 1 ≡ found) ⊎ (t + 1 ≡ q + b)
    → (u ≡ found) ⊎ (fills_batches u b ≡ true)
batch_end t u q b found mult lo e (inl h) = inl (omega arith)
batch_end t u q b found mult lo e (inr h) =
    let same : u ≡ q + b = omega arith in inr (rw same (fills_batches-next q b mult (omega arith)))
