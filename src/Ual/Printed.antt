-- ===== src/Ual/Printed.antt =====
-- ot-node-docker/src/service/ual-service.js: a number that is printed and read again.
use trex_dkg.Prelude.{
  ℕ, zero, suc, ◌/◌, ◌≤◌, ◌≡◌, refl, Bool, true, inl, inr, [], ◌∷◌, ◌++◌, arith, ltb, Bool-cases,
}
use trex_dkg.Ual.Text.{Text, all, Lacks}
use trex_dkg.Ual.Decimal.{
  Number, is_digit, decimal_within, decimal, value, trim_start, end_cons, trim_end, trimmed, number,
}

all-append : (f : ℕ → Bool) (s t : Text) → all f s ≡ true → all f t ≡ true → all f (s ++ t) ≡ true
all-append f [] t h ht = ht
all-append f (c ∷ s) t h ht = ground (arith, all-append f s t)

all-decimal_within : (f n : ℕ) → n ≤ f → all is_digit (decimal_within f n) ≡ true
all-decimal_within zero n h = ground arith
all-decimal_within (suc f) n h = elim (Bool-cases (ltb n 10)) [
  | inl e ↦ rw (e, decimal_within) (ground arith)
  | inr e ↦
      rw (e, decimal_within)
        (all-append is_digit (decimal_within f (n / 10)) _
          (all-decimal_within f (n / 10) (ground arith)) (ground arith))
]

value-append :
    (base : ℕ) (s t : Text) (n : ℕ) → value base n (s ++ t) ≡ value base (value base n s) t
value-append base [] t n = refl
value-append base (c ∷ s) t n = value-append base s t _

value-decimal_within : (f n : ℕ) → n ≤ f → value 10 0 (decimal_within f n) ≡ n
value-decimal_within zero n h = ground arith
value-decimal_within (suc f) n h = elim (Bool-cases (ltb n 10)) [
  | inl e ↦ rw (e, decimal_within) (ground arith)
  | inr e ↦
      rw
        (
          e,
          decimal_within,
          value-append 10 (decimal_within f (n / 10)),
          value-decimal_within f (n / 10) (ground arith),
        )
        (ground arith)
]

all-is_digit-Lacks_slash : (s : Text) → all is_digit s ≡ true → Lacks b'/' s
all-is_digit-Lacks_slash [] h = tt
all-is_digit-Lacks_slash (c ∷ s) h = (ground arith, all-is_digit-Lacks_slash s (ground arith))

trim_start_digits : (s : Text) → all is_digit s ≡ true → trim_start s ≡ s
trim_start_digits [] h = refl
trim_start_digits (c ∷ s) h = ground arith

end_cons_digit : (c : ℕ) (s : Text) → is_digit c ≡ true → end_cons c s ≡ c ∷ s
end_cons_digit c [] h = ground arith
end_cons_digit c (d ∷ s) h = refl

trim_end_digits : (s : Text) → all is_digit s ≡ true → trim_end s ≡ s
trim_end_digits [] h = refl
trim_end_digits (c ∷ s) h =
    rw (trim_end_digits s (ground arith)) (end_cons_digit c s (ground arith))

trimmed_digits : (s : Text) → all is_digit s ≡ true → trimmed s ≡ Number.whole (value 10 0 s)
trimmed_digits [] h = refl
trimmed_digits (c ∷ []) h = ground arith
trimmed_digits (c ∷ d ∷ s) h = ground arith

pub number_digits : (s : Text) → all is_digit s ≡ true → number s ≡ Number.whole (value 10 0 s)
unfolding number
number_digits s h = rw (trim_start_digits s h, trim_end_digits s h) (trimmed_digits s h)

pub number-decimal : (n : ℕ) → number (decimal n) ≡ Number.whole n
unfolding decimal
number-decimal n = rw (
  number_digits (decimal_within n n) (all-decimal_within n n (omega arith)),
  value-decimal_within n n (omega arith),
)

pub decimal-Lacks_slash : (n : ℕ) → Lacks b'/' (decimal n)
unfolding decimal
decimal-Lacks_slash n = all-is_digit-Lacks_slash _ (all-decimal_within n n (omega arith))
