-- ===== src/Ual/Decimal.antt =====
-- Numbers as texts, for ot-node-docker/src/service/ual-service.js: a number in a template literal, and
-- `Number(text)`. Whole numbers are below 2^53, where JavaScript has each of them.
use trex_dkg.Prelude.{
  ℕ, zero, suc, ◌+◌, ◌-◌, ◌*◌, ◌/◌, ◌%◌, Bool, true, false, ◌&&◌, ◌||◌, [], ◌∷◌, ◌++◌, ltb, leb,
  ◌==◌, if◌then◌else◌,
}
use trex_dkg.Ual.Text.{Text, codes, text_eq, all}

abbrev pub is_digit : ℕ → Bool
is_digit c = leb b'0' c && leb c b'9'

abbrev pub decimal_within : ℕ → ℕ → Text
decimal_within zero n = (b'0' + n % 10) ∷ []
decimal_within (suc f) n = elim (ltb n 10) [
  | true ↦ (b'0' + n) ∷ []
  | false ↦ decimal_within f (n / 10) ++ (b'0' + n % 10) ∷ []
]

-- The number as a text; a number has no more digits than its value.
unfoldable pub decimal : ℕ → Text
decimal n = decimal_within n n

-- What `Number` gives: NaN, a whole number, or a number that is written with a sign, a point or an
-- exponent, of which only the text is kept.
pub data Number : Type 0 where
  nan : Number
  whole : ℕ → Number
  other : Text → Number

abbrev pub is_nan : Number → Bool
is_nan Number.nan = true
is_nan (Number.whole n) = false
is_nan (Number.other s) = false

-- The value of one digit, up to base 16.
abbrev pub digit : ℕ → ℕ
digit c = if leb b'a' c then c - 87 else if leb b'A' c then c - 55 else c - b'0'

abbrev pub value : ℕ → ℕ → Text → ℕ
value base n [] = n
value base n (c ∷ s) = value base (n * base + digit c) s

abbrev pub is_hex : ℕ → Bool
is_hex c = is_digit c || (leb b'a' c && leb c b'f') || (leb b'A' c && leb c b'F')

abbrev pub some_all : (ℕ → Bool) → Text → Bool
some_all f [] = false
some_all f (c ∷ s) = all f (c ∷ s)

abbrev pub is_space : ℕ → Bool
is_space c = (leb 9 c && leb c 13) || (c == 32)

abbrev pub trim_start : Text → Text
trim_start [] = []
trim_start (c ∷ s) = let rest = trim_start s in if is_space c then rest else c ∷ s

abbrev pub end_cons : ℕ → Text → Text
end_cons c [] = if is_space c then [] else c ∷ []
end_cons c (d ∷ s) = c ∷ d ∷ s

abbrev pub trim_end : Text → Text
trim_end [] = []
trim_end (c ∷ s) = end_cons c (trim_end s)

abbrev pub after_digits : Text → Text
after_digits [] = []
after_digits (c ∷ s) = let rest = after_digits s in if is_digit c then rest else c ∷ s

abbrev pub after_sign : Text → Text
after_sign [] = []
after_sign (c ∷ s) = if (c == b'+') || (c == b'-') then s else c ∷ s

-- The exponent of a decimal, which may be missing.
abbrev pub is_exponent : Text → Bool
is_exponent [] = true
is_exponent (c ∷ s) = ((c == b'e') || (c == b'E')) && some_all is_digit (after_sign s)

abbrev pub starts_digit : Text → Bool
starts_digit [] = false
starts_digit (c ∷ s) = is_digit c

-- What may follow the digits before the point; `has` tells whether there are any.
abbrev pub is_fraction : Bool → Text → Bool
is_fraction has [] = has
is_fraction has (c ∷ s) =
    if c == b'.'
    then (has || starts_digit s) && is_exponent (after_digits s)
    else has && is_exponent (c ∷ s)

-- A decimal with a sign, a point or an exponent.
abbrev pub is_decimal : Text → Bool
is_decimal s =
    let t = after_sign s in
    text_eq t (codes "Infinity") || is_fraction (starts_digit t) (after_digits t)

abbrev pub based : (ℕ → Bool) → ℕ → Text → Number
based f base s = if some_all f s then Number.whole (value base 0 s) else Number.nan

abbrev pub plain : Text → Number
plain s =
    if all is_digit s
    then Number.whole (value 10 0 s)
    else if is_decimal s
    then Number.other s
    else Number.nan

-- Of a text without the white space around it.
abbrev pub trimmed : Text → Number
trimmed [] = Number.whole 0
trimmed (c ∷ []) = plain (c ∷ [])
trimmed (c ∷ d ∷ s) =
    if (c == b'0') && ((d == b'x') || (d == b'X'))
    then based is_hex 16 s
    else if (c == b'0') && ((d == b'o') || (d == b'O'))
    then based (λ e. leb b'0' e && leb e b'7') 8 s
    else if (c == b'0') && ((d == b'b') || (d == b'B'))
    then based (λ e. leb b'0' e && leb e b'1') 2 s
    else plain (c ∷ d ∷ s)

unfoldable pub number : Text → Number
number s = trimmed (trim_end (trim_start s))
