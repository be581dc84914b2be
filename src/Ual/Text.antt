-- ===== src/Ual/Text.antt =====
-- Texts as lists of codes, all below 128, and the methods of a text that
-- ot-node-docker/src/service/ual-service.js calls.
use Prim.Native.Char.{code}
use trex_dkg.Prelude.{
  ℕ, ◌+◌, ◌≡◌, ◌≢◌, refl, Bool, true, false, ◌&&◌, List, [], ◌∷◌, ◌++◌, map, String, arith, leb,
  ◌==◌, if◌then◌else◌, ap, length, drop,
}

abbrev pub Text : Type 0
Text = List ℕ

abbrev pub codes : String → Text
codes String.[] = []
codes (String.◌∷◌ c s) = code c ∷ codes s

-- `===` of two texts.
abbrev pub text_eq : Text → Text → Bool
text_eq [] [] = true
text_eq [] (d ∷ t) = false
text_eq (c ∷ s) [] = false
text_eq (c ∷ s) (d ∷ t) = (c == d) && text_eq s t

abbrev pub starts_with : Text → Text → Bool
starts_with [] s = true
starts_with (c ∷ n) [] = false
starts_with (c ∷ n) (d ∷ s) = (c == d) && starts_with n s

-- `s.replace(needle, by)`: the first place only.
unfoldable pub replace : Text → Text → Text → Text
replace needle by [] = if starts_with needle [] then by else []
replace needle by (c ∷ s) =
    let rest = replace needle by s in
    if starts_with needle (c ∷ s) then by ++ drop (length needle) (c ∷ s) else c ∷ rest

unfoldable pub includes : Text → Text → Bool
includes needle [] = starts_with needle []
includes needle (c ∷ s) =
    let rest = includes needle s in if starts_with needle (c ∷ s) then true else rest

abbrev pub push : ℕ → List Text → List Text
push c [] = (c ∷ []) ∷ []
push c (p ∷ ps) = (c ∷ p) ∷ ps

-- `s.split(separator)`, of a separator of one character.
abbrev pub split : ℕ → Text → List Text
split sep [] = [] ∷ []
split sep (c ∷ s) = let rest = split sep s in if c == sep then [] ∷ rest else push c rest

abbrev pub lower : ℕ → ℕ
lower c = if leb b'A' c && leb c b'Z' then c + 32 else c

abbrev pub to_lower_case : Text → Text
to_lower_case = map lower

abbrev pub all : (ℕ → Bool) → Text → Bool
all f [] = true
all f (c ∷ s) = f c && all f s

-- No character of the text is `b`.
abbrev pub Lacks : ℕ → Text → Type 0
Lacks b [] = Unit
Lacks b (c ∷ s) = (c ≢ b) × Lacks b s

pub split_one : (sep : ℕ) (p : Text) → Lacks sep p → split sep p ≡ p ∷ []
split_one sep [] h = refl
split_one sep (c ∷ p) (hc, h) = ground (arith, split_one sep p h)

pub split-append : (sep : ℕ) (p s : Text) → Lacks sep p → split sep (p ++ sep ∷ s) ≡ p ∷ split sep s
split-append sep [] s h = ground arith
split-append sep (c ∷ p) s (hc, h) = ground (arith, split-append sep p s h)

pub lower-Lacks_slash : (s : Text) → Lacks b'/' s → Lacks b'/' (to_lower_case s)
lower-Lacks_slash [] h = h
lower-Lacks_slash (c ∷ s) (hc, h) = (ground arith, lower-Lacks_slash s h)

pub starts_with-append : (n s : Text) → starts_with n (n ++ s) ≡ true
starts_with-append [] s = refl
starts_with-append (c ∷ n) s = ground (arith, starts_with-append n s)

pub text_eq_refl : (s : Text) → text_eq s s ≡ true
text_eq_refl [] = refl
text_eq_refl (c ∷ s) = ground (arith, text_eq_refl s)

pub drop-append : (n s : Text) → drop (length n) (n ++ s) ≡ s
drop-append [] s = refl
drop-append (c ∷ n) s = drop-append n s

pub replace_start : (c : ℕ) (n by s : Text) → replace (c ∷ n) by ((c ∷ n) ++ s) ≡ by ++ s
unfolding replace
replace_start c n by s = ground (arith, starts_with-append n s, ap (λ t. by ++ t) (drop-append n s))

pub includes_start : (c : ℕ) (n s : Text) → includes (c ∷ n) ((c ∷ n) ++ s) ≡ true
unfolding includes
includes_start c n s = ground (arith, starts_with-append n s)
