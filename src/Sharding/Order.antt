-- ===== src/Sharding/Order.antt =====
-- `Array.prototype.sort` with a comparison of numeric keys, as the code calls it: the stable sort,
-- which is one function whatever the algorithm.
use trex_dkg.Prelude.{
  ℕ, zero, suc, ◌≤◌, inl, inr, refl, arith, List, [], ◌∷◌, take, drop, leb, if◌then◌else◌,
  Bool-cases,
}
use mathlib.Core.List.{Permᴰ, Memᴰ}
use mathlib.Core.List.Permᴰ

module _ {A : Type 0} (key : A → ℕ) where
  abbrev pub ordered_insert : A → List A → List A
  ordered_insert x [] = x ∷ []
  ordered_insert x (y ∷ ys) =
      let rest = ordered_insert x ys in if leb (key x) (key y) then x ∷ y ∷ ys else y ∷ rest

  unfoldable pub sort_by : List A → List A
  sort_by [] = []
  sort_by (x ∷ xs) = ordered_insert x (sort_by xs)

  -- No key is below the bound.
  unfoldable pub AtLeast : ℕ → List A → Type 0
  AtLeast m [] = Unit
  AtLeast m (x ∷ xs) = (m ≤ key x) × AtLeast m xs

  unfoldable pub IsSorted : List A → Type 0
  IsSorted [] = Unit
  IsSorted (x ∷ xs) = AtLeast (key x) xs × IsSorted xs

  ordered_insert-Permᴰ : (x : A) (ys : List A) → Permᴰ (ordered_insert x ys) (x ∷ ys)
  ordered_insert-Permᴰ x [] = Permᴰ.refl (x ∷ [])
  ordered_insert-Permᴰ x (y ∷ ys) = elim (Bool-cases (leb (key x) (key y))) [
    | inl t ↦ rw (t) (Permᴰ.refl (x ∷ y ∷ ys))
    | inr f ↦
        rw (f) (Permᴰ.trans (Permᴰ.cons refl (ordered_insert-Permᴰ x ys)) (Permᴰ.swap refl refl))
  ]

  pub sort_by-Permᴰ : (xs : List A) → Permᴰ (sort_by xs) xs
  unfolding sort_by
  sort_by-Permᴰ [] = Permᴰ.nil
  sort_by-Permᴰ (x ∷ xs) =
      Permᴰ.trans (ordered_insert-Permᴰ x (sort_by xs)) (Permᴰ.cons refl (sort_by-Permᴰ xs))

  AtLeast-le : {m n : ℕ} (xs : List A) → m ≤ n → AtLeast n xs → AtLeast m xs
  unfolding AtLeast
  AtLeast-le [] le h = h
  AtLeast-le (x ∷ xs) le (h, hs) = (omega arith, AtLeast-le xs le hs)

  AtLeast-ordered_insert :
      {m : ℕ} (x : A) (ys : List A) → m ≤ key x → AtLeast m ys → AtLeast m (ordered_insert x ys)
  unfolding AtLeast
  AtLeast-ordered_insert x [] le h = (le, h)
  AtLeast-ordered_insert x (y ∷ ys) le (h, hs) = elim (Bool-cases (leb (key x) (key y))) [
    | inl t ↦ rw (t) (le, (h, hs))
    | inr f ↦ rw (f) (h, AtLeast-ordered_insert x ys le hs)
  ]

  ordered_insert-IsSorted : (x : A) (ys : List A) → IsSorted ys → IsSorted (ordered_insert x ys)
  unfolding IsSorted AtLeast
  ordered_insert-IsSorted x [] s = (s, s)
  ordered_insert-IsSorted x (y ∷ ys) (h, hs) = elim (Bool-cases (leb (key x) (key y))) [
    | inl t ↦ let le : key x ≤ key y = ground arith in rw (t) ((le, AtLeast-le ys le h), (h, hs))
    | inr f ↦
        let le : key y ≤ key x = ground arith in
        rw (f) (AtLeast-ordered_insert x ys le h, ordered_insert-IsSorted x ys hs)
  ]

  pub sort_by-IsSorted : (xs : List A) → IsSorted (sort_by xs)
  unfolding sort_by IsSorted
  sort_by-IsSorted [] = tt
  sort_by-IsSorted (x ∷ xs) = ordered_insert-IsSorted x (sort_by xs) (sort_by-IsSorted xs)

  pub AtLeast-Memᴰ : {m : ℕ} {y : A} (xs : List A) → AtLeast m xs → Memᴰ y xs → m ≤ key y
  unfolding AtLeast
  AtLeast-Memᴰ [] h i = elim i [ ]
  AtLeast-Memᴰ (x ∷ xs) (h, hs) (Memᴰ.head e) = rw e h
  AtLeast-Memᴰ (x ∷ xs) (h, hs) (Memᴰ.tail i) = AtLeast-Memᴰ xs hs i

  drop-Memᴰ : {y : A} (n : ℕ) (xs : List A) → Memᴰ y (drop n xs) → Memᴰ y xs
  drop-Memᴰ zero xs i = i
  drop-Memᴰ (suc n) [] i = i
  drop-Memᴰ (suc n) (x ∷ xs) i = Memᴰ.tail (drop-Memᴰ n xs i)

  -- What is cut off after n elements is no nearer than what is kept.
  pub take-le-drop :
      {x y : A} (n : ℕ) (xs : List A)
      → IsSorted xs
      → Memᴰ x (take n xs)
      → Memᴰ y (drop n xs)
      → key x ≤ key y
  unfolding IsSorted
  take-le-drop zero xs s i j = elim i [ ]
  take-le-drop (suc n) [] s i j = elim i [ ]
  take-le-drop (suc n) (x ∷ xs) (h, hs) (Memᴰ.head e) j =
      rw e (AtLeast-Memᴰ xs h (drop-Memᴰ n xs j))
  take-le-drop (suc n) (x ∷ xs) (h, hs) (Memᴰ.tail i) j = take-le-drop n xs hs i j

  AtLeast-take : (m n : ℕ) (xs : List A) → AtLeast m xs → AtLeast m (take n xs)
  unfolding AtLeast
  AtLeast-take m zero xs h = tt
  AtLeast-take m (suc n) [] h = h
  AtLeast-take m (suc n) (x ∷ xs) (h, hs) = (h, AtLeast-take m n xs hs)

  pub take-IsSorted : (n : ℕ) (xs : List A) → IsSorted xs → IsSorted (take n xs)
  unfolding IsSorted
  take-IsSorted zero xs h = tt
  take-IsSorted (suc n) [] h = h
  take-IsSorted (suc n) (x ∷ xs) (h, hs) = (AtLeast-take (key x) n xs h, take-IsSorted n xs hs)
