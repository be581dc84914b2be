-- ===== src/Sharding/Stable.antt =====
-- The order of the input does not show in what is sorted when no two elements share a key.
use trex_dkg.Prelude.{
  ℕ, ◌≡◌, inl, inr, refl, sym, ap, ◌∙◌, arith, List, [], ◌∷◌, map, leb, Bool-cases, ℕ_discrete,
}
use trex_dkg.Sharding.Order.{ordered_insert, sort_by}
use mathlib.Core.List.{Permᴰ, Memᴰ}

module _ {A : Type 0} (key : A → ℕ) where
  -- No two elements of the list share a key.
  abbrev pub HasDistinctKeys : List A → Type 0
  HasDistinctKeys xs = (x y : A) → Memᴰ x xs → Memᴰ y xs → key x ≡ key y → x ≡ y

  ordered_insert_comm :
      (x y : A) (zs : List A)
      → (key x ≡ key y → x ≡ y)
      → ordered_insert key x (ordered_insert key y zs)
        ≡ ordered_insert key y (ordered_insert key x zs)
  ordered_insert_comm x y [] d = elim (ℕ_discrete (key x) (key y)) [
    | yes e ↦ rw (d e) refl
    | no n ↦ ground arith
  ]
  ordered_insert_comm x y (z ∷ zs) d = elim (ℕ_discrete (key x) (key y)) [
    | yes e ↦
        ap (λ v. ordered_insert key v (ordered_insert key y (z ∷ zs))) (d e)
        ∙ ap (λ v. ordered_insert key y (ordered_insert key v (z ∷ zs))) (sym (d e))
    | no n ↦ grind (arith, ordered_insert_comm x y zs d)
  ]

  pub Memᴰ-Permᴰ : {x : A} {xs ys : List A} → Permᴰ xs ys → Memᴰ x ys → Memᴰ x xs
  Memᴰ-Permᴰ Permᴰ.nil i = i
  Memᴰ-Permᴰ (Permᴰ.cons e p) (Memᴰ.head h) = Memᴰ.head (h ∙ sym e)
  Memᴰ-Permᴰ (Permᴰ.cons e p) (Memᴰ.tail i) = Memᴰ.tail (Memᴰ-Permᴰ p i)
  Memᴰ-Permᴰ (Permᴰ.swap e f) (Memᴰ.head h) = Memᴰ.tail (Memᴰ.head (h ∙ sym f))
  Memᴰ-Permᴰ (Permᴰ.swap e f) (Memᴰ.tail (Memᴰ.head h)) = Memᴰ.head (h ∙ sym e)
  Memᴰ-Permᴰ (Permᴰ.swap e f) (Memᴰ.tail (Memᴰ.tail i)) = Memᴰ.tail (Memᴰ.tail i)
  Memᴰ-Permᴰ (Permᴰ.trans p q) i = Memᴰ-Permᴰ p (Memᴰ-Permᴰ q i)

  pub sort_by_of_Permᴰ :
      {xs ys : List A} → Permᴰ xs ys → HasDistinctKeys xs → sort_by key xs ≡ sort_by key ys
  unfolding sort_by
  sort_by_of_Permᴰ Permᴰ.nil d = refl
  sort_by_of_Permᴰ (Permᴰ.cons {a} e p) d =
      rw (e, sort_by_of_Permᴰ p (λ x y i j. d x y (Memᴰ.tail i) (Memᴰ.tail j))) refl
  sort_by_of_Permᴰ (Permᴰ.swap {a} {b} {l = l} e f) d =
      rw (← e, ← f)
        (ordered_insert_comm a b (sort_by key l)
          (d a b (Memᴰ.head refl) (Memᴰ.tail (Memᴰ.head refl))))
  sort_by_of_Permᴰ (Permᴰ.trans p q) d =
      sort_by_of_Permᴰ p d ∙ sort_by_of_Permᴰ q (λ x y i j. d x y (Memᴰ-Permᴰ p i) (Memᴰ-Permᴰ p j))

module _ {A B : Type 0} (key : B → ℕ) (f : A → B) where
  map-ordered_insert :
      (x : A) (ys : List A)
      → map f (ordered_insert (λ a. key (f a)) x ys) ≡ ordered_insert key (f x) (map f ys)
  map-ordered_insert x [] = refl
  map-ordered_insert x (y ∷ ys) = elim (Bool-cases (leb (key (f x)) (key (f y)))) [
    | inl t ↦ rw (t) refl
    | inr g ↦ rw (g) (ap (◌∷◌ (f y)) (map-ordered_insert x ys))
  ]

  pub map-sort_by : (xs : List A) → map f (sort_by (λ a. key (f a)) xs) ≡ sort_by key (map f xs)
  unfolding sort_by
  map-sort_by [] = refl
  map-sort_by (x ∷ xs) =
      map-ordered_insert x (sort_by (λ a. key (f a)) xs)
      ∙ ap (ordered_insert key (f x)) (map-sort_by xs)
