-- ===== src/Sort/Sorted.antt =====
-- Sorting by a total, transitive test gives a sorted list, and commutes with filtering.
use agent_rca.Prelude.{
  ◌≡◌, refl, sym, Bool, true, false, List, [], ◌∷◌, ◌++◌, All, keep, arith, not, Bool-cases, inl,
  inr,
}
use agent_rca.Dict.Unique.{sort_by-All}
use agent_rca.Sort.{place, sort_by}

pub record IsOrder {ℓ} {A : Type ℓ} (before : A → A → Bool) : Type ℓ where
  pub total : (a b : A) → before a b ≡ false → before b a ≡ true
  pub trans : (a b c : A) → before a b ≡ true → before b c ≡ true → before a c ≡ true

module _ {ℓ} {A : Type ℓ} (before : A → A → Bool) where
  abbrev pub Precedes : A → List A → Type 0
  Precedes x ys = All (λ y. before x y ≡ true) ys

  abbrev pub IsSorted : List A → Type 0
  IsSorted [] = Unit
  IsSorted (x ∷ xs) = Precedes x xs × IsSorted xs

module _ {ℓ} {A : Type ℓ} (before : A → A → Bool) (laws : IsOrder before) where
  Precedes-trans :
      (x y : A) (ys : List A) → before x y ≡ true → Precedes before y ys → Precedes before x ys
  Precedes-trans x y [] h p = tt
  Precedes-trans x y (z ∷ zs) h p = (laws.trans x y z h p.0, Precedes-trans x y zs h p.1)

  place-Precedes :
      (z x : A) (ys : List A)
      → before z x ≡ true
      → Precedes before z ys
      → Precedes before z (place before x ys)
  unfolding place
  place-Precedes z x [] h p = (h, tt)
  place-Precedes z x (y ∷ ys) h p = elim (Bool-cases (before x y)) [
    | inl e ↦ rw e (h, p)
    | inr e ↦ rw e (p.0, place-Precedes z x ys h p.1)
  ]

  place-IsSorted : (x : A) (ys : List A) → IsSorted before ys → IsSorted before (place before x ys)
  unfolding place
  place-IsSorted x [] s = (tt, tt)
  place-IsSorted x (y ∷ ys) s = elim (Bool-cases (before x y)) [
    | inl e ↦ rw e ((e, Precedes-trans x y ys e s.0), s)
    | inr e ↦ rw e (place-Precedes y x ys (laws.total x y e) s.0, place-IsSorted x ys s.1)
  ]

  -- What `sorted` gives is in order.
  pub sort_by-IsSorted : (xs : List A) → IsSorted before (sort_by before xs)
  unfolding sort_by
  sort_by-IsSorted [] = tt
  sort_by-IsSorted (x ∷ xs) = place-IsSorted x (sort_by before xs) (sort_by-IsSorted xs)

  -- before everything
  place_first : (x : A) (ys : List A) → Precedes before x ys → place before x ys ≡ x ∷ ys
  unfolding place
  place_first x [] p = refl
  place_first x (y ∷ ys) p = rw p.0 refl

  module _ (p : A → Bool) where
    keep-Precedes : (x : A) (ys : List A) → Precedes before x ys → Precedes before x (keep p ys)
    keep-Precedes x [] h = tt
    keep-Precedes x (y ∷ ys) h = elim (Bool-cases (p y)) [
      | inl e ↦ rw e (h.0, keep-Precedes x ys h.1)
      | inr e ↦ rw e (keep-Precedes x ys h.1)
    ]

    placed_later :
        (x y : A) (ys : List A)
        → before x y ≡ false
        → keep p (place before x ys) ≡ place before x (keep p ys)
        → keep p (y ∷ place before x ys) ≡ place before x (keep p (y ∷ ys))
    unfolding place
    placed_later x y ys b h = elim (Bool-cases (p y)) [
      | inl e ↦ rw (e, h, b) refl
      | inr e ↦ rw (e, h) refl
    ]

    keep_placed :
        (x : A) (ys : List A)
        → p x ≡ true
        → IsSorted before ys
        → keep p (place before x ys) ≡ place before x (keep p ys)
    unfolding place
    keep_placed x [] e s = rw e refl
    keep_placed x (y ∷ ys) e s = elim (Bool-cases (before x y)) [
      | inl b ↦
          rw (b, e)
            (sym (
              place_first x (keep p (y ∷ ys))
                (keep-Precedes x (y ∷ ys) (b, Precedes-trans x y ys b s.0))))
      | inr b ↦ rw b (placed_later x y ys b (keep_placed x ys e s.1))
    ]

    keep_skipped : (x : A) (ys : List A) → p x ≡ false → keep p (place before x ys) ≡ keep p ys
    unfolding place
    keep_skipped x [] e = rw e refl
    keep_skipped x (y ∷ ys) e = ground (arith, keep_skipped x ys e)

    -- Filtering before sorting and after it give the same.
    pub keep-sort_by : (xs : List A) → keep p (sort_by before xs) ≡ sort_by before (keep p xs)
    unfolding sort_by
    keep-sort_by [] = refl
    keep-sort_by (x ∷ xs) = elim (Bool-cases (p x)) [
      | inl e ↦
          rw (e, keep_placed x (sort_by before xs) e (sort_by-IsSorted xs), keep-sort_by xs) refl
      | inr e ↦ rw (e, keep_skipped x (sort_by before xs) e, keep-sort_by xs) refl
    ]

-- A list that any two elements of are apart.
module _ {ℓ} {A : Type ℓ} (apart : A → A → Bool) where
  abbrev pub AreApart : List A → Type 0
  AreApart [] = Unit
  AreApart (x ∷ xs) = All (λ y. apart x y ≡ true) xs × AreApart xs

  keep-apart :
      (p : A → Bool) (x : A) (ys : List A)
      → All (λ y. apart x y ≡ true) ys
      → All (λ y. apart x y ≡ true) (keep p ys)
  keep-apart p x [] h = tt
  keep-apart p x (y ∷ ys) h = elim (Bool-cases (p y)) [
    | inl e ↦ rw e (h.0, keep-apart p x ys h.1)
    | inr e ↦ rw e (keep-apart p x ys h.1)
  ]

  pub keep-AreApart : (p : A → Bool) (xs : List A) → AreApart xs → AreApart (keep p xs)
  keep-AreApart p [] h = tt
  keep-AreApart p (x ∷ xs) h = elim (Bool-cases (p x)) [
    | inl e ↦ rw e (keep-apart p x xs h.0, keep-AreApart p xs h.1)
    | inr e ↦ rw e (keep-AreApart p xs h.1)
  ]

  module _ (before : A → A → Bool)
      (symmetric : (x y : A) → apart x y ≡ true → apart y x ≡ true) where
    place-apart :
        (z x : A) (ys : List A)
        → apart z x ≡ true
        → All (λ y. apart z y ≡ true) ys
        → All (λ y. apart z y ≡ true) (place before x ys)
    unfolding place
    place-apart z x [] e h = (e, tt)
    place-apart z x (y ∷ ys) e h = elim (Bool-cases (before x y)) [
      | inl b ↦ rw b (e, h)
      | inr b ↦ rw b (h.0, place-apart z x ys e h.1)
    ]

    place-AreApart :
        (x : A) (ys : List A)
        → All (λ y. apart x y ≡ true) ys
        → AreApart ys
        → AreApart (place before x ys)
    unfolding place
    place-AreApart x [] e h = (tt, tt)
    place-AreApart x (y ∷ ys) e h = elim (Bool-cases (before x y)) [
      | inl b ↦ rw b (e, h)
      | inr b ↦ rw b (place-apart y x ys (symmetric x y e.0) h.0, place-AreApart x ys e.1 h.1)
    ]

    pub sort_by-AreApart : (xs : List A) → AreApart xs → AreApart (sort_by before xs)
    unfolding sort_by
    sort_by-AreApart [] h = tt
    sort_by-AreApart (x ∷ xs) h =
        place-AreApart x (sort_by before xs) (sort_by-All before (λ y. apart x y ≡ true) xs h.0)
          (sort_by-AreApart xs h.1)

    module _ (laws : IsOrder before)
        (strict : (x y : A) → before x y ≡ true → before y x ≡ true → apart x y ≡ true → ⊥) where
      none_left :
          (x : A) (ys : List A)
          → Precedes before x ys
          → All (λ y. apart x y ≡ true) ys
          → keep (λ y. not (before y x)) ys ≡ ys
      none_left x [] p h = refl
      none_left x (y ∷ ys) p h = elim (Bool-cases (before y x)) [
        | inl b ↦ absurd (strict x y p.0 b h.0)
        | inr b ↦ rw (b, none_left x ys p.1 h.1) refl
      ]

      self : (x : A) → before x x ≡ true
      self x = elim (Bool-cases (before x x)) [ inl b ↦ b | inr b ↦ laws.total x x b ]

      next_one : (x c : A) (xs ys : List A) → Precedes before x (xs ++ c ∷ ys) → before x c ≡ true
      next_one x c [] ys p = p.0
      next_one x c (z ∷ xs) ys p = next_one x c xs ys p.1

      -- Of a sorted list of elements apart, those that are not at or before one of them are exactly
      -- those that stand after it, in their order.
      pub keep_after :
          (xs : List A) (c : A) (ys : List A)
          → IsSorted before (xs ++ c ∷ ys)
          → AreApart (xs ++ c ∷ ys)
          → keep (λ y. not (before y c)) (xs ++ c ∷ ys) ≡ ys
      keep_after [] c ys s h = rw (self c, none_left c ys s.0 h.0) refl
      keep_after (x ∷ xs) c ys s h = rw (next_one x c xs ys s.0, keep_after xs c ys s.1 h.1) refl
