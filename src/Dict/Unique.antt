-- ===== src/Dict/Unique.antt =====
-- Dictionaries as the program builds them have no key twice, so that each entry is what a lookup of
-- its key finds.
use agent_rca.Prelude.{
  String, ◌≡◌, refl, true, false, some, List, [], ◌∷◌, arith, eq_iff, eq_refl, mem, unique, All,
  Bool, Bool-cases, inl, inr,
}
use agent_rca.Dict.{Dict, lookup, insert, keys, mem-keys-insert, lookup-insert}
use agent_rca.Sort.{place, sort_by}

module _ {ℓ} {V : Type ℓ} where
  abbrev pub IsDict : Dict V → Type 0
  IsDict d = unique (keys d) ≡ true

  -- The entry is what a lookup of its key finds.
  abbrev pub IsAt : Dict V → String × V → Type ℓ
  IsAt d e = lookup e.0 d ≡ some e.1

  pub insert-IsDict : (k : String) (v : V) (d : Dict V) → IsDict d → IsDict (insert k v d)
  unfolding insert unique mem
  insert-IsDict k v [] h = refl
  insert-IsDict k v ((j, w) ∷ d) h =
      ground (arith, insert-IsDict k v d, mem-keys-insert k j v d, eq_iff j k)

  entries_below :
      (j : String) (w : V) (d es : Dict V)
      → mem j (keys es) ≡ false
      → All (IsAt d) es
      → All (IsAt ((j, w) ∷ d)) es
  unfolding lookup mem
  entries_below j w d [] m h = tt
  entries_below j w d ((k, v) ∷ es) m h =
      (ground (arith, eq_iff j k), entries_below j w d es (ground arith) h.1)

  pub entries : (d : Dict V) → IsDict d → All (IsAt d) d
  unfolding lookup unique
  entries [] h = tt
  entries ((j, w) ∷ d) h =
      (ground (arith, eq_refl j), entries_below j w d d (ground arith) (entries d (ground arith)))

  -- Entries under other keys are where they were after a write.
  pub entries_after :
      (k : String) (v : V) (d es : Dict V)
      → mem k (keys es) ≡ false
      → All (IsAt d) es
      → All (IsAt (insert k v d)) es
  unfolding mem
  entries_after k v d [] m h = tt
  entries_after k v d ((j, w) ∷ es) m h =
      (ground (arith, lookup-insert k j v d), entries_after k v d es (ground arith) h.1)

module _ {ℓ κ} {A : Type ℓ} (before : A → A → Bool) (P : A → Type κ) where
  place-All : (x : A) (ys : List A) → P x → All P ys → All P (place before x ys)
  unfolding place
  place-All x [] p h = (p, tt)
  place-All x (y ∷ ys) p h = elim (Bool-cases (before x y)) [
    | inl e ↦ rw e (p, h)
    | inr e ↦ rw e (h.0, place-All x ys p h.1)
  ]

  -- What holds of all elements holds of all after sorting.
  pub sort_by-All : (xs : List A) → All P xs → All P (sort_by before xs)
  unfolding sort_by
  sort_by-All [] h = tt
  sort_by-All (x ∷ xs) h = unfold place in place-All x (sort_by before xs) h.0 (sort_by-All xs h.1)
