-- ===== src/Dict.antt =====
-- Python's `dict` with text keys, in insertion order: a new key goes to the end, and a write to a
-- key that is there keeps its place.
pub mod Unique
use agent_rca.Prelude.{
  String, ◌≡◌, refl, Bool, true, false, Option, none, some, List, [], ◌∷◌, map, arith, ◌==◌, eq_iff,
  eq_refl, if◌then◌else◌, ◌||◌, mem,
}

abbrev pub Dict {ℓ} : Type ℓ → Type ℓ
Dict V = List (String × V)

module _ {ℓ} {V : Type ℓ} where
  -- `d.get(key)`, `d[key]`
  unfoldable pub lookup : String → Dict V → Option V
  lookup k [] = none
  lookup k ((j, v) ∷ d) = if j == k then some v else lookup k d

  -- `d[key] = value`
  unfoldable pub insert : String → V → Dict V → Dict V
  insert k v [] = (k, v) ∷ []
  insert k v ((j, w) ∷ d) = if j == k then (j, v) ∷ d else (j, w) ∷ insert k v d

  abbrev pub keys : Dict V → List String
  keys = map (λ e. e.0)

  abbrev pub values : Dict V → List V
  values = map (λ e. e.1)

  abbrev pub is_some : Option V → Bool
  is_some none = false
  is_some (some v) = true

  -- `key in d`
  abbrev pub has : String → Dict V → Bool
  has k d = is_some (lookup k d)

  pub lookup-insert :
      (k j : String) (v : V) (d : Dict V)
      → lookup j (insert k v d) ≡ (if k == j then some v else lookup j d)
  unfolding lookup insert
  lookup-insert k j v [] = refl
  lookup-insert k j v ((i, w) ∷ d) =
      ground (arith, eq_iff k j, eq_iff i k, eq_iff i j, lookup-insert k j v d)

  pub lookup-insert_self : (k : String) (v : V) (d : Dict V) → lookup k (insert k v d) ≡ some v
  lookup-insert_self k v d = rw (lookup-insert, eq_refl k)

  pub lookup-nil : (k : String) → lookup k [] ≡ none
  unfolding lookup
  lookup-nil k = refl

  -- the keys are exactly what can be looked up
  pub mem-keys : (k : String) (d : Dict V) → mem k (keys d) ≡ has k d
  unfolding lookup mem
  mem-keys k [] = refl
  mem-keys k ((j, v) ∷ d) = ground (arith, mem-keys k d, eq_iff j k, eq_iff k j)

module _ {ℓ} {V : Type ℓ} where
  -- Only the last write to a key counts.
  pub insert-insert : (k : String) (v w : V) (d : Dict V) → insert k v (insert k w d) ≡ insert k v d
  unfolding insert
  insert-insert k v w [] = ground (arith, eq_iff k k)
  insert-insert k v w ((j, u) ∷ d) = ground (arith, insert-insert k v w d)

  -- Writing what is there changes nothing.
  pub insert_same : (k : String) (v : V) (d : Dict V) → lookup k d ≡ some v → insert k v d ≡ d
  unfolding insert lookup
  insert_same k v [] h = cc
  insert_same k v ((j, u) ∷ d) h = ground (arith, insert_same k v d)

  -- The new key stands last, and the others stay in their places.
  pub mem-keys-insert :
      (k j : String) (v : V) (d : Dict V) → mem j (keys (insert k v d)) ≡ (j == k || mem j (keys d))
  unfolding insert mem
  mem-keys-insert k j v [] = refl
  mem-keys-insert k j v ((i, w) ∷ d) =
      ground (arith, mem-keys-insert k j v d, eq_iff i k, eq_iff j i, eq_iff j k)

pub ruleset dict_laws = (lookup-insert, lookup-nil)
