-- ===== src/Prelude/Lists.antt =====
-- Lists measured by native numbers, membership of texts as a test, and predicates by recursion.
use Prim.Native.Nat.{ℕ, zero, suc, ◌+◌, ◌≤◌}
use Prim.Native.String.{String}
use text.Mathlib.TextEquality.{eq_iff}
use text.Mathlib.Text.{◌==◌}
use mathlib.Core.Path.{◌≡◌, refl}
use mathlib.Core.Bool.{Bool, true, false, ◌||◌, ◌&&◌, not}
use mathlib.Core.List.{List, [], ◌∷◌, ◌++◌}
use native.Mathlib.Omega.{arith}
use agent_rca.Prelude.Tests.{if◌then◌else◌}

module _ {ℓ} {A : Type ℓ} where
  abbrev pub length : List A → ℕ
  length [] = 0
  length (x ∷ xs) = suc (length xs)

  abbrev pub take : ℕ → List A → List A
  take zero xs = []
  take (suc n) [] = []
  take (suc n) (x ∷ xs) = x ∷ take n xs

  abbrev pub All {κ} : (A → Type κ) → List A → Type κ
  All P [] = Unit
  All P (x ∷ xs) = P x × All P xs

  abbrev pub all : (A → Bool) → List A → Bool
  all p [] = true
  all p (x ∷ xs) = p x && all p xs

  abbrev pub any : (A → Bool) → List A → Bool
  any p [] = false
  any p (x ∷ xs) = p x || any p xs

  abbrev pub keep : (A → Bool) → List A → List A
  keep p [] = []
  keep p (x ∷ xs) = let rest = keep p xs in if p x then x ∷ rest else rest

  pub length-append : (xs ys : List A) → length (xs ++ ys) ≡ length xs + length ys
  length-append [] ys = omega arith
  length-append (x ∷ xs) ys = omega (arith, length-append xs ys)

  pub length-take-le : (n : ℕ) (xs : List A) → length (take n xs) ≤ n
  length-take-le zero xs = omega arith
  length-take-le (suc n) [] = omega arith
  length-take-le (suc n) (x ∷ xs) = omega (arith, length-take-le n xs)

-- `x in xs`
unfoldable pub mem : String → List String → Bool
mem x [] = false
mem x (y ∷ ys) = x == y || mem x ys

-- `set(xs) <= set(ys)`; also "`sorted(set(xs) - set(ys))` is empty"
unfoldable pub subset : List String → List String → Bool
subset [] ys = true
subset (x ∷ xs) ys = mem x ys && subset xs ys

-- `len(xs) == len(set(xs))`
unfoldable pub unique : List String → Bool
unique [] = true
unique (x ∷ xs) = not (mem x xs) && unique xs

pub mem-subset :
    (x : String) (xs ys : List String) → subset xs ys ≡ true → mem x xs ≡ true → mem x ys ≡ true
unfolding mem subset
mem-subset x [] ys h m = cc
mem-subset x (y ∷ xs) ys h m = ground (arith, mem-subset x xs ys, eq_iff x y)

pub subset-append : (xs ys zs : List String) → subset (xs ++ ys) zs ≡ (subset xs zs && subset ys zs)
unfolding subset
subset-append [] ys zs = refl
subset-append (x ∷ xs) ys zs = ground (arith, subset-append xs ys zs)

pub subset_trans :
    (xs ys zs : List String) → subset xs ys ≡ true → subset ys zs ≡ true → subset xs zs ≡ true
unfolding subset
subset_trans [] ys zs h k = refl
subset_trans (x ∷ xs) ys zs h k =
    ground (arith, mem-subset x ys zs k, subset_trans xs ys zs (ground arith) k)
