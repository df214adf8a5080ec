-- ===== src/Sort/Texts.antt =====
-- The order of texts by code points: it is total, transitive and antisymmetric.
use Prim.Native.Nat.{Ordering}
use Prim.Native.String.compare
use Prim.Native.String.{compare}
use text.Mathlib.TextEquality.{path_by_compare}
use agent_rca.Prelude.{String, ◌≡◌, true, false, arith}
use agent_rca.Sort.{text_le}

pub text_le_total : (s t : String) → text_le s t ≡ false → text_le t s ≡ true
text_le_total String.[] String.[] h = ground (arith, compare.nil-nil)
text_le_total String.[] (String.◌∷◌ d t) h = ground (arith, compare.nil-cons d t)
text_le_total (String.◌∷◌ c s) String.[] h = ground (arith, compare.nil-cons c s)
text_le_total (String.◌∷◌ c s) (String.◌∷◌ d t) h =
    ground (arith, text_le_total s t, compare.cons-cons c d s t, compare.cons-cons d c t s)

pub text_le_trans : (s t u : String) → text_le s t ≡ true → text_le t u ≡ true → text_le s u ≡ true
text_le_trans String.[] _ String.[] h k = ground (arith, compare.nil-nil)
text_le_trans String.[] _ (String.◌∷◌ e u) h k = ground (arith, compare.nil-cons e u)
text_le_trans (String.◌∷◌ c s) String.[] _ h k = ground (arith, compare.cons-nil c s)
text_le_trans (String.◌∷◌ c s) (String.◌∷◌ d t) String.[] h k = ground (arith, compare.cons-nil d t)
text_le_trans (String.◌∷◌ c s) (String.◌∷◌ d t) (String.◌∷◌ e u) h k = ground (
  arith,
  text_le_trans s t u,
  compare.cons-cons c d s t,
  compare.cons-cons d e t u,
  compare.cons-cons c e s u,
)

both_le : (s t : String) → text_le s t ≡ true → text_le t s ≡ true → compare s t ≡ Ordering.eq
both_le String.[] String.[] h k = compare.nil-nil
both_le String.[] (String.◌∷◌ d t) h k = ground (arith, compare.cons-nil d t)
both_le (String.◌∷◌ c s) String.[] h k = ground (arith, compare.cons-nil c s)
both_le (String.◌∷◌ c s) (String.◌∷◌ d t) h k =
    ground (arith, both_le s t, compare.cons-cons c d s t, compare.cons-cons d c t s)

pub text_le_antisym : (s t : String) → text_le s t ≡ true → text_le t s ≡ true → s ≡ t
text_le_antisym s t h k = path_by_compare s t (both_le s t h k)
