-- ===== src/Sort/Pairs.antt =====
-- Pairs of texts in the order of Python's tuples, and the laws of that order.
use agent_rca.Prelude.{String, ◌≡◌, Bool, true, false, if◌then◌else◌, ◌==◌, arith, eq_iff}
use agent_rca.Sort.{text_le}
use agent_rca.Sort.Texts.{text_le_total, text_le_trans, text_le_antisym}

-- `p <= q`
unfoldable pub pair_le : String × String → String × String → Bool
pair_le (a, b) (c, d) = if a == c then text_le b d else text_le a c

pub pair_le_total : (p q : String × String) → pair_le p q ≡ false → pair_le q p ≡ true
unfolding pair_le
pair_le_total (a, b) (c, d) h =
    ground (arith, text_le_total a c, text_le_total b d, eq_iff a c, eq_iff c a)

pub pair_le_trans :
    (p q s : String × String) → pair_le p q ≡ true → pair_le q s ≡ true → pair_le p s ≡ true
unfolding pair_le
pair_le_trans (a, b) (c, d) (e, f) h k = ground (
  arith,
  text_le_trans a c e,
  text_le_trans b d f,
  text_le_antisym a c,
  eq_iff a c,
  eq_iff c e,
  eq_iff a e,
)

-- Two pairs that stand on both sides of each other agree in their second parts.
pub pair_le_antisym : (p q : String × String) → pair_le p q ≡ true → pair_le q p ≡ true → p.1 ≡ q.1
unfolding pair_le
pair_le_antisym (a, b) (c, d) h k =
    ground (arith, text_le_antisym a c, text_le_antisym b d, eq_iff a c, eq_iff c a)
