-- ===== src/Text.antt =====
-- What the program uses of Python's `str` and `re`: texts as their code points.
use Prim.Native.Char.{code}
use Prim.Native.Nat.{zero, suc}
use agent_rca.Prelude.{
  ℕ, String, Bool, true, false, List, [], ◌∷◌, ◌&&◌, ◌||◌, leb, all, any, length, starts_with,
  if◌then◌else◌,
}

abbrev pub codes : String → List ℕ
codes String.[] = []
codes (String.◌∷◌ c s) = code c ∷ codes s

abbrev pub between : ℕ → ℕ → ℕ → Bool
between lo hi c = leb lo c && leb c hi

abbrev one_of : List ℕ → ℕ → Bool
one_of cs c = any (λ d. between d d c) cs

-- `str.isspace` of one character, which is what `str.strip` removes
unfoldable pub is_space : ℕ → Bool
is_space c =
    between 9 13 c
    || between 28 32 c
    || between 8192 8202 c
    || one_of (133 ∷ 160 ∷ 5760 ∷ 8232 ∷ 8233 ∷ 8239 ∷ 8287 ∷ 12288 ∷ []) c

-- a text that holds nothing
abbrev pub is_empty : String → Bool
is_empty String.[] = true
is_empty (String.◌∷◌ c s) = false

abbrev strip_left : String → String
unfolding is_space
strip_left String.[] = String.[]
strip_left (String.◌∷◌ c s) =
    let rest = strip_left s in if is_space (code c) then rest else String.◌∷◌ c s

abbrev strip_right : String → String
unfolding is_space
strip_right String.[] = String.[]
strip_right (String.◌∷◌ c s) =
    let rest = strip_right s in
    if is_space (code c) && is_empty rest then String.[] else String.◌∷◌ c rest

-- `s.strip()`
unfoldable pub strip : String → String
unfolding strip_left strip_right
strip s = strip_right (strip_left s)

-- `term in s`
unfoldable pub is_infix : String → String → Bool
is_infix term String.[] = is_empty term
is_infix term (String.◌∷◌ c s) = starts_with (String.◌∷◌ c s) term || is_infix term s

-- `s[:n]`
unfoldable pub text_take : ℕ → String → String
text_take zero s = String.[]
text_take (suc n) String.[] = String.[]
text_take (suc n) (String.◌∷◌ c s) = String.◌∷◌ c (text_take n s)

-- `s.replace("-", "_")`
unfoldable pub underscored : String → String
underscored String.[] = String.[]
underscored (String.◌∷◌ c s) =
    let rest = underscored s in
    if one_of (b'-' ∷ []) (code c) then String.◌∷◌ "_" rest else String.◌∷◌ c rest

-- `not s.strip()`
unfoldable pub is_blank : String → Bool
unfolding is_space
is_blank s = all is_space (codes s)

abbrev is_digit : ℕ → Bool
is_digit = between b'0' b'9'

abbrev is_lower : ℕ → Bool
is_lower = between b'a' b'z'

abbrev is_letter : ℕ → Bool
is_letter c = is_lower c || between b'A' b'Z' c

-- `_WORKER_ID`: [A-Za-z0-9][A-Za-z0-9._:-]{0,127}
abbrev worker_codes : List ℕ → Bool
worker_codes [] = false
worker_codes (c ∷ cs) =
    (is_letter c || is_digit c)
    && all (λ d. is_letter d || is_digit d || one_of (b'.' ∷ b'_' ∷ b':' ∷ b'-' ∷ []) d) cs
    && leb (length cs) 127

unfoldable pub is_worker_id : String → Bool
is_worker_id s = worker_codes (codes s)

-- `_INCIDENT_ID` after its prefix "inc-": [a-z0-9][a-z0-9-]{7,63}
abbrev incident_tail : List ℕ → Bool
incident_tail [] = false
incident_tail (c ∷ cs) =
    (is_lower c || is_digit c)
    && all (λ d. is_lower d || is_digit d || one_of (b'-' ∷ []) d) cs
    && between 7 63 (length cs)

abbrev incident_codes : List ℕ → Bool
incident_codes (i ∷ n ∷ c ∷ dash ∷ rest) =
    one_of (b'i' ∷ []) i
    && one_of (b'n' ∷ []) n
    && one_of (b'c' ∷ []) c
    && one_of (b'-' ∷ []) dash
    && incident_tail rest
incident_codes _ = false

unfoldable pub is_incident_id : String → Bool
is_incident_id s = incident_codes (codes s)

-- `_ELIGIBILITY_LABEL`: [A-Za-z_][A-Za-z0-9_.-]{0,62}
abbrev label_codes : List ℕ → Bool
label_codes [] = false
label_codes (c ∷ cs) =
    (is_letter c || one_of (b'_' ∷ []) c)
    && all (λ d. is_letter d || is_digit d || one_of (b'_' ∷ b'.' ∷ b'-' ∷ []) d) cs
    && leb (length cs) 62

unfoldable pub is_eligibility_label : String → Bool
is_eligibility_label s = label_codes (codes s)
