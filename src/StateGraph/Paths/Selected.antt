-- ===== src/StateGraph/Paths/Selected.antt =====
-- What the relations and the entities that `find_state_paths` of src/incident_platform/stategraph.py goes
-- through keep of what selected them.
use mathlib.Core.Path.{subst}
use agent_rca.Prelude.{
  suc, String, Bool, true, List, [], ◌∷◌, ◌≡◌, refl, ap, ◌&&◌, arith, mem, length, All, Bool-cases,
  inl, inr, eq_refl,
}
use agent_rca.Outcome.{ok, key_error, Result-cases}
use agent_rca.Dict.{Dict, lookup, has}
use agent_rca.Sort.{sort_by, place}
use agent_rca.Documents.{Span}
use agent_rca.Runtime.{Runtime}
use agent_rca.Repository.{found}
use agent_rca.StateGraph.{Entity, Relation}
use agent_rca.StateGraph.Validate.{overlaps, merged_ids}
use agent_rca.StateGraph.Paths.{
  merge_relation, merge_relations, same_path, observed_relations, admits,
}
use agent_rca.StateGraph.Paths.Localize.{pick}
use agent_rca.StateGraph.Paths.Trails.{Among}

module _ {ℓ} {A : Type ℓ} (before : A → A → Bool) where
  pub length-place : (x : A) (ys : List A) → length (place before x ys) ≡ suc (length ys)
  unfolding place
  length-place x [] = refl
  length-place x (y ∷ ys) = ground (arith, length-place x ys)

  pub length-sort_by : (xs : List A) → length (sort_by before xs) ≡ length xs
  unfolding sort_by
  length-sort_by [] = refl
  length-sort_by (x ∷ xs) = omega (arith, length-place x (sort_by before xs), length-sort_by xs)

  pub All-place {κ} :
      (P : A → Type κ) (x : A) (ys : List A) → P x → All P ys → All P (place before x ys)
  unfolding place
  All-place P x [] p h = (p, tt)
  All-place P x (y ∷ ys) p h = elim (Bool-cases (before x y)) [
    | inl e ↦ rw e (p, h)
    | inr e ↦ rw e (h.0, All-place P x ys p h.1)
  ]

  pub All-sort_by {κ} : (P : A → Type κ) (xs : List A) → All P xs → All P (sort_by before xs)
  unfolding sort_by
  All-sort_by P [] h = tt
  All-sort_by P (x ∷ xs) h = All-place P x (sort_by before xs) h.0 (All-sort_by P xs h.1)

pub length-pick :
    (d : Dict Entity) (ids : List String) (es : Dict Entity)
    → pick d ids ≡ ok es
    → length es ≡ length ids
unfolding pick
length-pick d [] es h = ground arith
length-pick d (id ∷ ids) es h = elim (Result-cases (found (lookup id d) key_error)) [
  | inl (x, p) ↦ absurd (ground arith)
  | inr (e, p) ↦ elim (Result-cases (pick d ids)) [
    | inl (x, q) ↦ absurd (ground arith)
    | inr (rest, q) ↦ ground (arith, length-pick d ids rest)
  ]
]

-- The relation is one of `stored`, but for the Evidence that is merged into it.
abbrev pub IsStored : List Relation → Relation → Type 0
IsStored stored r =
    (x : Relation) × Among x stored × (r ≡ record x { evidence_ids = r.evidence_ids })

All_more :
    (y : Relation) (xs stored : List Relation)
    → All (λ (x : Relation). Among x stored) xs
    → All (λ (x : Relation). Among x (y ∷ stored)) xs
All_more y [] stored h = tt
All_more y (x ∷ xs) stored h = (inr h.0, All_more y xs stored h.1)

pub all-Among : (xs : List Relation) → All (λ (x : Relation). Among x xs) xs
all-Among [] = tt
all-Among (x ∷ xs) = (inl refl, All_more x xs xs (all-Among xs))

module _ (rt : Runtime) (window : Span) (types : List String) (d : Dict Entity)
    (stored : List Relation) where
  -- The relation is a stored one, joins two entities of the scope, is of an admitted type, and
  -- overlaps the window.
  abbrev pub IsSelected : Relation → Type 0
  IsSelected r =
      IsStored stored r
      × (has r.source_entity_id d ≡ true)
      × (has r.destination_entity_id d ≡ true)
      × (overlaps rt r.valid_from r.valid_to window ≡ ok true)
      × (admits types r.relation_type ≡ true)

  pub observed-AreSelected :
      (rs xs : List Relation)
      → All (λ (x : Relation). Among x stored) rs
      → observed_relations rt window d types rs ≡ ok xs
      → All IsSelected xs
  unfolding observed_relations
  observed-AreSelected [] xs among h =
      let none_left : ◌≡◌ {A = List Relation} [] xs = cc in
      subst (λ (ys : List Relation). All IsSelected ys) none_left tt
  observed-AreSelected (r ∷ rs) xs among h =
      elim (Bool-cases (has r.source_entity_id d && has r.destination_entity_id d)) [
        | inr outside ↦ observed-AreSelected rs xs among.1 (ground arith)
        | inl known ↦ elim (Result-cases (overlaps rt r.valid_from r.valid_to window)) [
          | inl (x, p) ↦ absurd (ground arith)
          | inr (inside, p) ↦ elim (Result-cases (observed_relations rt window d types rs)) [
            | inl (x, q) ↦ absurd (ground arith)
            | inr (rest, q) ↦
                let kept = observed-AreSelected rs rest among.1 q in
                elim (Bool-cases (inside && admits types r.relation_type)) [
                  | inl all_hold ↦
                      let more : r ∷ rest ≡ xs = ground arith in
                      subst (λ (ys : List Relation). All IsSelected ys) more
                        (
                          (
                            (r, among.0, refl),
                            ground arith,
                            ground arith,
                            ground arith,
                            ground arith,
                          ),
                          kept,
                        )
                  | inr skipped ↦
                      let same : rest ≡ xs = ground arith in
                      subst (λ (ys : List Relation). All IsSelected ys) same kept
                ]
          ]
        ]
      ]

  pub merge-AreSelected :
      (r : Relation) (xs : List Relation)
      → IsSelected r
      → All IsSelected xs
      → All IsSelected (merge_relation r xs)
  unfolding merge_relation
  merge-AreSelected r [] p h = (p, tt)
  merge-AreSelected r (x ∷ xs) p h = elim (Bool-cases (same_path x r)) [
    | inl e ↦
        let ((y, among, same), source, destination, inside, kind) = h.0 in
        rw e (
          (
            (
              y,
              among,
              ap
                  (λ (z : Relation). record z {
                    evidence_ids = merged_ids x.evidence_ids r.evidence_ids;
                  })
                  same,
            ),
            source,
            destination,
            inside,
            kind,
          ),
          h.1,
        )
    | inr e ↦ rw e (h.0, merge-AreSelected r xs p h.1)
  ]

  pub merged-AreSelected :
      (done rs : List Relation)
      → All IsSelected done
      → All IsSelected rs
      → All IsSelected (merge_relations done rs)
  unfolding merge_relations
  merged-AreSelected done [] p h = p
  merged-AreSelected done (r ∷ rs) p h =
      merged-AreSelected (merge_relation r done) rs (merge-AreSelected r done h.0 p) h.1

pub all_mem :
    (xs ys : List String)
    → ((x : String) → mem x xs ≡ true → mem x ys ≡ true)
    → All (λ (s : String). mem s ys ≡ true) xs
unfolding mem
all_mem [] ys h = tt
all_mem (x ∷ xs) ys h = (h x (ground (arith, eq_refl x)), all_mem xs ys (λ y m. h y (ground arith)))
