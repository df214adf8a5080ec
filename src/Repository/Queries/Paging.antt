-- ===== src/Repository/Queries/Paging.antt =====
-- `query_incidents` of src/incident_platform/repository.py, page by page.
use agent_rca.Prelude.{
  ℕ, String, ◌≡◌, refl, ap, sym, ◌∙◌, Bool, true, false, none, some, List, [], ◌∷◌, ◌++◌, All, keep,
  take, arith, Bool-cases, inl, inr, not, ◌==◌, ◌&&◌, eq_iff, unique, mem,
}
use agent_rca.Outcome.{ok}
use agent_rca.Dict.{Dict, keys, values}
use agent_rca.Dict.Unique.{IsDict, IsAt, entries, insert-IsDict}
use agent_rca.Sort.{sort_by}
use agent_rca.Sort.Pairs.{pair_le_total, pair_le_trans, pair_le_antisym}
use agent_rca.Sort.Sorted.{
  IsOrder, sort_by-IsSorted, keep-sort_by, AreApart, keep-AreApart, sort_by-AreApart, keep_after,
}
use agent_rca.Incident.{Incident}
use agent_rca.Runtime.{Runtime}
use agent_rca.Repository.{Repository, empty}
use agent_rca.Repository.Calls.{Call, IsTimed, run, run-IsIndexed, run-Steps}
use agent_rca.Repository.Step.{
  Step, creates, updates, touches, gathers, freezes, publishes, records, Steps, done, step,
}
use agent_rca.Repository.Step.Index.{IsIndexed, empty-IsIndexed}
use agent_rca.Repository.Queries.{
  Filters, matches, selected, by_time, past_cursor, latest_first, query_incidents,
  validate_query_limit, read_cursor, within,
}

abbrev pub newer : Incident → Incident → Bool
newer = latest_first by_time

newer-IsOrder : IsOrder newer
newer-IsOrder = record {
  total = λ a b. pair_le_total (by_time b) (by_time a);
  trans = λ a b c h k. pair_le_trans (by_time c) (by_time b) (by_time a) k h;
}

abbrev other_id : Incident → Incident → Bool
other_id i j = not (i.incident_id == j.incident_id)

other_id_sym : (i j : Incident) → other_id i j ≡ true → other_id j i ≡ true
other_id_sym i j h =
    ground (arith, eq_iff i.incident_id j.incident_id, eq_iff j.incident_id i.incident_id)

newer_strict : (i j : Incident) → newer i j ≡ true → newer j i ≡ true → other_id i j ≡ true → ⊥
newer_strict i j h k o =
    ground (arith, pair_le_antisym (by_time i) (by_time j) k h, eq_iff i.incident_id j.incident_id)

keep-keep {ℓ} :
    {A : Type ℓ} (p q : A → Bool) (xs : List A) → keep (λ x. p x && q x) xs ≡ keep q (keep p xs)
keep-keep p q [] = refl
keep-keep p q (x ∷ xs) = elim (Bool-cases (p x)) [
  | inl e ↦ elim (Bool-cases (q x)) [
    | inl f ↦ rw (e, f, keep-keep p q xs) refl
    | inr f ↦ rw (e, f, keep-keep p q xs) refl
  ]
  | inr e ↦ rw (e, keep-keep p q xs) refl
]

keep_all {ℓ} : {A : Type ℓ} (p : A → Bool) (xs : List A) → keep (λ x. p x && true) xs ≡ keep p xs
keep_all p [] = refl
keep_all p (x ∷ xs) = elim (Bool-cases (p x)) [
  | inl e ↦ rw (e, keep_all p xs) refl
  | inr e ↦ rw (e, keep_all p xs) refl
]

others_apart :
    (i : Incident) (key : String) (es : Dict Incident)
    → i.incident_id ≡ key
    → mem key (keys es) ≡ false
    → All (λ e. e.1.incident_id ≡ e.0) es
    → All (λ j. other_id i j ≡ true) (values es)
unfolding mem
others_apart i key [] own m h = tt
others_apart i key ((k, j) ∷ es) own m h = (
  ground (arith, eq_iff i.incident_id j.incident_id, eq_iff key k, h.0),
  others_apart i key es own (ground arith) h.1,
)

values-AreApart :
    (d : Dict Incident)
    → IsDict d
    → All (λ e. e.1.incident_id ≡ e.0) d
    → AreApart other_id (values d)
unfolding unique
values-AreApart [] u h = tt
values-AreApart ((k, i) ∷ d) u h =
    (others_apart i k d h.0 (ground arith) h.1, values-AreApart d (ground arith) h.1)

own_ids :
    (r : Repository)
    → IsIndexed r
    → (es : Dict Incident) → All (IsAt r.incidents) es
    → All (λ e. e.1.incident_id ≡ e.0) es
own_ids r h [] at = tt
own_ids r h (e ∷ es) at = (h.own_id e.0 e.1 at.0, own_ids r h es at.1)

module _ (rt : Runtime) (f : Filters) (r : Repository) where
  -- All incidents that the filters select, the latest first.
  abbrev pub listing : List Incident
  listing = sort_by newer (keep (matches rt f) (values r.incidents))

  module _ (limit : ℕ) (fits : within limit 101 ≡ true) where
    -- A query without a cursor answers with the first `limit` rows of the listing, for a limit
    -- from 1 to 101, and writes nothing.
    pub first_page : query_incidents rt f none none limit r ≡ (ok (take limit listing), r)
    unfolding query_incidents validate_query_limit read_cursor
    first_page = rw (fits, keep_all (matches rt f) (values r.incidents)) refl

    next_page_lem :
        (c : Incident)
        → query_incidents rt f (some c.updated_at) (some c.incident_id) limit r
          ≡ (ok (take limit (sort_by newer (selected rt f (some (by_time c)) r))), r)
    unfolding query_incidents validate_query_limit read_cursor
    next_page_lem c = rw fits refl

    -- the page after an incident of the listing
    next_page :
        (seen : List Incident) (c : Incident) (ahead : List Incident)
        → IsIndexed r
        → IsDict r.incidents
        → listing ≡ seen ++ c ∷ ahead
        → query_incidents rt f (some c.updated_at) (some c.incident_id) limit r
          ≡ (ok (take limit ahead), r)
    next_page seen c ahead h d split =
        let apart =
          values-AreApart r.incidents d (own_ids r h r.incidents (entries r.incidents d)) in
        let apart' = keep-AreApart other_id (matches rt f) (values r.incidents) apart in
        let apart'' =
          sort_by-AreApart other_id newer other_id_sym (keep (matches rt f) (values r.incidents))
            apart' in
        let sorted =
          sort_by-IsSorted newer newer-IsOrder (keep (matches rt f) (values r.incidents)) in
        let rest : sort_by newer (selected rt f (some (by_time c)) r) ≡ ahead =
          ap (sort_by newer)
            (keep-keep (matches rt f) (past_cursor (some (by_time c))) (values r.incidents))
          ∙ (sym (
                keep-sort_by newer newer-IsOrder (past_cursor (some (by_time c)))
                  (keep (matches rt f) (values r.incidents)))
              ∙ (ap (keep (past_cursor (some (by_time c)))) split
                  ∙ keep_after other_id newer other_id_sym newer-IsOrder newer_strict seen c ahead
                      (rw (sym split) sorted) (rw (sym split) apart''))) in
        rw (next_page_lem c, rest) refl

Step-IsDict : {r s : Repository} → Step r s → IsDict r.incidents → IsDict s.incidents
Step-IsDict {r} (creates i stamp _ _ e) h = rw e (insert-IsDict i.incident_id i r.incidents h)
Step-IsDict {r} (updates id i j _ stamp _ _ _ e) h = rw e (insert-IsDict id j r.incidents h)
Step-IsDict {r} (touches id i j _ _ _ e) h = rw e (insert-IsDict id j r.incidents h)
Step-IsDict (gathers _ _ _ _ _ e) h = rw e h
Step-IsDict (freezes _ _ _ _ e) h = rw e h
Step-IsDict (publishes _ _ _ _ _ _ _ e) h = rw e h
Step-IsDict (records _ _ _ _ _ e) h = rw e h

Steps-IsDict : {r s : Repository} → Steps r s → IsDict r.incidents → IsDict s.incidents
Steps-IsDict done h = h
Steps-IsDict (step x p) h = Steps-IsDict p (Step-IsDict x h)

empty-IsDict : IsDict empty.incidents
unfolding empty unique
empty-IsDict = refl

-- After any calls that give creation a time with a timezone, a query from the cursor of an incident
-- in the listing, which has all incidents that the filters select, the latest first, answers with
-- exactly the next `limit` rows of the listing after that incident, for a limit from 1 to 101.
pub run-next_page :
    (rt : Runtime) (cs : List Call) (f : Filters) (limit : ℕ) (seen : List Incident) (c : Incident)
    (ahead : List Incident)
    → All IsTimed cs
    → within limit 101 ≡ true
    → listing rt f (run rt cs empty) ≡ seen ++ c ∷ ahead
    → query_incidents rt f (some c.updated_at) (some c.incident_id) limit (run rt cs empty)
      ≡ (ok (take limit ahead), run rt cs empty)
run-next_page rt cs f limit seen c ahead timed fits split =
    next_page rt f (run rt cs empty) limit fits seen c ahead (run-IsIndexed rt cs timed)
      (Steps-IsDict (run-Steps rt cs empty timed empty-IsIndexed) empty-IsDict) split
