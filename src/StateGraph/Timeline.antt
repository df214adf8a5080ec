-- ===== src/StateGraph/Timeline.antt =====
-- The intervals of a history of src/incident_platform/stategraph.py, latest first: timelines, and what
-- may be put on top of one.
use agent_rca.Prelude.{
  String, true, false, Option, none, some, List, [], ◌∷◌, ◌≡◌, refl, inl, inr, arith,
}
use agent_rca.Outcome.{ok, Result-cases}
use agent_rca.Time.{DateTime, at_most}
use agent_rca.Runtime.{Runtime, parse_time}
use agent_rca.StateGraph.{Snapshot, Relation}
use agent_rca.StateGraph.Validate.{parse_optional, ends_after, ended_by}
use agent_rca.StateGraph.Write.{is_open}

abbrev pub Interval : Type 0
Interval = String × Option String

abbrev pub snapshot_interval : Snapshot → Interval
snapshot_interval s = (s.valid_from, s.valid_to)

abbrev pub relation_interval : Relation → Interval
relation_interval r = (r.valid_from, r.valid_to)

module _ (rt : Runtime) where
  -- A readable start, and a readable end that is not before it.
  abbrev pub IsInterval : Interval → Type 0
  IsInterval (from, to) =
      (a : DateTime) × (b : Option DateTime) × (parse_time rt from ≡ ok a)
      × (parse_optional rt to ≡ ok b)
      × (ends_after a b ≡ true)

  -- The earlier interval is closed, and ends when the later one starts or before.
  abbrev pub Follows : Interval → Interval → Type 0
  Follows later (from, none) = ⊥
  Follows later (from, some to) =
      (a b : DateTime) × (parse_time rt later.0 ≡ ok a)
      × (parse_time rt to ≡ ok b)
      × (at_most b a ≡ true)

  -- Every interval follows the one before it, so at most the latest is open, and no two overlap.
  abbrev pub IsTimeline : List Interval → Type 0
  IsTimeline [] = Unit
  IsTimeline (x ∷ []) = IsInterval x
  IsTimeline (x ∷ y ∷ ys) = IsInterval x × Follows x y × IsTimeline (y ∷ ys)

  latest_interval : (x : Interval) (ys : List Interval) → IsTimeline (x ∷ ys) → IsInterval x
  latest_interval x [] h = h
  latest_interval x (y ∷ ys) h = h.0

  -- Only what stands below the latest interval depends on its start.
  pub changed_end :
      (from : String) (to end : Option String) (ys : List Interval)
      → IsTimeline ((from, to) ∷ ys)
      → IsInterval (from, end)
      → IsTimeline ((from, end) ∷ ys)
  changed_end from to end [] h k = k
  changed_end from to end (y ∷ ys) h k = (k, h.1, h.2)

  -- After an interval that is closed no later than the new one starts.
  pub appended :
      (x : Interval) (from : String) (to : Option String) (ys : List Interval) (a : DateTime)
      (b : Option DateTime)
      → IsTimeline ((from, to) ∷ ys)
      → IsInterval x
      → parse_time rt x.0 ≡ ok a
      → parse_optional rt to ≡ ok b
      → ended_by b a ≡ true
      → is_open to ≡ false
      → IsTimeline (x ∷ (from, to) ∷ ys)
  appended x from none ys a b h k p q e o = absurd (cc o)
  appended x from (some to) ys a b h k p q e o = elim (Result-cases (parse_time rt to)) [
    | inl (f, r) ↦ absurd (ground arith)
    | inr (t, r) ↦ (k, (a, t, p, r, ground arith), h)
  ]

  -- After an open interval, which the new one's start closes.
  pub succeeded :
      (x : Interval) (from : String) (ys : List Interval) (f a : DateTime)
      → IsTimeline ((from, none) ∷ ys)
      → IsInterval x
      → parse_time rt from ≡ ok f
      → parse_time rt x.0 ≡ ok a
      → at_most f a ≡ true
      → IsTimeline (x ∷ (from, some x.0) ∷ ys)
  succeeded x from ys f a h k p q e = (
    k,
    (a, a, q, q, ground arith),
    changed_end from none (some x.0) ys h (f, some a, p, rw q refl, e),
  )
