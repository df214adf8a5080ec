-- ===== src/Repository/Queries/Reports.antt =====
-- `query_reports` of src/incident_platform/repository.py: the latest Reports, each with its Markdown.
use mathlib.Core.List.{Perm}
use agent_rca.Prelude.{
  ℕ, String, ◌≡◌, refl, Bool, true, some, zero, suc, List, [], ◌∷◌, All, keep, take, map, arith,
  Bool-cases, Option-cases, inl, inr, ◌==◌, eq_refl,
}
use agent_rca.Outcome.{ok}
use agent_rca.Dict.{Dict, lookup, insert, values, has, lookup-insert}
use agent_rca.Dict.Unique.{sort_by-All}
use agent_rca.Documents.{Report}
use agent_rca.Runtime.{Runtime}
use agent_rca.Sort.{sort_by-perm}
use agent_rca.Sort.Sorted.{IsOrder, IsSorted, sort_by-IsSorted}
use agent_rca.Sort.Pairs.{pair_le_total, pair_le_trans}
use agent_rca.Repository.{Repository, empty, require_incident}
use agent_rca.Repository.Calls.{Call, IsTimed, run, run-Steps}
use agent_rca.Repository.Step.{
  Step, creates, updates, touches, gathers, freezes, publishes, records, Steps, done, step,
}
use agent_rca.Repository.Step.Index.{empty-IsIndexed}
use agent_rca.Repository.Queries.{
  query_reports, validate_query_limit, with_markdown, reports_of, latest_first, within,
}

-- Every stored Report has Markdown under its id.
abbrev HaveMarkdown : Repository → Type 0
HaveMarkdown r = All (λ p. has p.report_id r.report_markdown ≡ true) (values r.reports)

insert-All {ℓ} :
    {V : Type ℓ} (P : V → Type 0) (k : String) (v : V) (d : Dict V)
    → P v
    → All P (values d)
    → All P (values (insert k v d))
unfolding insert
insert-All P k v [] p h = (p, tt)
insert-All P k v ((j, w) ∷ d) p h = elim (Bool-cases (j == k)) [
  | inl e ↦ rw e (p, h.1)
  | inr e ↦ rw e (h.0, insert-All P k v d p h.1)
]

more_markdown :
    (key markdown : String) (d : Dict String) (ps : List Report)
    → All (λ p. has p.report_id d ≡ true) ps
    → All (λ p. has p.report_id (insert key markdown d) ≡ true) ps
more_markdown key markdown d [] h = tt
more_markdown key markdown d (p ∷ ps) h =
    (rw lookup-insert (ground (arith, h.0)), more_markdown key markdown d ps h.1)

Step-HaveMarkdown : {r s : Repository} → Step r s → HaveMarkdown r → HaveMarkdown s
Step-HaveMarkdown (creates _ _ _ _ e) h = rw e h
Step-HaveMarkdown (updates _ _ _ _ _ _ _ _ e) h = rw e h
Step-HaveMarkdown (touches _ _ _ _ _ _ e) h = rw e h
Step-HaveMarkdown (gathers _ _ _ _ _ e) h = rw e h
Step-HaveMarkdown (freezes _ _ _ _ e) h = rw e h
Step-HaveMarkdown {r} (publishes p markdown _ _ _ _ _ e) h = rw e (
    insert-All (λ q. has q.report_id (insert p.report_id markdown r.report_markdown) ≡ true)
      p.report_id p r.reports (rw lookup-insert (ground (arith, eq_refl p.report_id)))
      (more_markdown p.report_id markdown r.report_markdown (values r.reports) h))
Step-HaveMarkdown (records _ _ _ _ _ e) h = rw e h

Steps-HaveMarkdown : {r s : Repository} → Steps r s → HaveMarkdown r → HaveMarkdown s
Steps-HaveMarkdown done h = h
Steps-HaveMarkdown (step x p) h = Steps-HaveMarkdown p (Step-HaveMarkdown x h)

empty-HaveMarkdown : HaveMarkdown empty
unfolding empty
empty-HaveMarkdown = tt

module _ {ℓ} {A : Type ℓ} (P : A → Type 0) where
  keep-All : (p : A → Bool) (xs : List A) → All P xs → All P (keep p xs)
  keep-All p [] h = tt
  keep-All p (x ∷ xs) h = elim (Bool-cases (p x)) [
    | inl e ↦ rw e (h.0, keep-All p xs h.1)
    | inr e ↦ rw e (keep-All p xs h.1)
  ]

  take-All : (n : ℕ) (xs : List A) → All P xs → All P (take n xs)
  take-All zero xs h = tt
  take-All (suc n) [] h = tt
  take-All (suc n) (x ∷ xs) h = (h.0, take-All n xs h.1)

-- The text is the one that stands under the Report's id.
abbrev pub HasText : Dict String → Report × String → Type 0
HasText d (p, text) = lookup p.report_id d ≡ some text

with_markdown_lem :
    (d : Dict String) (ps : List Report)
    → All (λ p. has p.report_id d ≡ true) ps
    → (rows : List (Report × String)) × (with_markdown d ps ≡ ok rows)
      × (map (λ row. row.0) rows ≡ ps)
      × All (HasText d) rows
unfolding with_markdown
with_markdown_lem d [] h = ([], refl, refl, tt)
with_markdown_lem d (p ∷ ps) h = elim (Option-cases (lookup p.report_id d)) [
  | inl e ↦ absurd (ground (arith, h.0))
  | inr (text, e) ↦
      let (rows, q, same, texts) = with_markdown_lem d ps h.1 in
      ((p, text) ∷ rows, rw (e, q) refl, rw same refl, (e, texts))
]

abbrev pub newer_report : Report → Report → Bool
newer_report = latest_first (λ p. (p.generated_at, p.report_id))

newer_report-IsOrder : IsOrder newer_report
newer_report-IsOrder = record {
  total = λ a b. pair_le_total (b.generated_at, b.report_id) (a.generated_at, a.report_id);
  trans = λ a b c h k.
      pair_le_trans (c.generated_at, c.report_id) (b.generated_at, b.report_id)
        (a.generated_at, a.report_id) k h;
}

-- The rows are the first `limit` of the incident's stored Reports, put in order with the latest
-- first, each with the Markdown that is stored under its id.
pub record AreReports (id : String) (limit : ℕ) (r : Repository) (rows : List (Report × String))
    : Type 0 where
  pub whole : List Report
  pub own : Perm whole (keep (λ p. p.incident_id == id) (values r.reports))
  pub ordered : IsSorted newer_report whole
  pub first : map (λ row. row.0) rows ≡ take limit whole
  pub texts : All (HasText r.report_markdown) rows

answered :
    (id : String) (limit : ℕ) (r : Repository) (rows : List (Report × String))
    → within limit 51 ≡ true
    → has id r.incidents ≡ true
    → with_markdown r.report_markdown (take limit (reports_of id r)) ≡ ok rows
    → query_reports id limit r ≡ (ok rows, r)
unfolding query_reports validate_query_limit require_incident
answered id limit r rows fits there q = elim (Option-cases (lookup id r.incidents)) [
  | inl e ↦ absurd (ground arith)
  | inr (i, e) ↦ rw (fits, e, q) refl
]

-- After any calls that give creation a time with a timezone, the query of a known incident's Reports,
-- for a limit from 1 to 51, returns: it gives the first `limit` of that incident's stored Reports,
-- put in order with the latest first, each with the Markdown that is stored under its id.
pub query_reports_returns :
    (rt : Runtime) (cs : List Call) (id : String) (limit : ℕ)
    → All IsTimed cs
    → within limit 51 ≡ true
    → has id (run rt cs empty).incidents ≡ true
    → (rows : List (Report × String)) × (query_reports id limit (run rt cs empty)
        ≡ (ok rows, run rt cs empty))
      × AreReports id limit (run rt cs empty) rows
query_reports_returns rt cs id limit timed fits there =
    let r = run rt cs empty in
    let all = Steps-HaveMarkdown (run-Steps rt cs empty timed empty-IsIndexed) empty-HaveMarkdown in
    let mine = keep (λ p. p.incident_id == id) (values r.reports) in
    let listed =
      take-All (λ p. has p.report_id r.report_markdown ≡ true) limit (reports_of id r)
        (sort_by-All newer_report (λ p. has p.report_id r.report_markdown ≡ true) mine
          (keep-All (λ p. has p.report_id r.report_markdown ≡ true) (λ p. p.incident_id == id)
            (values r.reports) all)) in
    let (rows, q, same, texts) =
      with_markdown_lem r.report_markdown (take limit (reports_of id r)) listed in
    (
      rows,
      answered id limit r rows fits there q,
      record {
        whole = reports_of id r;
        own = sort_by-perm newer_report mine;
        ordered = sort_by-IsSorted newer_report newer_report-IsOrder mine;
        first = same;
        texts = texts;
      },
    )
