-- ===== src/Gate/Accepted.antt =====
-- What an accepted draft guarantees.
use agent_rca.Prelude.{
  sym, keep, Option-cases, inl, inr, String, ◌≡◌, refl, Bool, true, Option, none, some, List, [],
  ◌∷◌, ◌++◌, ◌≤◌, mem, subset, subset-append, All, arith,
}
use agent_rca.Documents.{Evidence, context_evidence_ids}
use agent_rca.Gate.{
  Draft, DraftClaim, DraftHypothesis, conclusive, Decision, partial_decision, inconclusive,
  GatePolicy, Investigation, GateInput, accepted, claims_of, cited_evidence, cited_references,
  are_ranked, channels_of, count_distinct, is_none_left, same_cause,
}
use agent_rca.Gate.Validate.{
  validate, check_citations, check_claims, check_root, check_decision, supporting_items,
  check_channels, check_conclusive,
}

-- Everything that a claim cites is in both lists.
pub record IsCitedFrom (evidence references : List String) (c : DraftClaim) : Type 0 where
  pub supporting : subset c.supporting_evidence_ids evidence ≡ true
  pub contradicting : subset c.contradicting_evidence_ids evidence ≡ true
  pub referenced : subset c.reference_document_ids references ≡ true

claims-AreCited :
    (evidence references : List String) (cs : List DraftClaim)
    → subset (cited_evidence cs) evidence ≡ true
    → subset (cited_references cs) references ≡ true
    → All (IsCitedFrom evidence references) cs
unfolding cited_evidence cited_references
claims-AreCited evidence references [] h k = tt
claims-AreCited evidence references (c ∷ cs) h k =
    let e =
      subset-append c.supporting_evidence_ids (c.contradicting_evidence_ids ++ cited_evidence cs)
        evidence in
    let f = subset-append c.contradicting_evidence_ids (cited_evidence cs) evidence in
    let g = subset-append c.reference_document_ids (cited_references cs) references in
    (
      record {
        supporting = ground (arith, e);
        contradicting = ground (arith, e, f);
        referenced = ground (arith, g);
      },
      claims-AreCited evidence references cs (ground (arith, e, f)) (ground (arith, g)),
    )

-- The root cause is the leading hypothesis's, and the proof engine proves it from the Evidence that it
-- cites.
pub record IsProven (proven : Option String → List Evidence → Bool) (g : GateInput) (d : Draft)
    (root : DraftClaim) : Type 0 where
  pub leading : DraftHypothesis
  pub others : List DraftHypothesis
  pub leads : d.hypotheses ≡ leading ∷ others
  pub rank_one : leading.rank ≡ 1
  pub same : same_cause leading.claim.cause_id root.cause_id ≡ true
  pub proof :
      proven root.cause_id (keep (λ e. mem e.evidence_id root.supporting_evidence_ids) g.evidence)
      ≡ true

-- What a conclusive draft has.
pub record IsConclusive (policy : GatePolicy) (g : GateInput) (d : Draft) : Type 0 where
  pub root : DraftClaim
  pub there : d.root_cause ≡ some root
  pub uncontradicted : root.contradicting_evidence_ids ≡ []
  pub channels : List (String × String)
  pub read : channels_of root.supporting_evidence_ids g.evidence ≡ some channels
  pub enough : policy.minimum_conclusive_evidence_channels ≤ count_distinct channels
  pub complete : policy.minimum_conclusive_context_completeness ≤ g.context_completeness
  pub no_failure : g.collector_failures ≡ []

none_left {ℓ} : {A : Type ℓ} (xs : List A) → is_none_left xs ≡ true → xs ≡ []
none_left [] h = refl
none_left (x ∷ xs) h = absurd (ground arith)

first_rank :
    (h : DraftHypothesis) (hs : List DraftHypothesis) → are_ranked 1 (h ∷ hs) ≡ true → h.rank ≡ 1
unfolding are_ranked
first_rank h hs r = ground arith

module _ (valid_draft : Draft → Bool) (proven : Option String → List Evidence → Bool)
    (policy : GatePolicy) (g : GateInput) (v : Investigation) where
  root-IsProven :
      (d : Draft) (hs : List DraftHypothesis) (root : DraftClaim)
      → d.hypotheses ≡ hs
      → are_ranked 1 hs ≡ true
      → check_root valid_draft proven g hs (some root) ≡ accepted
      → IsProven proven g d root
  unfolding check_root supporting_items
  root-IsProven d [] root e r h = absurd (ground arith)
  root-IsProven d (leading ∷ others) root e r h = record {
    leading = leading;
    others = others;
    leads = e;
    rank_one = first_rank leading others r;
    same = ground arith;
    proof = ground arith;
  }

  root-IsConclusive :
      (d : Draft) (root : Option DraftClaim)
      → d.root_cause ≡ root
      → check_conclusive policy g root ≡ accepted
      → IsConclusive policy g d
  unfolding check_conclusive check_channels
  root-IsConclusive d none e h = absurd (ground arith)
  root-IsConclusive d (some root) e h =
      elim (Option-cases (channels_of root.supporting_evidence_ids g.evidence)) [
        | inl lost ↦ absurd (ground arith)
        | inr (channels, read) ↦ record {
          root = root;
          there = e;
          uncontradicted = none_left root.contradicting_evidence_ids (ground arith);
          channels = channels;
          read = read;
          enough = ground arith;
          complete = ground arith;
          no_failure = none_left g.collector_failures (ground arith);
        }
      ]

  module _ (d : Draft) where
    passed :
        validate valid_draft proven policy g v d ≡ accepted
        → (check_citations d g v ≡ accepted)
          × (check_claims d g ≡ accepted)
          × (check_root valid_draft proven g d.hypotheses d.root_cause ≡ accepted)
          × (check_decision policy g d d.decision d.root_cause ≡ accepted)
    unfolding validate
    passed h = (ground arith, ground arith, ground arith, ground arith)

    cited :
        check_citations d g v ≡ accepted
        → All (IsCitedFrom (context_evidence_ids g.context) g.available_references) (claims_of d)
          × All (IsCitedFrom v.inspected_evidence_ids v.inspected_reference_ids) (claims_of d)
    unfolding check_citations
    cited h = (
      claims-AreCited (context_evidence_ids g.context) g.available_references (claims_of d)
          (ground arith) (ground arith),
      claims-AreCited v.inspected_evidence_ids v.inspected_reference_ids (claims_of d)
          (ground arith) (ground arith),
    )

    ranked : check_claims d g ≡ accepted → are_ranked 1 d.hypotheses ≡ true
    unfolding check_claims
    ranked h = ground arith

    concluded :
        (x : Decision)
        → x ≡ conclusive
        → check_decision policy g d x d.root_cause ≡ accepted
        → check_conclusive policy g d.root_cause ≡ accepted
    unfolding check_decision
    concluded conclusive e h = h
    concluded partial_decision e h = absurd (ground arith)
    concluded inconclusive e h = absurd (ground arith)

    -- In a draft that the gate accepts, every claim, the hypotheses' and the root cause's, cites only
    -- Evidence of the frozen Context Package and references that were retrieved, and only what the
    -- Agent has inspected.
    pub accepted_citations :
        validate valid_draft proven policy g v d ≡ accepted
        → All (IsCitedFrom (context_evidence_ids g.context) g.available_references) (claims_of d)
          × All (IsCitedFrom v.inspected_evidence_ids v.inspected_reference_ids) (claims_of d)
    accepted_citations h = cited (passed h).0

    -- The root cause of a draft that the gate accepts is the cause of its first hypothesis, which has
    -- rank one, and the proof engine proves it from the Evidence that it cites as supporting it.
    pub accepted_root :
        (root : DraftClaim)
        → d.root_cause ≡ some root
        → validate valid_draft proven policy g v d ≡ accepted
        → IsProven proven g d root
    accepted_root root e h =
        let (_, claiming, rooting, _) = passed h in
        root-IsProven d d.hypotheses root refl (ranked claiming) (rw (sym e) rooting)

    -- A conclusive draft that the gate accepts has a root cause that nothing contradicts, whose
    -- Evidence comes from at least the policy's number of distinct channels, over a Context Package
    -- that is as complete as the policy asks and in which no collector failed.
    pub accepted_conclusive :
        d.decision ≡ conclusive
        → validate valid_draft proven policy g v d ≡ accepted
        → IsConclusive policy g d
    accepted_conclusive e h =
        root-IsConclusive d d.root_cause refl (concluded d.decision e (passed h).3)
