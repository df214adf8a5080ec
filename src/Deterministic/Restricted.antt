-- ===== src/Deterministic/Restricted.antt =====
-- A proof of src/incident_platform/deterministic.py is one from the Evidence that it cites alone.
use agent_rca.Prelude.{
  String, ◌≡◌, refl, ap, sym, ◌∙◌, Bool, true, none, some, List, [], ◌∷◌, ◌++◌, ◌==◌, eq_refl, mem,
  all, keep, arith, Bool-cases, inl, inr,
}
use agent_rca.Outcome.{Result, ok, Result-cases}
use agent_rca.Documents.{Evidence}
use agent_rca.Runtime.{Runtime}
use agent_rca.Deterministic.{insufficient, proven, RuleEvaluation, select, first_pair}
use agent_rca.Deterministic.Rules.{
  oom_id, image_id, configmap_id, oom_rule, image_rule, configmap_rule, judged, evaluation,
  oom_signatures, oom_insufficient, image_insufficient, configmap_insufficient, is_restart,
  is_termination, is_kernel_oom, is_waiting, is_pull_event, is_missing_configmap, is_mount_event,
}
use agent_rca.Deterministic.Engine.{evaluate_rule, default_rules, find_rule}

keep_comm : (p q : Evidence → Bool) (xs : List Evidence) → keep q (keep p xs) ≡ keep p (keep q xs)
keep_comm p q [] = refl
keep_comm p q (x ∷ xs) = ground (arith, keep_comm p q xs)

keep-append :
    (p : Evidence → Bool) (xs ys : List Evidence) → keep p (xs ++ ys) ≡ keep p xs ++ keep p ys
keep-append p [] ys = refl
keep-append p (x ∷ xs) ys = ground (arith, keep-append p xs ys)

all-keep : (p q : Evidence → Bool) (xs : List Evidence) → all q xs ≡ true → all q (keep p xs) ≡ true
all-keep p q [] h = refl
all-keep p q (x ∷ xs) h = ground (arith, all-keep p q xs)

select-keep :
    (test : Evidence → Result Bool) (p : Evidence → Bool) (xs ys : List Evidence)
    → select test xs ≡ ok ys
    → select test (keep p xs) ≡ ok (keep p ys)
unfolding select
select-keep test p [] ys h = ground arith
select-keep test p (x ∷ xs) ys h = elim (Result-cases (test x)) [
  | inl (e, a) ↦ absurd (ground arith)
  | inr (b, a) ↦ elim (Result-cases (select test xs)) [
    | inl (e, q) ↦ absurd (ground arith)
    | inr (zs, q) ↦ ground (arith, select-keep test p xs zs)
  ]
]

module _ (c : Evidence → Evidence → Result Bool) (p : Evidence → Bool) (es : List Evidence)
    (s e : Evidence) (ps : p s ≡ true) (pe : p e ≡ true) where
  -- The first corroborated state, and the item that corroborates it, are those of the restriction.
  first_pair-keep :
      (ss : List Evidence)
      → first_pair c es ss ≡ ok (some (s, e))
      → first_pair c (keep p es) (keep p ss) ≡ ok (some (s, e))
  unfolding first_pair
  first_pair-keep [] h = ground arith
  first_pair-keep (t ∷ ss) h = elim (Result-cases (select (c t) es)) [
    | inl (x, a) ↦ absurd (ground arith)
    | inr ([], a) ↦ ground (arith, select-keep (c t) p es [], first_pair-keep ss)
    | inr (f ∷ fs, a) ↦ ground (arith, select-keep (c t) p es (f ∷ fs))
  ]

module _ (id : String) (c : Evidence → Evidence → Result Bool)
    (otherwise : List Evidence → RuleEvaluation) (es : List Evidence) where
  judged_proven :
      (ss : List Evidence) (s e : Evidence)
      → first_pair c es ss ≡ ok (some (s, e))
      → judged id c otherwise es ss
        ≡ ok (evaluation id proven (s.evidence_id ∷ e.evidence_id ∷ []) [])
  unfolding first_pair
  judged_proven [] s e h = absurd (ground arith)
  judged_proven (t ∷ ss) s e h = rw h refl

  judged_pair :
      (ss : List Evidence) (v : RuleEvaluation)
      → ((xs : List Evidence) → (otherwise xs).status ≡ insufficient)
      → judged id c otherwise es ss ≡ ok v
      → v.status ≡ proven
      → (s : Evidence) × (e : Evidence) × (first_pair c es ss ≡ ok (some (s, e)))
        × (v ≡ evaluation id proven (s.evidence_id ∷ e.evidence_id ∷ []) [])
  judged_pair [] v o h k = absurd (ground arith)
  judged_pair (t ∷ ss) v o h k = elim (Result-cases (first_pair c es (t ∷ ss))) [
    | inl (x, a) ↦ absurd (ground arith)
    | inr (none, a) ↦ absurd (ground (arith, o (t ∷ ss)))
    | inr (some (s, e), a) ↦ (s, e, a, ground arith)
  ]

-- the items that an evaluation cites
abbrev pub cited : RuleEvaluation → List Evidence → List Evidence
cited v = keep (λ e. mem e.evidence_id v.supporting_evidence_ids)

module _ (id : String) (c : Evidence → Evidence → Result Bool)
    (otherwise others : List Evidence → RuleEvaluation) (es ss : List Evidence)
    (v : RuleEvaluation) where
  judged-cited :
      ((xs : List Evidence) → (otherwise xs).status ≡ insufficient)
      → judged id c otherwise es ss ≡ ok v
      → v.status ≡ proven
      → judged id c others (cited v es) (cited v ss) ≡ ok v
  unfolding mem
  judged-cited o h k =
      let (s, e, found, whole) = judged_pair id c otherwise es ss v o h k in
      let p : Evidence → Bool = λ x. mem x.evidence_id v.supporting_evidence_ids in
      let ps : p s ≡ true = rw whole (rw (eq_refl s.evidence_id) refl) in
      let pe : p e ≡ true = rw whole (ground (arith, eq_refl e.evidence_id)) in
      judged_proven id c others (cited v es) (cited v ss) s e
        (first_pair-keep c p es s e ps pe ss found)
      ∙ ap ok (sym whole)

module _ (rt : Runtime) (es : List Evidence) (v : RuleEvaluation) (k : v.status ≡ proven) where
  oom_rule-cited : oom_rule rt es ≡ ok v → oom_rule rt (cited v es) ≡ ok v
  unfolding oom_rule
  oom_rule-cited h =
      let p : Evidence → Bool = λ x. mem x.evidence_id v.supporting_evidence_ids in
      let parts : oom_signatures rt (cited v es) ≡ cited v (oom_signatures rt es) =
        rw (keep_comm p (is_termination rt) es, keep_comm p (is_kernel_oom rt) es)
          (sym (keep-append p (keep (is_termination rt) es) (keep (is_kernel_oom rt) es))) in
      ap
        (judged oom_id (λ s e. ok (is_restart rt s e)) (oom_insufficient rt (cited v es))
          (cited v es))
        parts
      ∙ judged-cited oom_id (λ s e. ok (is_restart rt s e)) (oom_insufficient rt es)
          (oom_insufficient rt (cited v es)) es (oom_signatures rt es) v (λ xs. refl) h k

  image_rule-cited : image_rule rt es ≡ ok v → image_rule rt (cited v es) ≡ ok v
  unfolding image_rule
  image_rule-cited h = elim (Result-cases (select (is_waiting rt) es)) [
    | inl (x, a) ↦ absurd (ground arith)
    | inr (ss, a) ↦
        let again =
          select-keep (is_waiting rt) (λ x. mem x.evidence_id v.supporting_evidence_ids) es ss a in
        rw again (
          judged-cited image_id (is_pull_event rt) (image_insufficient rt) (image_insufficient rt)
            es ss v (λ xs. refl) (rw a at h) k)
  ]

  configmap_rule-cited : configmap_rule rt es ≡ ok v → configmap_rule rt (cited v es) ≡ ok v
  unfolding configmap_rule
  configmap_rule-cited h =
      ap (judged configmap_id (is_mount_event rt) (configmap_insufficient rt) (cited v es))
        (keep_comm (λ x. mem x.evidence_id v.supporting_evidence_ids) (is_missing_configmap rt) es)
      ∙ judged-cited configmap_id (is_mount_event rt) (configmap_insufficient rt)
          (configmap_insufficient rt) es (keep (is_missing_configmap rt) es) v (λ xs. refl) h k

  -- What a rule of the engine proves from some Evidence it proves, with the same result, from the
  -- Evidence that it cites alone.
  pub evaluate_rule-cited :
      (id : String)
      → evaluate_rule rt (default_rules rt) id es ≡ ok v
      → evaluate_rule rt (default_rules rt) id (cited v es) ≡ ok v
  unfolding evaluate_rule find_rule
  evaluate_rule-cited id h =
      let fits = all-keep (λ x. mem x.evidence_id v.supporting_evidence_ids) rt.valid_evidence es in
      elim (Bool-cases (oom_id == id)) [
        | inl e ↦ ground (arith, fits, oom_rule-cited)
        | inr e ↦ elim (Bool-cases (image_id == id)) [
          | inl f ↦ ground (arith, fits, image_rule-cited)
          | inr f ↦ ground (arith, fits, configmap_rule-cited)
        ]
      ]
