-- ===== src/Policy/Evaluator/Compliance.antt =====
-- The evaluator's decision is exactly what the rules of the policy say.
use agentic_ai_software_engi.Words
use agentic_ai_software_engi.Base.{
  Text, text_eq, false, ◌≡◌, ◌≢◌, ◌↔◌, ◌⊎◌, inl, inr, refl, sym, subst, Option, none, some, List,
  [], ◌∷◌, arith, append-eq-nil, upper, strip, or_text,
}
use agentic_ai_software_engi.Base.Dict.{lookup}
use agentic_ai_software_engi.Policy.Schema.{
  PolicyDecision, allow, block, PolicyViolation, PolicyConfig, Mark, held, passed,
}
use agentic_ai_software_engi.Policy.Change.{PolicyRequest}
use agentic_ai_software_engi.Policy.Evaluator.{
  norm_risk, risk_decision, risk_mark, risk_violations, risk_warnings, all_violations, decide,
  policy_of, evaluate_with, needs_approval, evaluate,
}
use agentic_ai_software_engi.Policy.Evaluator.Rules.{Complies, Level, Threshold, RiskIsRoutine}
use agentic_ai_software_engi.Policy.Evaluator.Parts.{
  repository_violations-nil, branch_violations-nil, path_violations-nil, limit_violations-nil,
  quality_violations-nil, model_violations-nil,
}

Level-cases :
    (r l : Text)
    → ((r ≡ [] → l ≡ upper (strip Words.low)) × (r ≢ [] → l ≡ upper (strip r)))
      ↔ (l ≡ upper (strip (or_text r Words.low)))
Level-cases [] l = ((λ h. h.0 refl), (λ e. ((λ n. e), (λ n. absurd (n refl)))))
Level-cases (c ∷ r) l = ((λ h. h.1 (λ e. ground arith)), (λ e. ((λ n. ground arith), (λ n. e))))

norm_risk-Level : (q : PolicyRequest) (l : Text) → Level q l ↔ (l ≡ norm_risk q)
unfolding norm_risk
norm_risk-Level q l = Level-cases q.risk_score l

Threshold-cases :
    (o : Option Text) (d : Text)
    → (((x : Text) × (o ≡ some x) × (d ≡ upper x)) ⊎ ((o ≡ none) × (d ≡ upper Words.review)))
      ↔ (d ≡ elim o [ none ↦ upper Words.review | some x ↦ upper x ])
Threshold-cases none d = ((λ h. ground (arith, h)), (λ e. inr (refl, e)))
Threshold-cases (some x) d = ((λ h. ground (arith, h)), (λ e. inl (x, refl, e)))

risk_decision-Threshold :
    (p : PolicyConfig) (q : PolicyRequest) (d : Text)
    → Threshold p (norm_risk q) d ↔ (d ≡ risk_decision p q)
unfolding risk_decision
risk_decision-Threshold p q d = Threshold-cases (lookup (norm_risk q) p.risk_thresholds) d

-- No level that the change has is decided that way.
Threshold-Level :
    (p : PolicyConfig) (q : PolicyRequest) (d : Text)
    → ((l : Text) → Level q l → ¬ Threshold p l d) ↔ (risk_decision p q ≢ d)
Threshold-Level p q d = (
  λ h e.
      h (norm_risk q) ((norm_risk-Level q (norm_risk q)).1 refl)
        ((risk_decision-Threshold p q d).1 (sym e)),
  λ n l level t. n (
      sym (
        (risk_decision-Threshold p q d).0
          (subst (λ x. Threshold p x d) ((norm_risk-Level q l).0 level) t))),
)

risk_violations-nil :
    (p : PolicyConfig) (q : PolicyRequest)
    → (risk_violations p q ≡ [])
      ↔ ((¬ Level q Words.critical) × ((l : Text) → Level q l → ¬ Threshold p l Words.block))
unfolding risk_violations risk_mark
risk_violations-nil p q =
    let level = norm_risk-Level q Words.critical in
    let threshold = Threshold-Level p q Words.block in
    let marks : (risk_violations p q ≡ [])
        ↔ ((norm_risk q ≢ Words.critical) × (risk_decision p q ≢ Words.block)) =
      ground arith in
    (
      (λ e. let (a, b) = marks.0 e in ((λ l. a (sym (level.0 l))), threshold.1 b)),
      (λ (a, b). marks.1 ((λ e. a (level.1 (sym e))), threshold.0 b)),
    )

all_violations-nil :
    (p : PolicyConfig) (q : PolicyRequest) → (all_violations p q ≡ []) ↔ Complies p q
unfolding all_violations
all_violations-nil p q = (
  λ e.
      let (repository, e₁) = (append-eq-nil _ _).0 e in
      let (branch, e₂) = (append-eq-nil _ _).0 e₁ in
      let (files, e₃) = (append-eq-nil _ _).0 e₂ in
      let (limits, e₄) = (append-eq-nil _ _).0 e₃ in
      let (quality, e₅) = (append-eq-nil _ _).0 e₄ in
      let (model, risk) = (append-eq-nil _ _).0 e₅ in
      record {
        repository = (repository_violations-nil p.allowed_repositories q.repository).0 repository;
        branch = (branch_violations-nil p q.branch).0 branch;
        files = (path_violations-nil p q.changed_files).0 files;
        limits = (limit_violations-nil p q).0 limits;
        quality = (quality_violations-nil p q.quality_results).0 quality;
        model = (model_violations-nil p.allowed_models q.model).0 model;
        not_critical = ((risk_violations-nil p q).0 risk).0;
        not_blocked = ((risk_violations-nil p q).0 risk).1;
      },
  λ c. (append-eq-nil _ _).1 (
    (repository_violations-nil p.allowed_repositories q.repository).1 c.repository,
    (append-eq-nil _ _).1 (
      (branch_violations-nil p q.branch).1 c.branch,
      (append-eq-nil _ _).1 (
        (path_violations-nil p q.changed_files).1 c.files,
        (append-eq-nil _ _).1 (
          (limit_violations-nil p q).1 c.limits,
          (append-eq-nil _ _).1 (
            (quality_violations-nil p q.quality_results).1 c.quality,
            (append-eq-nil _ _).1 (
              (model_violations-nil p.allowed_models q.model).1 c.model,
              (risk_violations-nil p q).1 (c.not_critical, c.not_blocked),
            ),
          ),
        ),
      ),
    ),
  ),
)

risk_warnings-nil :
    (p : PolicyConfig) (q : PolicyRequest)
    → risk_violations p q ≡ []
    → ((risk_warnings p q ≡ []) × (risk_mark p q ≢ held)) ↔ RiskIsRoutine p q
unfolding risk_violations risk_mark risk_warnings
risk_warnings-nil p q e =
    let medium = norm_risk-Level q Words.medium in
    let high = norm_risk-Level q Words.high in
    let threshold = Threshold-Level p q Words.review in
    let marks : ((risk_warnings p q ≡ []) × (risk_mark p q ≢ held)) ↔ (
        (norm_risk q ≢ Words.medium)
        × (norm_risk q ≢ Words.high)
        × (risk_decision p q ≢ Words.review)) =
      ground arith in
    (
      (λ k.
          let (a, b, c) = marks.0 k in
          record {
            not_medium = λ l. a (sym (medium.0 l));
            not_high = λ l. b (sym (high.0 l));
            not_review = threshold.1 c;
          }),
      (λ r. marks.1 (
        (λ x. r.not_medium (medium.1 (sym x))),
        (λ x. r.not_high (high.1 (sym x))),
        threshold.0 r.not_review,
      )),
    )

decide-allow :
    (vs : List PolicyViolation) (ws : List Text) (m : Mark)
    → (decide vs ws m ≡ allow) ↔ ((vs ≡ []) × ((ws ≡ []) × (m ≢ held)))
decide-allow [] [] passed = ground arith
decide-allow _ _ _ = ground arith

decide-block :
    (vs : List PolicyViolation) (ws : List Text) (m : Mark) → (decide vs ws m ≢ block) ↔ (vs ≡ [])
decide-block [] [] passed = ground arith
decide-block _ _ _ = ground arith

all_violations-risk :
    (p : PolicyConfig) (q : PolicyRequest) → Complies p q → risk_violations p q ≡ []
all_violations-risk p q c = (risk_violations-nil p q).1 (c.not_critical, c.not_blocked)

needs_approval-allow : (d : PolicyDecision) → (needs_approval d ≡ false) ↔ (d ≡ allow)
needs_approval-allow allow = ground arith
needs_approval-allow _ = ground arith

-- The decision is BLOCK exactly if the change does not comply with the policy: its repository, branch,
-- paths, limits, checks, model and risk, as Evaluator/Rules says them without the evaluator. Of the
-- required checks a FAIL alone is a breach, and a check that is missing or skipped is none.
pub evaluate-block :
    (o : Option PolicyConfig) (q : PolicyRequest)
    → ((evaluate o q).decision ≢ block) ↔ Complies (policy_of o) q
unfolding evaluate evaluate_with
evaluate-block o q =
    let p = policy_of o in
    let decided = decide-block (all_violations p q) (risk_warnings p q) (risk_mark p q) in
    (λ h. (all_violations-nil p q).0 (decided.0 h), λ c. decided.1 ((all_violations-nil p q).1 c))

-- The decision is ALLOW exactly if the change complies with the policy, as above, and its level of risk
-- is neither MEDIUM nor HIGH nor one that the thresholds send to review, by name or because they do
-- not name it. A human has to approve exactly if the decision is not ALLOW.
pub evaluate-allow :
    (o : Option PolicyConfig) (q : PolicyRequest)
    → (((evaluate o q).decision ≡ allow)
        ↔ (Complies (policy_of o) q × RiskIsRoutine (policy_of o) q))
      × (((evaluate o q).requires_human_approval ≡ false) ↔ ((evaluate o q).decision ≡ allow))
unfolding evaluate evaluate_with
evaluate-allow o q =
    let p = policy_of o in
    let decided = decide-allow (all_violations p q) (risk_warnings p q) (risk_mark p q) in
    let routine = λ (c : Complies p q). risk_warnings-nil p q (all_violations-risk p q c) in
    (
      (
        λ h.
            let (none_found, quiet) = decided.0 h in
            let c = (all_violations-nil p q).0 none_found in (c, (routine c).0 quiet),
        λ (c, r). decided.1 ((all_violations-nil p q).1 c, (routine c).1 r),
      ),
      needs_approval-allow _,
    )
