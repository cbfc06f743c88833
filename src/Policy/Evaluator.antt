-- ===== src/Policy/Evaluator.antt =====
-- The sections 5 to 7 of PolicyEvaluator.evaluate (backend/policy/evaluator.py) and the synthesis of
-- its verdict from all of them.
pub mod Rules
mod Parts
pub mod Compliance
use agentic_ai_software_engi.Words
use agentic_ai_software_engi.Base.{
  Text, codes, text_eq, Bool, true, false, ◌||◌, not, Option, none, some, List, [], ◌∷◌, ◌++◌, ◌==◌,
  if◌then◌else◌, lower, upper, strip, or_text, opt_text, is_set,
}
use agentic_ai_software_engi.Base.Dict.{lookup}
use agentic_ai_software_engi.Quality.Schema.{QualityCheck, QaResult}
use agentic_ai_software_engi.Policy.Schema.{
  PolicyDecision, allow, review, block, Rule, PolicyViolation, PolicyConfig, default_policy, Mark,
  passed, held, blocked, PolicyEvaluationResult,
}
use agentic_ai_software_engi.Policy.Change.{
  PolicyRequest, mark_of, violation, unless, matches_any, repository_violations, branch_violations,
  path_violations, limit_violations,
}

-- `check_map.get(name)` over the upper-case names: the last of several checks stands.
unfoldable pub check_status : Text → List QualityCheck → Option Text
check_status name [] = none
check_status name (c ∷ cs) = elim (check_status name cs) [
  | some s ↦ some s
  | none ↦ if upper c.name == name then some c.status else none
]

unfoldable pub has_failed : List QualityCheck → Text → Bool
has_failed cs req = elim (check_status (upper req) cs) [ none ↦ false | some s ↦ s == Words.fail ]

unfoldable pub required_violations : List QualityCheck → List Text → List PolicyViolation
required_violations cs [] = []
required_violations cs (req ∷ reqs) =
    unless (not (has_failed cs req)) (violation Rule.required_check_failed req)
    ++ required_violations cs reqs

-- 5. Required quality checks
unfoldable pub quality_violations : PolicyConfig → Option QaResult → List PolicyViolation
quality_violations p none = []
quality_violations p (some r) =
    if r.status == Words.fail
    then violation Rule.required_check_failed
        (or_text (opt_text r.failure_category) (codes "QA_FAILURE"))
      ∷ []
    else required_violations r.checks p.required_quality_checks

-- 6. Model allowlist: it is skipped where the list or the model is missing or empty.
unfoldable pub model_violations : Option (List Text) → Option Text → List PolicyViolation
model_violations none model = []
model_violations (some []) model = []
model_violations (some (m ∷ ms)) model =
    if is_set model
    then unless (matches_any (lower (opt_text model)) (m ∷ ms))
        (violation Rule.allowed_models (opt_text model))
    else []

unfoldable pub norm_risk : PolicyRequest → Text
norm_risk q = upper (strip (or_text q.risk_score Words.low))

unfoldable pub risk_decision : PolicyConfig → PolicyRequest → Text
risk_decision p q = elim (lookup (norm_risk q) p.risk_thresholds) [
  | none ↦ upper Words.review
  | some d ↦ upper d
]

-- 7. Risk threshold: block, hold for review, or pass.
unfoldable pub risk_mark : PolicyConfig → PolicyRequest → Mark
risk_mark p q =
    if norm_risk q == Words.critical || risk_decision p q == Words.block
    then blocked
    else if risk_decision p q == Words.review
        || (norm_risk q == Words.medium || norm_risk q == Words.high)
    then held
    else passed

unfoldable pub risk_violations : PolicyConfig → PolicyRequest → List PolicyViolation
risk_violations p q = elim (risk_mark p q) [
  | blocked ↦ violation Rule.critical_risk_blocked (norm_risk q) ∷ []
  | _ ↦ []
]

join_reasons : List Text → Text
join_reasons [] = []
join_reasons (r ∷ []) = r
join_reasons (r ∷ s ∷ rs) = r ++ (codes "; " ++ join_reasons (s ∷ rs))

unfoldable pub risk_warnings : PolicyConfig → PolicyRequest → List Text
unfolding join_reasons
risk_warnings p q = elim (risk_mark p q) [
  | held ↦
      (codes "Assessed risk level '"
        ++ norm_risk q
        ++ codes "' requires human review: "
        ++ join_reasons q.risk_reasons)
      ∷ []
  | _ ↦ []
]

unfoldable pub all_violations : PolicyConfig → PolicyRequest → List PolicyViolation
all_violations p q =
    repository_violations p.allowed_repositories q.repository
    ++ (branch_violations p q.branch
        ++ (path_violations p q.changed_files
            ++ (limit_violations p q
                ++ (quality_violations p q.quality_results
                    ++ (model_violations p.allowed_models q.model ++ risk_violations p q)))))

-- Final decision synthesis
abbrev pub decide : List PolicyViolation → List Text → Mark → PolicyDecision
decide (v ∷ vs) warnings mark = block
decide [] (w ∷ ws) mark = review
decide [] [] held = review
decide [] [] _ = allow

abbrev pub needs_approval : PolicyDecision → Bool
needs_approval allow = false
needs_approval _ = true

-- The result but for the time stamp.
unfoldable pub evaluate_with : PolicyConfig → PolicyRequest → PolicyEvaluationResult
evaluate_with p q =
    let decision = decide (all_violations p q) (risk_warnings p q) (risk_mark p q) in
    record {
      decision = decision;
      violations = all_violations p q;
      warnings = risk_warnings p q;
      checks = record {
        repository = mark_of (repository_violations p.allowed_repositories q.repository);
        branch = mark_of (branch_violations p q.branch);
        protected_paths = mark_of (path_violations p q.changed_files);
        patch_limits = mark_of (limit_violations p q);
        required_checks = mark_of (quality_violations p q.quality_results);
        risk_policy = risk_mark p q;
      };
      requires_human_approval = needs_approval decision;
      policy_version = p.policy_version;
    }

-- No policy means the defaults.
abbrev pub policy_of : Option PolicyConfig → PolicyConfig
policy_of none = default_policy
policy_of (some p) = p

-- `PolicyEvaluator.evaluate`
unfoldable pub evaluate : Option PolicyConfig → PolicyRequest → PolicyEvaluationResult
evaluate o q = evaluate_with (policy_of o) q
