-- ===== src/Pipeline/Gate.antt =====
-- The gates of backend/graph/nodes.py before the repository changes: approval, commit and cleanup.
pub mod Integrity
use agentic_ai_software_engi.Words
use agentic_ai_software_engi.Base.{
  ℕ, Text, codes, text_eq, Bool, true, false, ◌&&◌, ◌||◌, not, Option, none, some, List, [], ◌∷◌,
  ◌++◌, ◌==◌, if◌then◌else◌, upper, is_set, opt_text, or_text, contains,
}
use agentic_ai_software_engi.Security.Rbac.{
  Role, owner, admin, engineer, reviewer, security_reviewer, viewer, Approval, granted,
  can_approve_changes,
}
use agentic_ai_software_engi.Policy.Schema.{
  PolicyDecision, allow, review, block, PolicyEvaluationResult,
}
use agentic_ai_software_engi.Vcs.Diff.{GitDiffSummary, ApprovalDecision, is_no_op}
use agentic_ai_software_engi.Pipeline.State.{
  ApprovalStatus, policy_blocked, no_op_or_missing_diff, missing_diff_hash,
  missing_approval_patch_hash, patch_hash_mismatch, approval_unauthorized, approved, rejected,
  no_changes_needed, committed, commit_failed, rejected_and_cleaned, AgentState,
}
use agentic_ai_software_engi.Pipeline.Routes.{is_blocked}

-- What the resumed `interrupt` returns: a decision (as a record or a dict), `True`, a text, or
-- anything else.
pub data Resume : Type 0 where
  decided : ApprovalDecision → Resume
  bare_true : Resume
  text : Text → Resume
  other : Resume

abbrev refusal : Text → ApprovalDecision
refusal reason = record {
  approved = false;
  reviewer = none;
  rejection_reason = some reason;
  patch_hash = none;
  timestamp = none;
  reviewer_role = none;
  user_id = none;
}

unfoldable pub decision_of : Resume → ApprovalDecision
decision_of (decided a) = a
decision_of bare_true = record {
  approved = true;
  reviewer = none;
  rejection_reason = none;
  patch_hash = none;
  timestamp = none;
  reviewer_role = none;
  user_id = none;
}
decision_of (text reason) = refusal reason
decision_of other = refusal (codes "Rejected by reviewer.")

-- The four integrity checks of an approving decision, in their order; none if they all pass.
unfoldable pub integrity_failure : Option GitDiffSummary → ApprovalDecision → Option ApprovalStatus
integrity_failure none a = some no_op_or_missing_diff
integrity_failure (some d) a =
    if is_no_op d
    then some no_op_or_missing_diff
    else if not (is_set (some d.patch_hash))
    then some missing_diff_hash
    else if not (is_set a.patch_hash)
    then some missing_approval_patch_hash
    else if opt_text a.patch_hash == d.patch_hash
    then none
    else some patch_hash_mismatch

-- `Role(value)`
unfoldable pub role_of : Text → Option Role
role_of t =
    if t == codes "OWNER"
    then some owner
    else if t == codes "ADMIN"
    then some admin
    else if t == codes "ENGINEER"
    then some engineer
    else if t == codes "REVIEWER"
    then some reviewer
    else if t == codes "SECURITY_REVIEWER"
    then some security_reviewer
    else if t == codes "VIEWER"
    then some viewer
    else none

abbrev pub decision_value : PolicyDecision → Text
decision_value allow = codes "ALLOW"
decision_value review = codes "REVIEW"
decision_value block = codes "BLOCK"

-- `policy_result.decision == "REQUIRE_APPROVAL"`
unfoldable pub is_security_sensitive : Option PolicyEvaluationResult → Bool
is_security_sensitive none = false
is_security_sensitive (some r) = decision_value r.decision == codes "REQUIRE_APPROVAL"

-- The risk in hundredths of a point. A policy result has no `risk_score`, so the diff decides.
unfoldable pub risk_value : Option GitDiffSummary → Option ℕ
risk_value none = none
risk_value (some d) =
    if is_set (some d.risk_score)
    then some (
        if upper d.risk_score == Words.high
        then 8000
        else if upper d.risk_score == Words.medium
        then 5000
        else 2000)
    else none

-- The role check, which is made only where the decision names a known role.
unfoldable pub is_authorized : AgentState → ApprovalDecision → Bool
is_authorized s a =
    if is_set a.reviewer_role
    then elim (role_of (opt_text a.reviewer_role)) [
      | none ↦ true
      | some r ↦
          elim (can_approve_changes r (risk_value s.git_diff)
            (is_security_sensitive s.policy_result)) [ granted ↦ true | _ ↦ false ]
    ]
    else true

-- The rejection that the node puts in the decision's place; its text names the reason.
abbrev pub turned_down : ApprovalDecision → Text → ApprovalDecision
turned_down a reason = record a { approved = false; rejection_reason = some reason }

abbrev pub settle : AgentState → ApprovalDecision → ApprovalStatus → AgentState
settle s a status = record s { approval = some a; approval_status = some status }

-- The source appends a sentence to the code, which is left out.
pub reason_code : ApprovalStatus → Text
reason_code no_op_or_missing_diff = codes "NO_OP_OR_MISSING_DIFF"
reason_code missing_diff_hash = codes "MISSING_DIFF_HASH"
reason_code missing_approval_patch_hash = codes "MISSING_APPROVAL_PATCH_HASH"
reason_code patch_hash_mismatch = codes "PATCH_HASH_MISMATCH"
reason_code _ = codes "APPROVAL_UNAUTHORIZED"

-- The node behind its `interrupt`.
unfoldable pub approval_node : Resume → AgentState → AgentState
unfolding reason_code
approval_node resume s =
    let a = decision_of resume in
    if a.approved
    then elim (integrity_failure s.git_diff a) [
      | some status ↦ settle s (turned_down a (reason_code status)) status
      | none ↦
          if is_authorized s a
          then settle s a approved
          else settle s (turned_down a (reason_code approval_unauthorized)) approval_unauthorized
    ]
    else settle s a rejected

-- How the two checks for cancellation, the workspace, the drift check and git answer.
pub record CommitAnswers : Type 0 where
  pub workspace_safe : Bool
  pub drift_ok : Bool
  pub cancel_late : Bool
  pub commit_ok : Bool

-- A node's end: a new state, with the patch hashes of the diffs that it had committed or tried to
-- commit; a stop on a cancellation; or an exception.
pub data Outcome : Type 0 where
  done : AgentState → List Text → Outcome
  stopped : Outcome
  raised : Outcome

abbrev pub with_status : AgentState → ApprovalStatus → AgentState
with_status s status = record s { approval_status = some status }

-- `git_commit_node` behind its first check for cancellation.
unfoldable pub git_commit_node : CommitAnswers → AgentState → Outcome
git_commit_node e s = elim s.git_diff [
  | none ↦ done (with_status s no_changes_needed) []
  | some d ↦
      if is_no_op d
      then done (with_status s no_changes_needed) []
      else if not e.workspace_safe
      then raised
      else if is_set (some d.patch_hash) && not e.drift_ok
      then done (with_status s patch_hash_mismatch) []
      else if e.cancel_late
      then stopped
      else done (with_status s (if e.commit_ok then committed else commit_failed))
          (d.patch_hash ∷ [])
]

abbrev reason_suffix : Option ApprovalDecision → Text
reason_suffix none = []
reason_suffix (some a) =
    if is_set a.rejection_reason then codes " Reason: " ++ opt_text a.rejection_reason else []

abbrev nothing_to_review : AgentState → Bool
nothing_to_review s = elim s.approval [
  | some a ↦ false
  | none ↦
      not (is_blocked s.policy_result) && (elim s.git_diff [ none ↦ false | some d ↦ is_no_op d ])
]

-- `cleanup_node`, without the branch that it deletes.
unfoldable pub cleanup_node : AgentState → AgentState
cleanup_node s =
    if nothing_to_review s
    then with_status s no_changes_needed
    else with_status s (rejected_and_cleaned (reason_suffix s.approval))
