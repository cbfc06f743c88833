-- ===== src/Pipeline/Gate/Integrity.antt =====
-- What an approval takes, and what the nodes behind it may do.
use agentic_ai_software_engi.Base.{
  Text, codes, text_eq, true, false, ◌≡◌, refl, ◌≢◌, ◌↔◌, ◌⊎◌, Option, none, some, List, [], ◌∷◌,
  arith, is_set, Bool-cases, Option-cases, inl, inr, same_text, texts_differ,
}
use agentic_ai_software_engi.Policy.Schema.{
  PolicyDecision, allow, review, block, PolicyEvaluationResult,
}
use agentic_ai_software_engi.Vcs.Diff.{GitDiffSummary, ApprovalDecision, is_no_op}
use agentic_ai_software_engi.Pipeline.State.{
  ApprovalStatus, approved, rejected, approval_unauthorized, AgentState,
}
use agentic_ai_software_engi.Pipeline.Gate.{
  Resume, decision_of, integrity_failure, decision_value, is_security_sensitive, is_authorized,
  approval_node, settle, turned_down, reason_code, CommitAnswers, Outcome, done, git_commit_node,
}

-- There is a staged diff, it is not a no-op, it has a hash, and the decision carries that hash.
abbrev pub BoundTo : Option GitDiffSummary → ApprovalDecision → Type 0
BoundTo none a = ⊥
BoundTo (some d) a =
    (is_no_op d ≡ false) × (is_set (some d.patch_hash) ≡ true) × (a.patch_hash ≡ some d.patch_hash)

pub integrity_failure-none :
    (d : Option GitDiffSummary) (a : ApprovalDecision)
    → (integrity_failure d a ≡ none) ↔ BoundTo d a
unfolding integrity_failure
integrity_failure-none none a = ground arith
integrity_failure-none (some d) a = ground arith

-- The node changes the decision and the status alone, and an approval it leaves is bound to the diff.
pub approval_node-settle :
    (resume : Resume) (s : AgentState)
    → (a : ApprovalDecision) × (status : ApprovalStatus) × (approval_node resume s
        ≡ settle s a status)
      × ((a.approved ≡ true) → BoundTo s.git_diff a)
unfolding approval_node integrity_failure decision_of
approval_node-settle resume s =
    let a = decision_of resume in
    elim (Bool-cases a.approved) [
      | inr off ↦ (a, rejected, rw off, λ x. ground arith)
      | inl on ↦ elim (Option-cases (integrity_failure s.git_diff a)) [
        | inr (status, bad) ↦
            (turned_down a (reason_code status), status, rw (on, bad), λ x. ground arith)
        | inl good ↦ elim (Bool-cases (is_authorized s a)) [
          | inl may ↦
              (a, approved, rw (on, good, may), λ x. (integrity_failure-none s.git_diff a).0 good)
          | inr off ↦ (
            turned_down a (reason_code approval_unauthorized),
            approval_unauthorized,
            rw (on, good, off),
            λ x. ground arith,
          )
        ]
      ]
    ]

not_require_approval : (d : PolicyDecision) → decision_value d ≢ codes "REQUIRE_APPROVAL"
unfolding same_text
not_require_approval allow = texts_differ _ _ refl
not_require_approval review = texts_differ _ _ refl
not_require_approval block = texts_differ _ _ refl

-- No policy result is security sensitive in the eyes of the approval node: the value that it asks for
-- is not one of the three policy decisions.
pub is_security_sensitive-false :
    (r : Option PolicyEvaluationResult) → is_security_sensitive r ≡ false
unfolding is_security_sensitive
is_security_sensitive-false none = refl
is_security_sensitive-false (some r) = ground (arith, not_require_approval r.decision)

abbrev pub hashes_of : Option GitDiffSummary → List Text
hashes_of none = []
hashes_of (some d) = d.patch_hash ∷ []

abbrev pub attempted : Outcome → List Text
attempted (done s hashes) = hashes
attempted _ = []

-- The node commits exactly if there is a diff, it is not a no-op, the workspace is safe, a diff with a
-- hash has not drifted, and no cancellation comes late; then the one commit is that of the diff.
pub git_commit_node-attempted :
    (e : CommitAnswers) (s : AgentState) (d : GitDiffSummary)
    → (s.git_diff ≡ some d)
    → (attempted (git_commit_node e s) ≡ d.patch_hash ∷ []) ↔ (
        (is_no_op d ≡ false)
        × (e.workspace_safe ≡ true)
        × ((is_set (some d.patch_hash) ≡ true) → (e.drift_ok ≡ true))
        × (e.cancel_late ≡ false))
unfolding git_commit_node
git_commit_node-attempted e s d h = rw h (ground arith)

-- The node changes the status alone, and commits nothing or the staged diff.
pub git_commit_node-done :
    (e : CommitAnswers) (s t : AgentState) (hashes : List Text)
    → (git_commit_node e s ≡ done t hashes)
    → (t ≡ record s { approval_status = t.approval_status })
      × ((hashes ≡ []) ⊎ (hashes ≡ hashes_of s.git_diff))
unfolding git_commit_node
git_commit_node-done e s t hashes h = ground arith
