-- ===== src/Pipeline/Graph/Step.antt =====
-- The ways in which one step of the graph ends.
use agentic_ai_software_engi.Base.{Text, true, false, ◌≡◌, ◌⊎◌, arith}
use agentic_ai_software_engi.Pipeline.Routes.{cancelled, crashed}
use agentic_ai_software_engi.Pipeline.Graph.{Answers, Run, halt, is_halted, step_at, step}

module _ (patch_hash : Text → Text) where
  pub step-over : (e : Answers) (c : Run) → (is_halted c.node ≡ true) → step patch_hash e c ≡ c
  unfolding step
  step-over e c h = ground arith

  pub step-going :
      (e : Answers) (c : Run)
      → (is_halted c.node ≡ false)
      → (step patch_hash e c ≡ halt c cancelled)
        ⊎ (step patch_hash e c ≡ halt c crashed)
        ⊎ (step patch_hash e c ≡ step_at patch_hash c.node e c)
  unfolding step
  step-going e c h = ground arith
