-- ===== src/Lib.antt =====
-- A verification library for backend/: the autonomous software engineer.
--
-- The program. A run walks a graph of nodes (backend/graph/runner.py, backend/graph/nodes.py): a router,
-- a planner, a knowledge search, a developer, quality assurance with at most three revisions, the
-- preparation of a git diff, the organization's policy, an approval by a human, and the commit or the
-- cleanup. Around it stand the judge of quality (backend/qa/judge.py), the policy evaluator
-- (backend/policy), the diff and its risk (backend/vcs), roles, the audit log and the idempotency store
-- (backend/security), the store of runs and its watchdog (backend/observability), the runner that
-- starts, resumes and cancels runs for the tenants that own them (backend/graph/runner.py), and the
-- calls of language models with their fallback (backend/services,
-- backend/observability/telemetry.py).
--
-- The files. Each component is a module that translates its source, with child modules for what is
-- proved of it.
--   Base      lists, texts (Python's str as code points), dicts, equality, and fnmatch.
--   Words     the status words that components exchange as plain strings.
--   Quality   Schema: the records. Objective: the rules A to E of StructuredQAJudge.evaluate. Judge: the
--             advisory part and `evaluate`. The judge's numbers count hundredths. Outcome and
--             Checks: the checks and `run_all` (qa/pipeline.py).
--   Policy    Schema, Patterns, Paths (path_filter.py), Change (sections 1 to 4 of
--             PolicyEvaluator.evaluate), Evaluator (sections 5 to 7 and the synthesis); what
--             compliance means, said without the evaluator's functions, in Evaluator/Rules.
--   Developer Patcher (patcher.py) and Scope (patch_scope.py).
--   Vcs       Diff (vcs/models.py and verify_workspace_drift), Risk (evaluate_risk), Workspace
--             (workspace_paths.py), Lock (workspace_lock.py; Lock/Step has the steps of its calls),
--             Patches (apply_patches).
--   Pipeline  State (graph/state.py), Routes, Nodes and Gate (graph/nodes.py), Graph (`_build_graph`): a
--             step runs one node on the answers of its surroundings. `run_graph` takes one record of
--             answers for each step, so a list of them is a behaviour of models, sandbox, git,
--             reviewers and cancellation.
--   Runs      Record and Store (observability/store.py: the table of runs with `run_id` as primary key,
--             each SQL statement an atomic change), Watchdog, Collector (what the
--             runner's telemetry writes to that table), Runner (graph/runner.py: the tenant checks,
--             the status, and the calls that start, resume, cancel and read a run), Provision
--             (`_ensure_workspace_provisioned`).
--   Security  Rbac, Audit, Idempotency, Auth (API keys), Tenant (resolve_context and
--             authorize_repository_access) and Tenant/Registry (the operations that fill the tables of
--             the tenant manager) and Tenant/Store (repository_store.py and restarts). Scores of risk
--             count hundredths of a point.
--   Llm       Errors (services/errors.py), Provider (services/llm.py), Fallback (`invoke_structured`).
--   Examples  tests, and the theorems at concrete inputs.
--
-- Parameters. The runner takes the checkpoint of a run and what `graph.invoke` leaves as arguments, for
-- any checkpoint and any end of the graph; the workspace lock and the provisioning of the
-- workspace lie inside of the latter, and what `git clone` leaves is an argument of the provisioning.
-- SHA-256 and the JSON text that it is taken of are arguments, and so are identifiers, time
-- stamps, elapsed seconds, settings, what a provider or git answers, what Python's parser and difflib
-- say, and what the static scan and the executed checks find. Two theorems suppose something of the
-- hash: the one on tampering, that the two logs it compares hold no collision, and the one on
-- revocation, that no later key has the hash of the revoked one.
--
-- Bounds. Three definitions run on fuel, each of which takes something away in every round: `decimal` on
-- the number and one more, `tokens_from` (the pattern of an fnmatch) and `strip_dots` (the dots at the
-- front of a path) on the length of their text. The graph's steps are as many as there are
-- answers; fifteen are enough.
--
-- Not modelled: prompts and agents, retrieval, the sandbox, the HTTP interface, GitHub, events and
-- analytics, the shutdown of AgentRunner and calls of it that overlap, message texts that nothing
-- reads, symbolic links and the current directory under the paths of workspaces. `lower`, `upper` and
-- `strip` treat ASCII alone.
pub mod Base
pub mod Words
pub mod Quality
pub mod Policy
pub mod Vcs
pub mod Developer
pub mod Pipeline
pub mod Runs
pub mod Security
pub mod Llm
pub mod Examples
