-- ===== src/Vcs.antt =====
-- backend/vcs: workspaces, staged diffs and the locks on workspaces.
pub mod Workspace
pub mod Diff
pub mod Risk
pub mod Lock
pub mod Patches
