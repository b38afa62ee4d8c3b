-- ===== src/Services/Allocation/Policy.antt =====
-- application/workspaces.py: which workspaces the policy lets be writable.
use meta_loop.Domain.Enums.{r3, implementing, implementer}
use meta_loop.Models.Workspace.{WorkspaceRequest, implementation}
use meta_loop.Domain.Task.{Task}
use meta_loop.Services.Ports.{Governance, is_authorized}
use meta_loop.Base.{Option, ◌≡◌, ok, false, ◌↔◌, ◌≢◌, true, arith}
use meta_loop.Services.Allocation.{policy}

-- The policy makes a workspace writable exactly where the task's risk is below R3 and it is in
-- implementation, and an implementer asks for it for that purpose, with an authorisation by
-- governance.
pub policy_writable_iff :
    (g : Option Governance) (t : Task) (r : WorkspaceRequest)
    → (policy g t r ≡ ok false) ↔ (
        (t.risk.effective ≢ r3)
        × (t.status ≡ implementing)
        × (r.role ≡ implementer)
        × (r.purpose ≡ implementation)
        × (is_authorized g r.governance_revision "workspace_implementation" ≡ true))
unfolding policy
policy_writable_iff g t r = ground arith
