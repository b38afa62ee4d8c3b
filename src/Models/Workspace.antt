-- ===== src/Models/Workspace.antt =====
-- application/models.py: workspace requests, records and receipts.
use meta_loop.Models.Runner.{is_worker_role}
use meta_loop.Domain.Enums.{Role, role_value}
use meta_loop.Base.Json.{Json, dumps, obj, field, num, str, str_or_null, end}
use meta_loop.Base.{
  Eq, String, ℕ, Result, Bool, is_hex, guard, List, Option, ◌||◌, is_empty, leb, ◌!=◌, ◌&&◌,
  validation, not, ltb, len, all, codes, ok,
}
use meta_loop.Base.Int.{ℤ, pos, ltb_ℤ, int_eq}

pub data WorkspacePurpose : Type 0 where
  planning review proposal implementation : WorkspacePurpose

pub data WorkspaceState : Type 0 where
  active released : WorkspaceState

unfoldable pub WorkspacePurpose-discrete : Discrete WorkspacePurpose
WorkspacePurpose-discrete = hlevel

unfoldable pub WorkspaceState-discrete : Discrete WorkspaceState
WorkspaceState-discrete = hlevel

instance abbrev pub purpose_eq : Eq WorkspacePurpose
purpose_eq = record { dec = WorkspacePurpose-discrete }

instance abbrev pub workspace_state_eq : Eq WorkspaceState
workspace_state_eq = record { dec = WorkspaceState-discrete }

abbrev pub purpose_value : WorkspacePurpose → String
purpose_value planning = "planning"
purpose_value review = "review"
purpose_value proposal = "proposal"
purpose_value implementation = "implementation"

pub record WorkspaceRequest : Type 0 where
  pub allocation_id : String
  pub task_id : String
  pub role : Role
  pub purpose : WorkspacePurpose
  pub source_revision : String
  pub expected_task_version : ℤ
  pub expected_sequence : ℤ
  pub correlation_id : String
  pub governance_revision : Option String
  pub schema_version : ℤ

-- a hexadecimal digit of either case: no other character has one as its lower case
is_hex_any_case : ℕ → Bool
is_hex_any_case c = is_hex c || (leb b'A' c && leb c b'F')

-- `WorkspaceRequest.__post_init__`
unfoldable pub check_workspace_request : WorkspaceRequest → Result WorkspaceRequest
unfolding is_hex_any_case
check_workspace_request r =
    guard
      (is_empty r.allocation_id
        || is_empty r.task_id
        || is_empty r.correlation_id
        || r.schema_version != pos 1
        || ltb_ℤ r.expected_task_version (pos 0)
        || ltb_ℤ r.expected_sequence (pos 0))
      validation
      (guard (not (is_worker_role r.role)) validation (
        guard
          (ltb (len r.source_revision) 40 || not (all is_hex_any_case (codes r.source_revision)))
          validation (ok r)))

unfoldable pub workspace_request_to_dict : WorkspaceRequest → Json
workspace_request_to_dict r = obj (
    field "schema_version" (num r.schema_version) (
      field "allocation_id" (str r.allocation_id) (
        field "task_id" (str r.task_id) (
          field "role" (str (role_value r.role)) (
            field "purpose" (str (purpose_value r.purpose)) (
              field "source_revision" (str r.source_revision) (
                field "expected_task_version" (num r.expected_task_version) (
                  field "expected_sequence" (num r.expected_sequence) (
                    field "correlation_id" (str r.correlation_id)
                      (field "governance_revision" (str_or_null r.governance_revision) end))))))))))

unfoldable pub workspace_request_canonical : WorkspaceRequest → List ℕ
unfolding workspace_request_to_dict dumps
workspace_request_canonical r = dumps (workspace_request_to_dict r)

pub record WorkspaceRecord : Type 0 where
  pub request : WorkspaceRequest
  pub read_only : Bool
  pub repository_name : String
  pub state : WorkspaceState

-- the property `workspace_id`
abbrev pub workspace_id : WorkspaceRecord → String
workspace_id r = r.request.allocation_id

pub record WorkspaceReceipt : Type 0 where
  pub allocation_id : String
  pub state : WorkspaceState
  pub created : Bool
