-- ===== src/Domain/Task/Lifecycle.antt =====
-- domain/task.py: what holds of every task that the methods of `Task` can produce.
use meta_loop.Base.Clock.{Time}
use meta_loop.Base.Int.{pos, ◌≤ℤ◌, int_laws, ◌+ℤ◌, leb_ℤ, ℤ}
use meta_loop.Base.{
  ◌≡◌, refl, ◌≢◌, Bool, true, false, String, Result, ok, is_falsy, arith, inr, ◌⊎◌, inl,
  if◌then◌else◌, ap, Bool-cases, elem,
}
use meta_loop.Domain.Task.Transition.{Stage, implement, transition_iff}
use meta_loop.Domain.Enums.{
  Role, TaskStatus, r3, implementing, preflight, patch_review, ready_to_publish, rework_required,
  completed, failed, design_reviewer, patch_reviewer, blocked,
}
use meta_loop.Domain.Artifacts.{ArtifactRef, artifact_ref_eq}
use meta_loop.Domain.Task.{
  Task, TaskSource, RepositoryTarget, RiskAssessment, create, transition, block, fail,
  request_rework, restart_rework, unblock, attach_artifact, moved, is_terminal,
}

-- A call of a method on a task.
pub data Operation : Type 0 where
  transition_op : TaskStatus → Role → Operation
  block_op : Operation
  fail_op request_rework_op restart_rework_op unblock_op : Role → Operation
  attach_op : ArtifactRef → Operation

unfoldable pub apply : Operation → Task → Result Task
apply (transition_op target actor) t = transition t target actor
apply block_op t = block t
apply (fail_op actor) t = fail t actor
apply (request_rework_op actor) t = request_rework t actor
apply (restart_rework_op actor) t = restart_rework t actor
apply (unblock_op actor) t = unblock t actor
apply (attach_op artifact) t = ok (attach_artifact t artifact)

-- The stages in which code is written, checked and released.
abbrev pub is_gated : TaskStatus → Bool
is_gated implementing = true
is_gated preflight = true
is_gated patch_review = true
is_gated ready_to_publish = true
is_gated _ = false

pub record IsGoverned (t : Task) : Type 0 where
  pub low_risk : is_gated t.status ≡ true → t.risk.effective ≢ r3
  pub authorised : is_gated t.status ≡ true → is_falsy t.risk.governance_revision ≡ false
  pub not_completed : t.status ≢ completed
  pub version_nonneg : pos 0 ≤ℤ t.version
  pub rework_nonneg : pos 0 ≤ℤ t.rework_round
  pub rework_bounded : t.status ≡ rework_required → t.rework_round ≤ℤ pos 2

-- A stage that ends among the gated ones begins there, or is the start of the implementation.
Stage-is_gated :
    {s target : TaskStatus} {actor : Role}
    → Stage s target actor
    → is_gated target ≡ true
    → (is_gated s ≡ true) ⊎ (target ≡ implementing)
Stage-is_gated implement h = inr refl
Stage-is_gated _ h = ground arith

-- No stage ends in `completed` or `rework_required`.
Stage-target :
    {s target : TaskStatus} {actor : Role}
    → Stage s target actor
    → (target ≢ completed) × (target ≢ rework_required)
Stage-target implement = ground arith
Stage-target _ = ground arith

transition-IsGoverned :
    (t u : Task) (target : TaskStatus) (actor : Role)
    → IsGoverned t
    → transition t target actor ≡ ok u
    → IsGoverned u
transition-IsGoverned t u target actor h e =
    grind (int_laws, (transition_iff t u target actor).0 e, Stage-is_gated, Stage-target)

rework-IsGoverned :
    (t u : Task) (actor : Role) → IsGoverned t → request_rework t actor ≡ ok u → IsGoverned u
unfolding request_rework
rework-IsGoverned t u actor h e = grind int_laws

block-IsGoverned : (t u : Task) → IsGoverned t → block t ≡ ok u → IsGoverned u
unfolding block
block-IsGoverned t u h e = grind int_laws

fail-IsGoverned : (t u : Task) (actor : Role) → IsGoverned t → fail t actor ≡ ok u → IsGoverned u
unfolding fail
fail-IsGoverned t u actor h e = grind int_laws

restart-IsGoverned :
    (t u : Task) (actor : Role) → IsGoverned t → restart_rework t actor ≡ ok u → IsGoverned u
unfolding restart_rework
restart-IsGoverned t u actor h e = grind int_laws

unblock-IsGoverned :
    (t u : Task) (actor : Role) → IsGoverned t → unblock t actor ≡ ok u → IsGoverned u
unfolding unblock
unblock-IsGoverned t u actor h e = grind int_laws

attach-IsGoverned : (t : Task) (a : ArtifactRef) → IsGoverned t → IsGoverned (attach_artifact t a)
unfolding attach_artifact
attach-IsGoverned t a h = grind int_laws

create-IsGoverned :
    (id : String) (source : TaskSource) (repository : RepositoryTarget) (risk : RiskAssessment)
    (at : Time) (t : Task)
    → create id source repository risk at ≡ ok t
    → IsGoverned t
unfolding create
create-IsGoverned id source repository risk at t e = ground arith

apply-IsGoverned : (op : Operation) (t u : Task) → IsGoverned t → apply op t ≡ ok u → IsGoverned u
unfolding apply
apply-IsGoverned (transition_op target actor) t u h e = transition-IsGoverned t u target actor h e
apply-IsGoverned block_op t u h e = block-IsGoverned t u h e
apply-IsGoverned (fail_op actor) t u h e = fail-IsGoverned t u actor h e
apply-IsGoverned (request_rework_op actor) t u h e = rework-IsGoverned t u actor h e
apply-IsGoverned (restart_rework_op actor) t u h e = restart-IsGoverned t u actor h e
apply-IsGoverned (unblock_op actor) t u h e = unblock-IsGoverned t u actor h e
apply-IsGoverned (attach_op a) t u h e =
    let same : attach_artifact t a ≡ u = cc in rw same at (attach-IsGoverned t a h)

-- The tasks that successful operations produce, from a given one on.
pub data Reach (s : Task) : Task → Type 0 where
  here : Reach s s
  next : {t u : Task} → Reach s t → (op : Operation) → apply op t ≡ ok u → Reach s u

Reach-keeps : {s t : Task} → IsGoverned s → Reach s t → IsGoverned t
Reach-keeps h here = h
Reach-keeps h (next {t = t} {u = u} r op e) = apply-IsGoverned op t u (Reach-keeps h r) e

-- Whatever operations a created task goes through: it is implemented, checked, reviewed or made
-- ready to publish only with a governance revision and a risk below R3, it is never completed,
-- and it waits for rework only within its first two rounds.
pub Reach-IsGoverned :
    (id : String) (source : TaskSource) (repository : RepositoryTarget) (risk : RiskAssessment)
    (at : Time) {s t : Task}
    → create id source repository risk at ≡ ok s
    → Reach s t
    → IsGoverned t
Reach-IsGoverned id source repository risk at {s} e r =
    Reach-keeps (create-IsGoverned id source repository risk at s e) r

transition-frame :
    (t u : Task) (target : TaskStatus) (actor : Role)
    → transition t target actor ≡ ok u
    → u ≡ moved t u.status
transition-frame t u target actor e = ((transition_iff t u target actor).0 e).1

-- The parts of a task that no operation changes.
pub record SameTask (t u : Task) : Type 0 where
  pub same_id : u.task_id ≡ t.task_id
  pub same_source : u.source ≡ t.source
  pub same_repository : u.repository ≡ t.repository
  pub same_risk : u.risk ≡ t.risk
  pub same_created : u.created_at ≡ t.created_at

-- the operations that change the status and the version, and at most the round
frame_of_moved :
    (t u : Task) (round : ℤ)
    → u ≡ record t { status = u.status; rework_round = round; version = t.version +ℤ pos 1 }
    → SameTask t u × ((u.version ≡ t.version +ℤ pos 1) ⊎ (u ≡ t))
frame_of_moved t u round f = (
  record {
    same_id = ap (λ x. x.task_id) f;
    same_source = ap (λ x. x.source) f;
    same_repository = ap (λ x. x.repository) f;
    same_risk = ap (λ x. x.risk) f;
    same_created = ap (λ x. x.created_at) f;
  },
  inl (ap (λ x. x.version) f),
)

attach_frame :
    (t : Task) (a : ArtifactRef)
    → SameTask t (attach_artifact t a)
      × (((attach_artifact t a).version ≡ t.version +ℤ pos 1) ⊎ (attach_artifact t a ≡ t))
unfolding attach_artifact
attach_frame t a = elim (Bool-cases (elem a t.artifacts)) [
  | inl old ↦ rw old (
    record {
      same_id = refl;
      same_source = refl;
      same_repository = refl;
      same_risk = refl;
      same_created = refl;
    },
    inr refl,
  )
  | inr new ↦ rw new (
    record {
      same_id = refl;
      same_source = refl;
      same_repository = refl;
      same_risk = refl;
      same_created = refl;
    },
    inl refl,
  )
]

-- A successful operation keeps the task's identity, source, repository, risk and time, and
-- raises the version by exactly one, or it changes nothing.
pub apply_frame :
    (op : Operation) (t u : Task)
    → apply op t ≡ ok u
    → SameTask t u × ((u.version ≡ t.version +ℤ pos 1) ⊎ (u ≡ t))
unfolding apply block fail request_rework restart_rework unblock
apply_frame (transition_op target actor) t u e =
    frame_of_moved t u t.rework_round (transition-frame t u target actor e)
apply_frame block_op t u e = frame_of_moved t u t.rework_round (ground arith)
apply_frame (fail_op actor) t u e = frame_of_moved t u t.rework_round (ground arith)
apply_frame (request_rework_op actor) t u e =
    frame_of_moved t u (t.rework_round +ℤ pos 1) (ground arith)
apply_frame (restart_rework_op actor) t u e = frame_of_moved t u t.rework_round (ground arith)
apply_frame (unblock_op actor) t u e = frame_of_moved t u t.rework_round (ground arith)
apply_frame (attach_op a) t u e =
    let same : attach_artifact t a ≡ u = cc in rw same at (attach_frame t a)

-- A successful operation on a failed or completed task keeps its status, unless it is a request
-- for rework.
pub terminal_kept :
    (op : Operation) (t u : Task)
    → (t.status ≡ failed) ⊎ (t.status ≡ completed)
    → apply op t ≡ ok u
    → (u.status ≡ t.status) ⊎ ((actor : Role) × (op ≡ request_rework_op actor))
unfolding apply transition block fail request_rework restart_rework unblock attach_artifact
terminal_kept (request_rework_op actor) t u h e = inr (actor, refl)
terminal_kept (transition_op target actor) t u h e = inl (ground arith)
terminal_kept _ t u h e = inl (ground arith)

-- A request for rework by a design or patch reviewer succeeds on a failed or completed task too,
-- and the task is then no longer terminal.
pub rework_revives :
    (t : Task) (actor : Role)
    → (t.status ≡ failed) ⊎ (t.status ≡ completed)
    → (actor ≡ design_reviewer) ⊎ (actor ≡ patch_reviewer)
    → (u : Task) × (request_rework t actor ≡ ok u) × (is_terminal u.status ≡ false)
unfolding request_rework
rework_revives t actor h r = (
  record t {
    status = if leb_ℤ (pos 3) (t.rework_round +ℤ pos 1) then blocked else rework_required;
    rework_round = t.rework_round +ℤ pos 1;
    version = t.version +ℤ pos 1;
  },
  ground arith,
  ground arith,
)
