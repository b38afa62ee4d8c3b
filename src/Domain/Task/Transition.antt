-- ===== src/Domain/Task/Transition.antt =====
-- domain/task.py: `Task.transition` against the policy that it implements.
use mathlib.Core.Path.{subst₂}
use meta_loop.Base.{◌≡◌, ◌≢◌, true, false, ok, is_falsy, arith, refl, ◌⊎◌, inl, inr, ◌↔◌}
use meta_loop.Domain.Enums.{
  Role, TaskStatus, TaskStatus-discrete, Role-discrete, r3, validator, planner, design_reviewer,
  implementer, patch_reviewer, received, validated, planned, design_review, implementing, preflight,
  patch_review, ready_to_publish, proposal_ready, blocked, failed, completed,
}
use meta_loop.Domain.Task.{Task, moved, transition, allowed, is_allowed, is_terminal}

-- The pipeline: which role takes a task from one stage to the next.
pub data Stage : TaskStatus → TaskStatus → Role → Type 0 where
  validate : Stage received validated validator
  plan : Stage validated planned planner
  review_design : Stage planned design_review design_reviewer
  implement : Stage design_review implementing implementer
  finish : Stage implementing preflight implementer
  review_patch : Stage preflight patch_review patch_reviewer
  release : Stage patch_review ready_to_publish patch_reviewer

Stage-transport : {s t u : TaskStatus} {a b : Role} → Stage s t a → t ≡ u → a ≡ b → Stage s u b
Stage-transport {s} st p q = subst₂ (λ x y. Stage s x y) p q st

Stage_of_allowed :
    (s target : TaskStatus) (actor : Role)
    → is_allowed (allowed s) target actor ≡ true
    → Stage s target actor
unfolding is_allowed
Stage_of_allowed received t a h = Stage-transport validate (ground arith) (ground arith)
Stage_of_allowed validated t a h = Stage-transport plan (ground arith) (ground arith)
Stage_of_allowed planned t a h = Stage-transport review_design (ground arith) (ground arith)
Stage_of_allowed design_review t a h = Stage-transport implement (ground arith) (ground arith)
Stage_of_allowed implementing t a h = Stage-transport finish (ground arith) (ground arith)
Stage_of_allowed preflight t a h = Stage-transport review_patch (ground arith) (ground arith)
Stage_of_allowed patch_review t a h = Stage-transport release (ground arith) (ground arith)
Stage_of_allowed _ t a h = absurd (cc h)

allowed_of_Stage :
    {s target : TaskStatus} {actor : Role}
    → Stage s target actor
    → is_allowed (allowed s) target actor ≡ true
unfolding is_allowed TaskStatus-discrete Role-discrete
allowed_of_Stage validate = refl
allowed_of_Stage plan = refl
allowed_of_Stage review_design = refl
allowed_of_Stage implement = refl
allowed_of_Stage finish = refl
allowed_of_Stage review_patch = refl
allowed_of_Stage release = refl

-- A stage starts and ends in a live state.
Stage_live :
    {s target : TaskStatus} {actor : Role}
    → Stage s target actor
    → (is_terminal s ≡ false)
      × (target ≢ failed)
      × (target ≢ blocked)
      × (target ≢ completed)
      × (target ≢ proposal_ready)
unfolding TaskStatus-discrete
Stage_live validate = ground arith
Stage_live _ = ground arith

-- The steps that a governance revision must have authorised.
abbrev pub NeedsRevision : TaskStatus → Type 0
NeedsRevision target = (target ≡ implementing) ⊎ (target ≡ ready_to_publish)

-- What the policy answers to a request: the status that the task gets. A stage of the pipeline is
-- entered; or it is held back for want of a governance revision; or an R3 task at design review
-- is blocked on its way to implementation, and may become a proposal instead.
abbrev VerdictBy : Type 0 → Task → TaskStatus → Role → TaskStatus → Type 0
VerdictBy S t target actor s =
    (S
      × ((target ≡ implementing) → t.risk.effective ≢ r3)
      × (NeedsRevision target → is_falsy t.risk.governance_revision ≡ false)
      × (s ≡ target))
    ⊎ (S × NeedsRevision target × (is_falsy t.risk.governance_revision ≡ true) × (s ≡ blocked))
    ⊎ ((t.status ≡ design_review)
        × (target ≡ implementing)
        × (t.risk.effective ≡ r3)
        × (s ≡ blocked))
    ⊎ ((t.status ≡ design_review)
        × (target ≡ proposal_ready)
        × (actor ≡ design_reviewer)
        × (t.risk.effective ≡ r3)
        × (s ≡ target))

abbrev pub Verdict : Task → TaskStatus → Role → TaskStatus → Type 0
Verdict t target actor s = VerdictBy (Stage t.status target actor) t target actor s

VerdictBy-map :
    {S R : Type 0} (t : Task) (target : TaskStatus) (actor : Role) (s : TaskStatus)
    → (S → R)
    → VerdictBy S t target actor s
    → VerdictBy R t target actor s
VerdictBy-map t target actor s f (inl (a, b, c, d)) = inl (f a, b, c, d)
VerdictBy-map t target actor s f (inr (inl (a, b, c, d))) = inr (inl (f a, b, c, d))
VerdictBy-map t target actor s f (inr (inr v)) = inr (inr v)

module _ (t u : Task) (target : TaskStatus) (actor : Role) where
  transition_moves : transition t target actor ≡ ok u → u ≡ moved t u.status
  unfolding transition
  transition_moves h = ground arith

  transition-allowed :
      transition t target actor ≡ ok u
      → VerdictBy (is_allowed (allowed t.status) target actor ≡ true) t target actor u.status
  unfolding transition is_allowed
  transition-allowed h = ground arith

  transition-Verdict : transition t target actor ≡ ok u → Verdict t target actor u.status
  transition-Verdict h =
      VerdictBy-map t target actor u.status (Stage_of_allowed t.status target actor)
        (transition-allowed h)

  Verdict-transition :
      Verdict t target actor u.status → u ≡ moved t u.status → transition t target actor ≡ ok u
  unfolding transition
  Verdict-transition v m = ground (
    arith,
    λ (st : Stage t.status target actor). allowed_of_Stage st,
    λ (st : Stage t.status target actor). Stage_live st,
  )

  -- A transition succeeds exactly when the policy answers with the new status; the new task differs
  -- from the old one in its status and in its version, which is one higher.
  pub transition_iff :
      (transition t target actor ≡ ok u)
      ↔ (Verdict t target actor u.status × (u ≡ moved t u.status))
  transition_iff =
      (λ h. (transition-Verdict h, transition_moves h), λ v. Verdict-transition v.0 v.1)
