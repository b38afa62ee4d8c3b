-- ===== src/Infrastructure/CheckRuns/Observed.antt =====
-- infrastructure/github_checks.py: what an observation has from its run.
use meta_loop.Base.Json.{Json, obj, as_text, field_of, Fields}
use meta_loop.Infrastructure.CheckRuns.{
  FromIso, status_of, ending, parse_time, queued, in_progress, conclusion_of, success, is_null,
  failure, neutral, skipped, action_required,
}
use meta_loop.Models.Checks.{
  CheckRunObservation, CheckRunStatus, CheckRunConclusion, check_status_value, conclusion_value,
}
use meta_loop.Base.{
  String, List, ◌≡◌, true, ok, some, [], ◌∷◌, arith, Option-cases, Bool-cases, inl, inr, Option,
  ◌∙◌, ap, sym, refl, option_eq, string_eq, none, ◌⊎◌, ◌≢◌, text_case,
}

status-cases :
    (s : CheckRunStatus)
    → (s ≡ CheckRunStatus.completed)
      ⊎ ((s ≢ CheckRunStatus.completed) × ((fs : Fields) → ending s fs ≡ ending queued fs))
unfolding ending
status-cases CheckRunStatus.completed = inl refl
status-cases queued = inr (λ e. cc, λ fs. refl)
status-cases in_progress = inr (λ e. cc, λ fs. refl)

-- the conclusion and the time of a run are the run's own: a completed run's conclusion, and no
-- conclusion of another; the time of its completion, or of its start
abbrev pub IsEnding : FromIso → Fields → CheckRunObservation → Type 0
IsEnding iso fs o =
    ((o.status ≡ CheckRunStatus.completed)
      × ((k : CheckRunConclusion) × (o.conclusion ≡ some k)
          × (as_text (field_of "conclusion" fs) ≡ some (conclusion_value k)))
      × (parse_time iso (field_of "completed_at" fs) ≡ ok o.observed_at))
    ⊎ ((o.status ≢ CheckRunStatus.completed)
        × (o.conclusion ≡ none)
        × (is_null (field_of "conclusion" fs) ≡ true)
        × (parse_time iso (field_of "started_at" fs) ≡ ok o.observed_at))

-- the run is an object that says it is of the commit `sha`, and the observation has its name, its
-- status, its conclusion and its time
abbrev pub Observes : FromIso → String → Json → CheckRunObservation → Type 0
Observes iso sha x o =
    (fs : Fields) × (x ≡ obj fs)
    × (as_text (field_of "head_sha" fs) ≡ some sha)
    × (as_text (field_of "name" fs) ≡ some o.check_name)
    × (as_text (field_of "status" fs) ≡ some (check_status_value o.status))
    × IsEnding iso fs o

-- run by run, in their order, and no run is left out
abbrev pub ObservesAll : FromIso → String → List Json → List CheckRunObservation → Type 0
ObservesAll iso sha [] [] = Unit
ObservesAll iso sha (x ∷ xs) (o ∷ os) = Observes iso sha x o × ObservesAll iso sha xs os
ObservesAll iso sha _ _ = ⊥

pub status_of-value :
    (o : Option String) (s : CheckRunStatus)
    → status_of o ≡ some s
    → o ≡ some (check_status_value s)
unfolding status_of
status_of-value none s h = cc
status_of-value (some v) s h =
    let f = text_case check_status_value v in
    ap some (
      f "queued" queued s _ refl
        (f "in_progress" in_progress s _ refl
          (f "completed" CheckRunStatus.completed s none refl (λ k. cc)))
        h)

conclusion_of-value :
    (o : Option String) (c : CheckRunConclusion)
    → conclusion_of o ≡ some c
    → o ≡ some (conclusion_value c)
unfolding conclusion_of
conclusion_of-value none c h = cc
conclusion_of-value (some v) c h =
    let f = text_case conclusion_value v in
    ap some (
      f "success" success c _ refl
        (f "failure" failure c _ refl (
          f "neutral" neutral c _ refl (
            f "skipped" skipped c _ refl (
              f "cancelled" CheckRunConclusion.cancelled c _ refl (
                f "timed_out" CheckRunConclusion.timed_out c _ refl
                  (f "action_required" action_required c none refl (λ k. cc)))))))
        h)

-- the pair of conclusion and time that `ending` gives, as `IsEnding` reads it
pub ending_lem :
    (iso : FromIso) (fs : Fields) (o : CheckRunObservation) (v : Option Json)
    → ending o.status fs ≡ ok (o.conclusion, v)
    → parse_time iso v ≡ ok o.observed_at
    → IsEnding iso fs o
unfolding ending
ending_lem iso fs o v h p = elim (status-cases o.status) [
  | inl a ↦ elim (Option-cases (conclusion_of (as_text (field_of "conclusion" fs)))) [
    | inl b ↦ ground (arith, a, b, h)
    | inr (k, b) ↦
        let q : o.conclusion ≡ some k = ground (arith, a, b, h) in
        let r : field_of "completed_at" fs ≡ v = ground (arith, a, b, h) in
        inl (
          a,
          (k, q, conclusion_of-value (as_text (field_of "conclusion" fs)) k b),
          ap (parse_time iso) r ∙ p,
        )
  ]
  | inr (a, e) ↦ elim (Bool-cases (is_null (field_of "conclusion" fs))) [
    | inr b ↦ ground (arith, sym (e fs) ∙ h, b)
    | inl b ↦
        let g = sym (e fs) ∙ h in
        let q : o.conclusion ≡ none = ground (arith, g, b) in
        let r : field_of "started_at" fs ≡ v = ground (arith, g, b) in
        inr (a, q, b, ap (parse_time iso) r ∙ p)
  ]
]
