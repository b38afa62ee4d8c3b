-- ===== src/Infrastructure/CheckRuns/Exact.antt =====
-- infrastructure/github_checks.py: what the source gives fits the check gate.
use meta_loop.Infrastructure.CheckRuns.Observed.{Observes, ObservesAll, status_of-value, ending_lem}
use meta_loop.Models.Identity.{is_phase8_sha}
use meta_loop.Base.Int.{pos}
use mathlib.Core.Path.{subst}
use meta_loop.Base.Clock.{Time}
use meta_loop.Base.Json.{Json, obj, num, as_text, field_of, arr, Fields}
use meta_loop.Services.Publishing.Gate.{is_observation_of}
use meta_loop.Infrastructure.CheckRuns.{
  FromIso, normalize_all, normalize, observation_of, timed, complete_runs, runs_of, read_checks,
  is_repository, status_of, ending, check_path, parse_time,
}
use meta_loop.Models.Checks.{
  CheckRunObservation, CheckRunStatus, check_observation, CheckRunConclusion,
}
use meta_loop.Base.{
  String, List, ◌≡◌, ◌≤◌, All, true, ok, some, [], ◌∷◌, arith, length, Result-cases, Option-cases,
  Bool-cases, inl, inr, ◌==◌, Result, Option, ◌∙◌, ap, sym, suc, ◌&&◌, refl, option_eq, string_eq,
}

-- an observation that the gate takes
abbrev pub IsTaken : String → String → CheckRunObservation → Type 0
IsTaken id sha o = (is_observation_of id sha o ≡ true) × (check_observation o ≡ ok o)

check_observation-eq : (x o : CheckRunObservation) → check_observation x ≡ ok o → x ≡ o
unfolding check_observation
check_observation-eq x o h = ground (arith, h)

checked-IsTaken :
    (id sha name : String) (st : CheckRunStatus) (c : Option CheckRunConclusion) (t : Time)
    (o : CheckRunObservation)
    → check_observation (observation_of id sha name st c t) ≡ ok o
    → IsTaken id sha o
unfolding is_observation_of
checked-IsTaken id sha name st c t o h =
    let e = check_observation-eq (observation_of id sha name st c t) o h in
    subst (IsTaken id sha) e (ground arith, h ∙ ap ok (sym e))

observed :
    (iso : FromIso) (id sha name : String) (st : CheckRunStatus) (k : Option CheckRunConclusion)
    (v : Option Json) (t : Time) (fs : Fields) (o : CheckRunObservation)
    → as_text (field_of "head_sha" fs) ≡ some sha
    → as_text (field_of "name" fs) ≡ some name
    → status_of (as_text (field_of "status" fs)) ≡ some st
    → ending st fs ≡ ok (k, v)
    → parse_time iso v ≡ ok t
    → check_observation (observation_of id sha name st k t) ≡ ok o
    → Observes iso sha (obj fs) o × IsTaken id sha o
observed iso id sha name st k v t fs o a b c d e h =
    let x = observation_of id sha name st k t in
    let q : x ≡ o = check_observation-eq x o h in
    subst (λ z. Observes iso sha (obj fs) z × IsTaken id sha z) q
      (
        (
          fs,
          refl,
          a,
          b,
          status_of-value (as_text (field_of "status" fs)) st c,
          ending_lem iso fs x v d e,
        ),
        subst (IsTaken id sha) (sym q) (checked-IsTaken id sha name st k t o h),
      )

normalize-Observes :
    (iso : FromIso) (id sha : String) (x : Json) (o : CheckRunObservation)
    → normalize iso id sha x ≡ ok o
    → Observes iso sha x o × IsTaken id sha o
unfolding normalize timed
normalize-Observes iso id sha (obj fs) o h =
    elim (Bool-cases (as_text (field_of "head_sha" fs) == some sha)) [
      | inr a ↦ ground (arith, a, h)
      | inl a ↦ elim (Option-cases (as_text (field_of "name" fs))) [
        | inl b ↦ ground (arith, a, b, h)
        | inr (n, b) ↦ elim (Option-cases (status_of (as_text (field_of "status" fs)))) [
          | inl c ↦ ground (arith, a, b, c, h)
          | inr (st, c) ↦ elim (Result-cases (ending st fs)) [
            | inr (y, d) ↦ ground (arith, a, b, c, d, h)
            | inl ((k, v), d) ↦ elim (Result-cases (parse_time iso v)) [
              | inr (y, e) ↦ ground (arith, a, b, c, d, e, h)
              | inl (t, e) ↦
                  observed iso id sha n st k v t fs o (ground (arith, a)) b c d e
                    (ground (arith, a, b, c, d, e, h))
            ]
          ]
        ]
      ]
    ]
normalize-Observes iso id sha _ o h = cc

normalize_all-Observes :
    (iso : FromIso) (id sha : String) (xs : List Json) (os : List CheckRunObservation)
    → normalize_all iso id sha xs ≡ ok os
    → ObservesAll iso sha xs os × All (IsTaken id sha) os × (length os ≡ length xs)
unfolding normalize_all
normalize_all-Observes iso id sha [] os h =
    let e : [] ≡ os = ground (arith, h) in
    subst (λ z. ObservesAll iso sha [] z × All (IsTaken id sha) z × (length z ≡ 0)) e (tt, tt, refl)
normalize_all-Observes iso id sha (x ∷ xs) os h = elim (Result-cases (normalize iso id sha x)) [
  | inr (y, a) ↦ ground (arith, a, h)
  | inl (o, a) ↦ elim (Result-cases (normalize_all iso id sha xs)) [
    | inr (y, b) ↦ ground (arith, a, b, h)
    | inl (ps, b) ↦
        let r = normalize_all-Observes iso id sha xs ps b in
        let f = normalize-Observes iso id sha x o a in
        let e : o ∷ ps ≡ os = ground (arith, a, b, h) in
        subst
          (λ z.
            ObservesAll iso sha (x ∷ xs) z × All (IsTaken id sha) z × (length z ≡ length (x ∷ xs)))
          e ((f.0, r.0), (f.1, r.1), ap suc r.2)
  ]
]

complete_runs-length :
    (a b : Option Json) (xs : List Json) → complete_runs a b ≡ some xs → length xs ≤ 100
unfolding complete_runs
complete_runs-length (some (num (pos n))) (some (arr ys)) xs h = ground (arith, h)
complete_runs-length _ _ xs h = cc

runs_of-length : (x : Json) (xs : List Json) → runs_of x ≡ some xs → length xs ≤ 100
unfolding runs_of
runs_of-length (obj fs) xs h =
    complete_runs-length (field_of "total_count" fs) (field_of "check_runs" fs) xs h
runs_of-length _ xs h = cc

-- What the source gives for a head is what the remote side has said of this head. A list that is
-- returned has one observation for each run of the answer, in their order, and the answer has at most
-- a hundred runs; each run says that it is of exactly this commit, and its observation has the run's
-- name, status, conclusion and time, is of the publication, and passes the checks of its constructor.
pub read_checks-IsTaken :
    (get_json : String → Result Json) (iso : FromIso) (id repository sha : String)
    (os : List CheckRunObservation)
    → read_checks get_json iso id repository sha ≡ ok os
    → ((payload : Json) × (runs : List Json) × (get_json (check_path repository sha) ≡ ok payload)
        × (runs_of payload ≡ some runs)
        × ObservesAll iso sha runs os)
      × All (IsTaken id sha) os
      × (length os ≤ 100)
unfolding read_checks
read_checks-IsTaken get_json iso id repository sha os h =
    elim (Bool-cases (is_repository repository && is_phase8_sha sha 40)) [
      | inr a ↦ ground (arith, a, h)
      | inl a ↦ elim (Result-cases (get_json (check_path repository sha))) [
        | inr (y, b) ↦ ground (arith, a, b, h)
        | inl (x, b) ↦ elim (Option-cases (runs_of x)) [
          | inl c ↦ ground (arith, a, b, c, h)
          | inr (xs, c) ↦
              let (r, k, l) =
                normalize_all-Observes iso id sha xs os (ground (arith, a, b, c, h)) in
              ((x, xs, b, c, r), k, ground (arith, l, runs_of-length x xs c))
        ]
      ]
    ]
