-- ===== src/Services/Publishing/Preparation/Prepared.antt =====
-- application/publication.py: what a prepared publication was checked against, and what is stored.
use meta_loop.Services.Publishing.{references_of}
use mathlib.Core.Path.{subst}
use meta_loop.Memory.Events.{history}
use meta_loop.Domain.Enums.{ready_to_publish, r3}
use meta_loop.Domain.Task.{Task}
use meta_loop.Services.Ports.{Governance, asks}
use meta_loop.Memory.UnitOfWork.{Store}
use meta_loop.Base.Int.{ℤ, pos}
use meta_loop.Models.Publication.{
  PublicationRecord, PreparedHead, PublicationIntent, reserved, check_record, publication_state_eq,
}
use meta_loop.Services.Publishing.Preparation.{
  keep_head, is_candidate_of, check_preconditions, check_task, check_inputs, is_implementer_result,
  is_task_patch, authorize_preparation, prepare, Tools,
}
use meta_loop.Memory.Publications.{
  reserve, record_prepared, put_checked, References, Publications, is_current, are_references,
  reserved_record, prepared_record, session_of,
}
use meta_loop.Base.{
  get, ◌≡◌, Bool, ok, some, true, Option-cases, str_append, inr, arith, inl, ◌∙◌, Bool-cases, ap,
  ◌!=◌, ◌==◌, Result-cases, ◌||◌, string_eq, get-put_self, false, ◌≢◌, length, List, ℕ, sym,
}

reserve_ok :
    (w : References) (i : PublicationIntent) (s : Publications) (r : PublicationRecord) (b : Bool)
    → (reserve w i s).0 ≡ ok (r, b)
    → get i.publication_id (reserve w i s).1 ≡ some r
unfolding reserve put_checked
reserve_ok w i s r b h = elim (Option-cases (get i.publication_id s)) [
  | inr (c, e) ↦ ground (arith, e, h)
  | inl e ↦ elim (Bool-cases (are_references w i)) [
    | inr d ↦ ground (arith, e, d, h)
    | inl d ↦ elim (Result-cases (check_record (reserved_record i))) [
      | inr (y, f) ↦ ground (arith, e, d, f, h)
      | inl (y, f) ↦ ground (arith, e, d, f, h, get-put_self i.publication_id (reserved_record i) s)
    ]
  ]
]

record_prepared_ok :
    (p : PreparedHead) (n : ℤ) (s : Publications) (q : PublicationRecord)
    → (record_prepared p n s).0 ≡ ok q
    → (get p.publication_id (record_prepared p n s).1 ≡ some q) × (q.prepared_head ≡ some p)
unfolding record_prepared put_checked
record_prepared_ok p n s q h =
    elim (Option-cases (is_current (get p.publication_id s) n reserved)) [
      | inl e ↦ ground (arith, e, h)
      | inr (r, e) ↦
          elim (Bool-cases
            (r.intent.patch_digest != p.patch_digest || r.intent.base_sha != p.base_sha)) [
              | inl d ↦ ground (arith, e, d, h)
              | inr d ↦ elim (Result-cases (check_record (prepared_record r p))) [
                | inr (y, f) ↦ ground (arith, e, d, f, h)
                | inl (y, f) ↦ (
                  ground (arith, e, d, f, h, get-put_self p.publication_id (prepared_record r p) s),
                  ground (arith, e, d, f, h),
                )
              ]
            ]
    ]

keep_head_ok :
    (r : PublicationRecord) (h k : PreparedHead) (s : Store)
    → get h.publication_id s.publications ≡ some r
    → (keep_head r h s).0 ≡ ok k
    → (k ≡ h)
      × ((q : PublicationRecord) × (get h.publication_id (keep_head r h s).1.publications ≡ some q)
          × (q.prepared_head ≡ some h))
unfolding keep_head
keep_head_ok r h k s g e = elim (Option-cases r.prepared_head) [
  | inr (x, a) ↦
      let b : x ≡ h = ground (arith, a, e) in
      (ground (arith, a, b, e), (r, ground (arith, a, b, e, g), a ∙ ap some b))
  | inl a ↦ elim (Bool-cases (r.state == reserved)) [
    | inr b ↦ ground (arith, a, b, e)
    | inl b ↦ elim (Result-cases (record_prepared h r.version s.publications).0) [
      | inr (y, c) ↦ ground (arith, a, b, c, e)
      | inl (q, c) ↦
          let d = record_prepared_ok h r.version s.publications q c in
          (ground (arith, a, b, c, d, e), (q, ground (arith, a, b, c, d), d.1))
    ]
  ]
]

is_candidate_of-eq :
    (h : PreparedHead) (i : PublicationIntent)
    → is_candidate_of h i ≡ true
    → (h.publication_id ≡ i.publication_id)
      × (h.patch_digest ≡ i.patch_digest)
      × (h.base_sha ≡ i.base_sha)
      × (h.deterministic_ref ≡ str_append "refs/heads/meta-loop/" i.publication_id)
unfolding is_candidate_of
is_candidate_of-eq h i e = ground (arith, e)

-- the publication may be prepared: what the tests of the service ask for
pub record IsReady (g : Governance) (i : PublicationIntent) (s : Store) (t : Task) : Type 0 where
  pub live : s.fuse.engaged ≡ false
  pub task : get i.task_id s.tasks ≡ some t
  pub status : t.status ≡ ready_to_publish
  pub low_risk : t.risk.effective ≢ r3
  pub version : t.version ≡ i.expected_task_version
  pub sequence : pos (length (history i.task_id s.events)) ≡ i.expected_sequence
  pub repository : t.repository.name ≡ i.repository_name
  pub base : t.repository.revision ≡ i.base_sha
  pub governed : asks g i.governance_revision "prepare_publication" ≡ true
  pub result :
      is_implementer_result
        (get i.worker_result_id s.worker_results)
        (session_of (get i.worker_result_id s.worker_results) s.runner_sessions)
        i
      ≡ true
  pub patch : is_task_patch (get i.patch_digest s.artifacts) t i ≡ true

ready :
    (g : Governance) (i : PublicationIntent) (s : Store) (t : Task) (x y : Unit {0})
    → s.fuse.engaged ≡ false
    → get i.task_id s.tasks ≡ some t
    → check_task t i (pos (length (history i.task_id s.events))) ≡ ok x
    → asks g i.governance_revision "prepare_publication" ≡ true
    → check_inputs t i s ≡ ok y
    → IsReady g i s t
unfolding check_task check_inputs
ready g i s t x y f a b c d = record {
  live = f;
  task = a;
  status = ground (arith, b);
  low_risk = λ e. ground (arith, b, e);
  version = ground (arith, b);
  sequence = ground (arith, b);
  repository = ground (arith, b);
  base = ground (arith, b);
  governed = c;
  result = ground (arith, d);
  patch = ground (arith, d);
}

preconditions-IsReady :
    (g : Governance) (i : PublicationIntent) (s : Store) (t : Task)
    → (check_preconditions g i s).0 ≡ ok t
    → IsReady g i s t × (check_preconditions g i s ≡ (ok t, s))
unfolding check_preconditions authorize_preparation
preconditions-IsReady g i s t h = elim (Bool-cases s.fuse.engaged) [
  | inl f ↦ ground (arith, f, h)
  | inr f ↦ elim (Option-cases (get i.task_id s.tasks)) [
    | inl a ↦ ground (arith, f, a, h)
    | inr (u, a) ↦
        elim (Result-cases (check_task u i (pos (length (history i.task_id s.events))))) [
          | inr (y, b) ↦ ground (arith, f, a, b, h)
          | inl (_, b) ↦ elim (Bool-cases (asks g i.governance_revision "prepare_publication")) [
            | inr c ↦ ground (arith, f, a, b, c, h)
            | inl c ↦ elim (Result-cases (check_inputs u i s)) [
              | inr (y, d) ↦ ground (arith, f, a, b, c, d, h)
              | inl (_, d) ↦
                  let e : u ≡ t = ground (arith, f, a, b, c, d, h) in
                  (
                    subst (IsReady g i s) e (ready g i s u _ _ f a b c d),
                    ground (arith, f, a, b, c, d, e),
                  )
            ]
          ]
        ]
  ]
]

-- What a preparation that returns has done: the fuse was open, governance had authorised it, the
-- task was ready and the patch was its own; the head is for the intent's publication, patch, base and
-- ref; the patch that was read has the intent's digest; and the publication is stored with this head.
pub prepare_lem :
    (tools : Tools) (g : Governance) (i : PublicationIntent) (s : Store) (h : PreparedHead)
    → (prepare tools g i s).0 ≡ ok h
    → ((t : Task) × IsReady g i s t)
      × ((patch : List ℕ) × (tools.read i.patch_digest ≡ ok patch)
          × (tools.sha256 patch ≡ i.patch_digest)
          × (tools.prepare i patch ≡ ok h))
      × (is_candidate_of h i ≡ true)
      × ((q : PublicationRecord) × (get i.publication_id (prepare tools g i s).1.publications
            ≡ some q)
          × (q.prepared_head ≡ some h))
unfolding prepare
prepare_lem tools g i s h e = elim (Result-cases (check_preconditions g i s).0) [
  | inr (y, a) ↦ ground (arith, a, e)
  | inl (t, a) ↦
      let (ir, st) = preconditions-IsReady g i s t a in
      elim (Result-cases (tools.read i.patch_digest)) [
        | inr (y, b) ↦ ground (arith, st, b, e)
        | inl (patch, b) ↦ elim (Bool-cases (tools.sha256 patch != i.patch_digest)) [
          | inl c ↦ ground (arith, st, b, c, e)
          | inr c ↦ elim (Result-cases (tools.prepare i patch)) [
            | inr (y, d) ↦ ground (arith, st, b, c, d, e)
            | inl (k, d) ↦ elim (Bool-cases (is_candidate_of k i)) [
              | inr f ↦ ground (arith, st, b, c, d, f, e)
              | inl f ↦ elim (Result-cases (reserve (references_of s) i s.publications).0) [
                | inr (y, l) ↦ ground (arith, st, b, c, d, f, l, e)
                | inl ((r, x), l) ↦
                    let s1 : Store = record s {
                      publications = (reserve (references_of s) i s.publications).1;
                    } in
                    let q : prepare tools g i s ≡ keep_head r k s1 =
                      ground (arith, st, b, c, d, f, l) in
                    let p = (is_candidate_of-eq k i f).0 in
                    let m : get k.publication_id s1.publications ≡ some r =
                      ap (λ z. get z s1.publications) p
                      ∙ reserve_ok (references_of s) i s.publications r x l in
                    let (v, (y, n, o)) = keep_head_ok r k h s1 m (ap (λ z. z.0) (sym q) ∙ e) in
                    (
                      (t, ir),
                      (patch, b, ground (arith, c), d ∙ ap ok (sym v)),
                      ap (λ z. is_candidate_of z i) v ∙ f,
                      (
                        y,
                        ap (λ z. get i.publication_id z.1.publications) q
                            ∙ (ap (λ z. get z (keep_head r k s1).1.publications) (sym p) ∙ n),
                        o ∙ ap some (sym v),
                      ),
                    )
              ]
            ]
          ]
        ]
      ]
]
