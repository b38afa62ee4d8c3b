-- ===== src/Services/Ingestion/Once.antt =====
-- application/ingestion.py: an issue is ingested once.
use mathlib.Core.Path.{subst}
use meta_loop.Services.Ports.{on_events, Governance, is_authorized}
use meta_loop.Memory.Events.{read}
use meta_loop.Models.Queue.{IssueIngestionRecord, IssueIngestionReceipt}
use meta_loop.Services.Ingestion.{
  ingest_new, ingestion_of, PutBlob, Moments, intake_of, issue_artifact, record_source, ingest,
  ingested_event, ingest_again,
}
use meta_loop.Services.Issues.{IssueCandidate, spec_canonical, candidate_canonical}
use meta_loop.Memory.Queue.{enqueue}
use meta_loop.Memory.Events.{append, history}
use meta_loop.Memory.Tasks.{create_task, update_task}
use meta_loop.Memory.Ledgers.{
  register_artifact, create_intake, record_ingestion, Ingestions, find_trigger,
}
use meta_loop.Domain.Event.{new_event}
use meta_loop.Domain.Artifacts.{ArtifactRef}
use meta_loop.Base.Int.{ℤ, pos}
use meta_loop.Domain.Task.{Task, attach_artifact, task_eq}
use meta_loop.Memory.UnitOfWork.{Store}
use meta_loop.Base.Clock.{Time}
use meta_loop.Services.Workers.{
  register, ArtifactRequest, reference_of, update_if_new, registered_event,
}
use meta_loop.Services.Intake.{
  start_new, start, IntakeRequest, start_again, intake_task, received_event, intake_canonical,
}
use meta_loop.Base.{
  ◌>>=◌, ◌>>◌, String, ◌≡◌, some, false, true, ok, Option-cases, Bool-cases, Result-cases, inl, inr,
  arith, get, get-put_self, ◌∙◌, ap, sym, ◌||◌, ◌!=◌, ◌==◌, Result, ℕ, is_empty, string_eq, Exec,
  Bool, Option, length, lift, pure, list_eq, nat_eq,
}

new-fuse :
    (r : IntakeRequest) (now : Time) (id : String) (s : Store) (t : Task)
    → (start_new r now id s).0 ≡ ok t
    → (start_new r now id s).1.fuse ≡ s.fuse
unfolding start_new
new-fuse r now id s t h = elim (Result-cases (intake_task r now)) [
  | inr (y, a) ↦ ground (arith, a)
  | inl (u, a) ↦ elim (Result-cases (new_event (received_event r u now id))) [
    | inr (y, b) ↦ ground (arith, a, b)
    | inl (e, b) ↦ elim (Result-cases (create_task u s.tasks).0) [
      | inr (y, c) ↦ ground (arith, a, b, c)
      | inl (v, c) ↦
          elim (Result-cases
            (create_intake
              (record {
                request_id = r.request_id;
                canonical_request = intake_canonical r;
                task_id = u.task_id;
              })
              s.intakes).0) [
                | inr (y, d) ↦ ground (arith, a, b, c, d)
                | inl (w, d) ↦ elim (Result-cases (append e (pos 0) s.events).0) [
                  | inr (y, f) ↦ ground (arith, a, b, c, d, f)
                  | inl (x, f) ↦ elim (Bool-cases r.enqueues) [
                    | inr g ↦ ground (arith, a, b, c, d, f, g)
                    | inl g ↦
                        elim (Result-cases
                          (enqueue u.task_id r.priority now r.request_id s.queue).0) [
                            | inr (y, k) ↦ ground (arith, a, b, c, d, f, g, k)
                            | inl (z, k) ↦ ground (arith, a, b, c, d, f, g, k)
                          ]
                  ]
                ]
              ]
    ]
  ]
]

start-fuse :
    (r : IntakeRequest) (now : Time) (id : String) (s : Store) (t : Task)
    → (start r now id s).0 ≡ ok t
    → (start r now id s).1.fuse ≡ s.fuse
unfolding start start_again
start-fuse r now id s t h = elim (Bool-cases (is_empty r.request_id || s.fuse.engaged)) [
  | inl e ↦ ground (arith, e)
  | inr e ↦ elim (Option-cases (get r.request_id s.intakes)) [
    | inl f ↦ ground (arith, e, f, h, new-fuse r now id s t)
    | inr (x, f) ↦ ground (arith, e, f)
  ]
]

update_if_new-fuse : (t u : Task) (v : ℤ) (s : Store) → (update_if_new t u v s).1.fuse ≡ s.fuse
update_if_new-fuse t u v s = elim (Bool-cases (t != u)) [
  | inr a ↦ ground (arith, a)
  | inl a ↦ elim (Result-cases (update_task t v s.tasks).0) [
    | inr (y, b) ↦ ground (arith, a, b)
    | inl (x, b) ↦ ground (arith, a, b)
  ]
]

-- the calls after the catalogue's
abbrev registered : String → ArtifactRef → Task → ℤ → ℤ → Time → String → Exec Store ArtifactRef
registered id q t v n now new = do
  update_if_new (attach_artifact t q) t v
  event ← lift (new_event (registered_event id q n now new))
  on_events (append event n)
  pure q

registered-fuse :
    (id : String) (q : ArtifactRef) (t : Task) (v n : ℤ) (now : Time) (new : String) (s : Store)
    (x : Result ArtifactRef × Store)
    → x ≡ registered id q t v n now new s
    → x.1.fuse ≡ s.fuse
registered-fuse id q t v n now new s x h =
    elim (Result-cases (update_if_new (attach_artifact t q) t v s).0) [
      | inr (y, a) ↦ ground (arith, a, h, update_if_new-fuse (attach_artifact t q) t v s)
      | inl (u, a) ↦ elim (Result-cases (new_event (registered_event id q n now new))) [
        | inr (y, b) ↦ ground (arith, a, b, h, update_if_new-fuse (attach_artifact t q) t v s)
        | inl (e, b) ↦
            elim (Result-cases
              (append e n (update_if_new (attach_artifact t q) t v s).1.events).0) [
                | inr (y, c) ↦
                    ground (arith, a, b, c, h, update_if_new-fuse (attach_artifact t q) t v s)
                | inl (z, c) ↦
                    ground (arith, a, b, c, h, update_if_new-fuse (attach_artifact t q) t v s)
              ]
      ]
    ]

register-fuse :
    (stored : Result (String × ℕ)) (id : String) (r : ArtifactRequest) (v n : ℤ) (now : Time)
    (new : String) (s : Store) (ref : ArtifactRef)
    → (register stored id r v n now new s).0 ≡ ok ref
    → (register stored id r v n now new s).1.fuse ≡ s.fuse
unfolding register
register-fuse stored id r v n now new s ref h = elim (Bool-cases r.contains_secrets) [
  | inl a ↦ ground (arith, a)
  | inr a ↦ elim (Result-cases stored) [
    | inr (y, b) ↦ ground (arith, a, b)
    | inl ((d, k), b) ↦ elim (Result-cases (reference_of d r)) [
      | inr (y, c) ↦ ground (arith, a, b, c)
      | inl (q, c) ↦ elim (Option-cases (get id s.tasks)) [
        | inl e ↦ ground (arith, a, b, c, e)
        | inr (t, e) ↦
            elim (Result-cases
              (register_artifact
                (record {
                  reference = q;
                  classification = r.classification;
                  source_kind = r.source_kind;
                  size_bytes = k;
                })
                s.artifacts).0) [
                  | inr (y, f) ↦ ground (arith, a, b, c, e, f)
                  | inl (x, f) ↦
                      registered-fuse id q t v n now new
                        (record s {
                          artifacts =
                              (register_artifact
                                (record {
                                  reference = q;
                                  classification = r.classification;
                                  source_kind = r.source_kind;
                                  size_bytes = k;
                                })
                                s.artifacts).1;
                        })
                        (register stored id r v n now new s) (ground (arith, a, b, c, e, f))
                ]
      ]
    ]
  ]
]

record_ingestion_ok :
    (x k : IssueIngestionRecord) (b : Bool) (w : Ingestions)
    → (record_ingestion x w).0 ≡ ok (k, b)
    → (get x.source_key (record_ingestion x w).1 ≡ some k) × (k ≡ x)
unfolding record_ingestion
record_ingestion_ok x k b w h = elim (Option-cases (get x.source_key w)) [
  | inr (c, e) ↦ (ground (arith, e, h), ground (arith, e, h))
  | inl e ↦ elim (Option-cases (find_trigger x.trigger_event_id w)) [
    | inr (c, f) ↦ ground (arith, e, f, h)
    | inl f ↦ (ground (arith, e, f, h, get-put_self x.source_key x w), ground (arith, e, f, h))
  ]
]

-- what an ingestion leaves
record IsIngested (c : IssueCandidate) (s s' : Store) (r : IssueIngestionReceipt) : Type 0 where
  kept : s'.fuse ≡ s.fuse
  stored : get c.source_key s'.ingestions ≡ some (ingestion_of c r.task_id)

record_source-IsIngested :
    (c : IssueCandidate) (id : String) (q : ArtifactRef) (m : Moments) (s : Store)
    (r : IssueIngestionReceipt)
    → (record_source c id q m s).0 ≡ ok r
    → IsIngested c s (record_source c id q m s).1 r
unfolding record_source read
record_source-IsIngested c id q m s r h = elim (Option-cases (get id s.tasks)) [
  | inl a ↦ ground (arith, a, h)
  | inr (t, a) ↦
      let n = pos (length (history id s.events)) in
      elim (Result-cases (new_event (ingested_event c id q n m))) [
        | inr (y, b) ↦ ground (arith, a, b, h)
        | inl (e, b) ↦ elim (Result-cases (append e n s.events).0) [
          | inr (y, d) ↦ ground (arith, a, b, d, h)
          | inl (x, d) ↦
              elim (Result-cases (record_ingestion (ingestion_of c t.task_id) s.ingestions).0) [
                | inr (y, f) ↦ ground (arith, a, b, d, f, h)
                | inl ((k, z), f) ↦
                    let g = record_ingestion_ok (ingestion_of c t.task_id) k z s.ingestions f in
                    record {
                      kept = ground (arith, a, b, d, f);
                      stored = ground (arith, a, b, d, f, g, h);
                    }
              ]
        ]
      ]
]

ingest_new-IsIngested :
    (put_blob : PutBlob) (revision : Option String) (c : IssueCandidate) (m : Moments) (s : Store)
    (r : IssueIngestionReceipt)
    → (ingest_new put_blob revision c m s).0 ≡ ok r
    → IsIngested c s (ingest_new put_blob revision c m s).1 r
unfolding ingest_new read
ingest_new-IsIngested put_blob revision c m s r h =
    elim (Result-cases (start (intake_of revision c) m.received_at m.received_id s).0) [
      | inr (y, a) ↦ ground (arith, a, h)
      | inl (t, a) ↦
          let s1 = (start (intake_of revision c) m.received_at m.received_id s).1 in
          let n = pos (length (history t.task_id s1.events)) in
          let put = put_blob (spec_canonical c.spec) in
          elim (Result-cases
            (register put t.task_id issue_artifact t.version n m.registered_at m.registered_id
              s1).0) [
                | inr (y, b) ↦ ground (arith, a, b, h)
                | inl (q, b) ↦
                    let s2 =
                      (register put t.task_id issue_artifact t.version n m.registered_at
                        m.registered_id s1).1 in
                    let e : ingest_new put_blob revision c m s ≡ record_source c t.task_id q m s2 =
                      ground (arith, a, b) in
                    let k =
                      record_source-IsIngested c t.task_id q m s2 r (ap (λ z. z.0) (sym e) ∙ h) in
                    record {
                      kept =
                          ap (λ z. z.1.fuse) e
                          ∙ (k.kept
                              ∙ (register-fuse put t.task_id issue_artifact t.version n
                                    m.registered_at m.registered_id s1 q b
                                  ∙ start-fuse (intake_of revision c) m.received_at m.received_id s
                                      t a));
                      stored = ap (λ z. get c.source_key z.1.ingestions) e ∙ k.stored;
                    }
              ]
    ]

ingested_again :
    (other : PutBlob) (g : Option Governance) (revision : Option String) (c : IssueCandidate)
    (m : Moments) (s s' : Store) (r : IssueIngestionReceipt)
    → is_authorized g revision "github_issue_ingestion" ≡ true
    → s.fuse.engaged ≡ false
    → IsIngested c s s' r
    → ingest other g revision c m s' ≡ (ok (record { task_id = r.task_id; created = false }), s')
unfolding ingest ingest_again
ingested_again other g revision c m s s' r a b k =
    let live : s'.fuse.engaged ≡ false = ap (λ z. z.engaged) k.kept ∙ b in
    ground (arith, a, live, k.stored)

-- Ingestion is idempotent: once a candidate has been ingested, the same call with any values of the
-- clock and the generator and with any blob store names the same task, says that it has created
-- nothing, and changes nothing.
pub ingest_repeat :
    (put_blob other : PutBlob) (g : Option Governance) (revision : Option String)
    (c : IssueCandidate) (m m' : Moments) (s : Store) (r : IssueIngestionReceipt)
    → (ingest put_blob g revision c m s).0 ≡ ok r
    → let s' = (ingest put_blob g revision c m s).1 in
      ingest other g revision c m' s' ≡ (ok (record { task_id = r.task_id; created = false }), s')
unfolding ingest ingest_again
ingest_repeat put_blob other g revision c m m' s r h =
    elim (Bool-cases (is_authorized g revision "github_issue_ingestion")) [
      | inr a ↦ ground (arith, a, h)
      | inl a ↦ elim (Bool-cases s.fuse.engaged) [
        | inl b ↦ ground (arith, a, b, h)
        | inr b ↦ elim (Option-cases (get c.source_key s.ingestions)) [
          | inr (k, d) ↦ elim (Bool-cases (k.canonical_request == candidate_canonical c)) [
            | inr e ↦ ground (arith, a, b, d, e, h)
            | inl e ↦ ground (arith, a, b, d, e, h)
          ]
          | inl d ↦ elim (Option-cases (find_trigger c.trigger_event_id s.ingestions)) [
            | inr (x, e) ↦ ground (arith, a, b, d, e, h)
            | inl e ↦
                let f : ingest put_blob g revision c m s ≡ ingest_new put_blob revision c m s =
                  ground (arith, a, b, d, e) in
                let k =
                  ingest_new-IsIngested put_blob revision c m s r (ap (λ z. z.0) (sym f) ∙ h) in
                subst
                  (λ z.
                    ingest other g revision c m' z.1
                    ≡ (ok (record { task_id = r.task_id; created = false }), z.1))
                  (sym f)
                  (ingested_again other g revision c m' s (ingest_new put_blob revision c m s).1 r a
                    b k)
          ]
        ]
      ]
    ]
