-- ===== src/Memory/Ledgers.antt =====
-- infrastructure/memory.py: the fuse, the intake and ingestion ledgers, the control events and the
-- artifact catalog.
use meta_loop.Base.{
  Exec, Dict, String, Option, ◌≡◌, ok, get, none, Bool, List, if◌then◌else◌, string_eq, some, ◌++◌,
  false, err, ◌≢◌, ◌==◌, ◌!=◌, ◌∷◌, idempotency_conflict, arith, put, [], true, get-put_self,
  get-put, refl, Option-cases, inr, inl,
}
use meta_loop.Models.Queue.{
  FuseState, IntakeRecord, IssueIngestionRecord, ControlEvent, CatalogedArtifact,
  cataloged_artifact_eq, intake_record_eq, issue_ingestion_record_eq,
}

-- `InMemoryFuseStore`: the dictionary has the one key `"value"`, so the state stands for it.
unfoldable pub get_fuse : Exec FuseState FuseState
get_fuse s = (ok s, s)

unfoldable pub set_fuse : FuseState → Exec FuseState FuseState
set_fuse state s = (ok state, state)

-- `InMemoryIntakeLedger`
abbrev pub Intakes : Type 0
Intakes = Dict String IntakeRecord

unfoldable pub get_intake : String → Exec Intakes (Option IntakeRecord)
get_intake request_id s = (ok (get request_id s), s)

unfoldable pub create_intake : IntakeRecord → Exec Intakes IntakeRecord
create_intake r s = elim (get r.request_id s) [
  | some current ↦ (if current == r then ok current else err idempotency_conflict, s)
  | none ↦ (ok r, put r.request_id r s)
]

-- `InMemorySourceIngestionLedger`; `reserve` does nothing here
abbrev pub Ingestions : Type 0
Ingestions = Dict String IssueIngestionRecord

unfoldable pub get_ingestion : String → Exec Ingestions (Option IssueIngestionRecord)
get_ingestion source_key s = (ok (get source_key s), s)

unfoldable pub find_trigger : String → Ingestions → Option IssueIngestionRecord
find_trigger trigger [] = none
find_trigger trigger ((_, r) ∷ s) =
    if r.trigger_event_id == trigger then some r else find_trigger trigger s

unfoldable pub get_by_trigger_event : String → Exec Ingestions (Option IssueIngestionRecord)
get_by_trigger_event trigger s = (ok (find_trigger trigger s), s)

unfoldable pub record_ingestion :
    IssueIngestionRecord → Exec Ingestions (IssueIngestionRecord × Bool)
record_ingestion r s = elim (get r.source_key s) [
  | some current ↦ (if current != r then err idempotency_conflict else ok (current, false), s)
  | none ↦ elim (find_trigger r.trigger_event_id s) [
    | some _ ↦ (err idempotency_conflict, s)
    | none ↦ (ok (r, true), put r.source_key r s)
  ]
]

-- `InMemoryControlEventStore`
unfoldable pub append_control : ControlEvent → Exec (List ControlEvent) ControlEvent
append_control e s = (ok e, s ++ e ∷ [])

-- `InMemoryArtifactCatalog`
abbrev pub Catalog : Type 0
Catalog = Dict String CatalogedArtifact

is_other : Option CatalogedArtifact → CatalogedArtifact → Bool
is_other none a = false
is_other (some current) a = current != a

unfoldable pub register_artifact : CatalogedArtifact → Exec Catalog CatalogedArtifact
unfolding is_other
register_artifact a s =
    let digest = a.reference.digest.value in
    if is_other (get digest s) a then (err idempotency_conflict, s) else (ok a, put digest a s)

unfoldable pub get_artifact : String → Exec Catalog (Option CatalogedArtifact)
get_artifact digest s = (ok (get digest s), s)

-- After an intake is stored, another record under its request id is answered with the stored one if
-- the two are equal and refused if they are not; the ledger stays as it is.
pub create_intake_again :
    (r other : IntakeRecord) (s : Intakes)
    → (create_intake r s).0 ≡ ok r
    → other.request_id ≡ r.request_id
    → let s' = (create_intake r s).1 in
      create_intake other s' ≡ (if r == other then ok r else err idempotency_conflict, s')
unfolding create_intake
create_intake_again r other s h e = ground (arith, get-put_self r.request_id r s)

-- No two sources share a trigger event.
abbrev pub IsUnique : Ingestions → Type 0
IsUnique [] = Unit
IsUnique ((k, r) ∷ s) = (find_trigger r.trigger_event_id s ≡ none) × IsUnique s

find_trigger-put :
    (t k : String) (r : IssueIngestionRecord) (s : Ingestions)
    → get k s ≡ none
    → find_trigger t s ≡ none
    → r.trigger_event_id ≢ t
    → find_trigger t (put k r s) ≡ none
unfolding find_trigger get put
find_trigger-put t k r [] g f n = ground arith
find_trigger-put t k r ((j, q) ∷ s) g f n = ground (arith, find_trigger-put t k r s)

put-IsUnique :
    (k : String) (r : IssueIngestionRecord) (s : Ingestions)
    → get k s ≡ none
    → find_trigger r.trigger_event_id s ≡ none
    → IsUnique s
    → IsUnique (put k r s)
unfolding find_trigger get put
put-IsUnique k r [] g f u = (refl, tt)
put-IsUnique k r ((j, q) ∷ s) g f u =
    ground (arith, put-IsUnique k r s, find_trigger-put q.trigger_event_id k r s)

-- If the ledger holds each trigger event at most once, it does so after every call; and a call that
-- does not create the record changes nothing.
pub record_ingestion-IsUnique :
    (r : IssueIngestionRecord) (s : Ingestions)
    → IsUnique s
    → IsUnique (record_ingestion r s).1
      × ((record_ingestion r s).0 ≢ ok (r, true) → (record_ingestion r s).1 ≡ s)
unfolding record_ingestion
record_ingestion-IsUnique r s u = elim (Option-cases (get r.source_key s)) [
  | inr (c, e) ↦ rw (e, record_ingestion) (u, λ h. refl)
  | inl e ↦ elim (Option-cases (find_trigger r.trigger_event_id s)) [
    | inr (c, f) ↦ rw (e, record_ingestion) (rw (f, record_ingestion) (u, λ h. refl))
    | inl f ↦
        rw (e, record_ingestion)
          (rw (f, record_ingestion) (put-IsUnique r.source_key r s e f u, λ h. absurd (h refl)))
  ]
]

-- An artifact that is registered stays registered with the same metadata, whatever is registered
-- later.
pub register_artifact_keeps :
    (a b : CatalogedArtifact) (digest : String) (s : Catalog)
    → get digest s ≡ some a
    → get digest (register_artifact b s).1 ≡ some a
unfolding register_artifact
register_artifact_keeps a b digest s h = ground (arith, get-put b.reference.digest.value digest b s)
