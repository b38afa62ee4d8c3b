-- ===== src/Memory/Observations.antt =====
-- infrastructure/memory.py: `InMemoryCheckRunObservationStore`.
use meta_loop.Models.Publication.{PreparedHead, PublicationRecord}
use meta_loop.Base.Clock.{Time}
use meta_loop.Memory.Publications.{Publications}
use meta_loop.Models.Checks.{CheckRunObservation, observation_canonical}
use meta_loop.Base.{
  String, String-discrete, Eq, Dict, Option, ℕ_discrete, Exec, Bool, List, false, get, ok, some,
  keep, ◌==◌, none, if◌then◌else◌, string_eq, ◌&&◌, ◌!=◌, values, err, idempotency_conflict, not,
  true, put, list_eq, nat_eq,
}

abbrev pub ObservationKey : Type 0
ObservationKey = String × String × String × Time

unfoldable pub ObservationKey-discrete : Discrete ObservationKey
unfolding String-discrete ℕ_discrete
ObservationKey-discrete = hlevel (String-discrete, ℕ_discrete)

instance abbrev pub observation_key_eq : Eq ObservationKey
observation_key_eq = record { dec = ObservationKey-discrete }

abbrev pub Observations : Type 0
Observations = Dict ObservationKey CheckRunObservation

abbrev pub observation_key : CheckRunObservation → ObservationKey
observation_key o = (o.publication_id, o.head_sha, o.check_name, o.observed_at)

is_observed_head : Option PreparedHead → CheckRunObservation → Bool
is_observed_head none o = false
is_observed_head (some p) o = p.head_sha == o.head_sha

unfoldable pub is_of_publication : Option PublicationRecord → CheckRunObservation → Bool
unfolding is_observed_head
is_of_publication none o = false
is_of_publication (some r) o = is_observed_head r.prepared_head o

unfoldable pub append_observation :
    Publications → CheckRunObservation → Exec Observations (CheckRunObservation × Bool)
append_observation w o s = elim (get (observation_key o) s) [
  | some current ↦ (
    if observation_canonical current != observation_canonical o
        then err idempotency_conflict
        else ok (current, false),
    s,
  )
  | none ↦
      if not (is_of_publication (get o.publication_id w) o)
      then (err idempotency_conflict, s)
      else (ok (o, true), put (observation_key o) o s)
]

unfoldable pub read_observations : String → String → Exec Observations (List CheckRunObservation)
read_observations publication_id head_sha s =
    (ok (keep (λ o. o.publication_id == publication_id && o.head_sha == head_sha) (values s)), s)
