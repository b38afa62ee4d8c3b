-- ===== src/Services/Publishing/Remote/Resume.antt =====
-- application/publication.py: a publication that the remote side has interrupted.
use mathlib.Core.Path.{subst}
use meta_loop.Services.Publishing.Remote.Idempotent.{own_id, close_lem, validate_receipt-effect_id}
use meta_loop.Models.Effect.{
  check_effect_record, PublicationEffectRecord, PublicationReceipt, PublicationEffectIntent,
}
use meta_loop.Services.Publishing.Remote.Opening.{IsOpened, open_again, OwnIds, open_lem}
use meta_loop.Memory.Effects.{get_effect, reconcile, effect_of, settle, is_exact_receipt}
use meta_loop.Models.Publication.{PublicationRecord, PreparedHead, PublicationIntent}
use meta_loop.Memory.UnitOfWork.{Store}
use meta_loop.Services.Publishing.{passed_head, in_block}
use meta_loop.Services.Publishing.Remote.{
  check_found, close_effect, Opened, undrifted, close_known, open_effect, calling, validate_receipt,
  is_pull_request_of, finish, publish, Publisher,
}
use meta_loop.Base.{
  String, Option, ◌≡◌, none, some, Option-cases, ok, inl, arith, inr, ap, ◌∙◌, get, string_eq,
  Error, sym, err,
}

-- the block on an effect that is opened and has no receipt
opened_again :
    (id effect_id : String) (s s' : Store) (x : Opened)
    → (o : IsOpened id effect_id s s' x) → o.effect.receipt ≡ none
    → in_block (open_effect id effect_id) s'
      ≡ (ok (calling o.publication.intent o.head o.effect.intent), s')
unfolding check_found
opened_again id effect_id s s' x o n =
    let f =
      open_again id effect_id s' o.publication o.head o.intent o.effect
        (ap (λ z. z.fuse.engaged) o.rest ∙ o.live)
        (ap (λ z. passed_head (get id z.publications)) o.rest ∙ o.passed)
        (ap (λ z. check_found o.publication o.head id effect_id z) o.rest ∙ o.fits) o.stored
        o.same in
    ground (arith, f, n)

passed_head-prepared :
    (o : Option PublicationRecord) (p : PublicationRecord) (h : PreparedHead)
    → passed_head o ≡ some (p, h)
    → (o ≡ some p) × (p.prepared_head ≡ some h)
unfolding passed_head
passed_head-prepared none p h e = cc
passed_head-prepared (some r) p h e = elim (Option-cases r.prepared_head) [
  | inl a ↦ ground (arith, a, e)
  | inr (k, a) ↦ elim (Option-cases r.verification) [
    | inl b ↦ ground (arith, a, b, e)
    | inr (v, b) ↦ (ground (arith, a, b, e), ground (arith, a, b, e))
  ]
]

-- the receipt is stored where it fits the opened effect and the stored head
close_ok :
    (effect_id : String) (s : Store) (p : PublicationRecord) (h : PreparedHead)
    (r : PublicationEffectRecord) (d : PublicationReceipt)
    → get effect_id s.effects ≡ some r
    → r.receipt ≡ none
    → r.intent.effect_id ≡ effect_id
    → get r.intent.publication_id s.publications ≡ some p
    → p.prepared_head ≡ some h
    → h.base_sha ≡ p.intent.base_sha
    → validate_receipt d h r.intent ≡ ok tt
    → (in_block (close_effect effect_id r.intent d) s).0 ≡ ok d
unfolding in_block close_effect get_effect undrifted close_known reconcile effect_of settle
    check_effect_record is_exact_receipt validate_receipt is_pull_request_of
close_ok effect_id s p h r d g n i a b c v = elim (Option-cases d.pull_request) [
  | inl q ↦ ground (arith, q, v)
  | inr (q, e) ↦
      let k : d.effect_id ≡ effect_id = ground (arith, e, v, i) in
      let m : get d.effect_id s.effects ≡ some r = ap (λ z. get z s.effects) k ∙ g in
      let l : get d.publication_id s.publications ≡ some p = ground (arith, e, v, a) in
      ground (arith, g, n, b, c, v, e, m, l)
]

finish_called :
    (publisher : Publisher) (effect_id : String) (s : Store) (i : PublicationIntent)
    (h : PreparedHead) (e : PublicationEffectIntent) (d : PublicationReceipt)
    → publisher i h e ≡ ok d
    → validate_receipt d h e ≡ ok tt
    → finish publisher effect_id (calling i h e) s ≡ in_block (close_effect effect_id e d) s
unfolding finish
finish_called publisher effect_id s i h e d g v = ground (arith, g, v)

-- the opened effect takes the receipt
calling-close :
    (id effect_id : String) (s s' : Store) (i : PublicationIntent) (h : PreparedHead)
    (e : PublicationEffectIntent) (d : PublicationReceipt)
    → OwnIds s.effects
    → IsOpened id effect_id s s' (calling i h e)
    → e.publication_id ≡ id
    → h.base_sha ≡ i.base_sha
    → validate_receipt d h e ≡ ok tt
    → (in_block (open_effect id effect_id) s' ≡ (ok (calling i h e), s'))
      × ((in_block (close_effect effect_id e d) s').0 ≡ ok d)
calling-close id effect_id s s' i h e d own o p b v = elim o.outcome [
  | inl (k, a, _, _) ↦ cc
  | inr (a, n) ↦
      let ei : e ≡ o.effect.intent = ground (arith, a) in
      let hi : h ≡ o.head = ground (arith, a) in
      let ii : i ≡ o.publication.intent = ground (arith, a) in
      let f = passed_head-prepared (get id s.publications) o.publication o.head o.passed in
      let g : get o.effect.intent.publication_id s'.publications ≡ some o.publication =
        ap (λ z. get z s'.publications) (ap (λ y. y.publication_id) (sym ei) ∙ p)
        ∙ (ap (λ z. get id z.publications) o.rest ∙ f.0) in
      let c =
        close_ok effect_id s' o.publication o.head o.effect d o.stored n
          (own_id id effect_id s s' (calling i h e) own o) g f.1
          (ap (λ y. y.base_sha) (sym hi) ∙ (b ∙ ap (λ y. y.base_sha) ii))
          (subst (λ y. validate_receipt d y o.effect.intent ≡ ok tt) hi
            (subst (λ y. validate_receipt d h y ≡ ok tt) ei v)) in
      (
        subst (λ y. in_block (open_effect id effect_id) s' ≡ (ok y, s')) (sym a)
            (opened_again id effect_id s s' (calling i h e) o n),
        subst (λ y. (in_block (close_effect effect_id y d) s').0 ≡ ok d) (sym ei) c,
      )
]

-- the later call stores the receipt with the effect
resumed_lem :
    (good : Publisher) (id effect_id : String) (s s' : Store) (i : PublicationIntent)
    (h : PreparedHead) (e : PublicationEffectIntent) (d : PublicationReceipt)
    → OwnIds s.effects
    → IsOpened id effect_id s s' (calling i h e)
    → e.publication_id ≡ id
    → h.base_sha ≡ i.base_sha
    → good i h e ≡ ok d
    → validate_receipt d h e ≡ ok tt
    → ((publish good id effect_id s').0 ≡ ok d)
      × ((r : PublicationEffectRecord) × (get effect_id (publish good id effect_id s').1.effects
            ≡ some r)
          × (r.receipt ≡ some d))
unfolding publish
resumed_lem good id effect_id s s' i h e d own o p b g v =
    let k = calling-close id effect_id s s' i h e d own o p b v in
    let f : publish good id effect_id s' ≡ in_block (close_effect effect_id e d) s' =
      ground (arith, k.0, finish_called good effect_id s' i h e d g v) in
    let q : e.effect_id ≡ effect_id = elim o.outcome [
      | inl (_, a, _, _) ↦ cc
      | inr (a, _) ↦
          let m : e ≡ o.effect.intent = ground (arith, a) in
          ap (λ y. y.effect_id) m ∙ own_id id effect_id s s' (calling i h e) own o
    ] in
    let c = close_lem effect_id e d d s' (validate_receipt-effect_id d h e tt v ∙ q) k.1 in
    (ap (λ z. z.0) f ∙ k.1, (c.effect, ap (λ z. get effect_id z.1.effects) f ∙ c.stored, c.receipt))

-- A publication that breaks off at the remote side can be resumed. Where every stored effect stands
-- under its own id, the first transaction has opened an effect of this publication on a head of the
-- intent's base, and the publisher then raises, the opened effect is durable; and the same call with a
-- publisher whose receipt fits this head and effect returns that receipt and leaves it stored with the
-- effect.
pub publish_resumes :
    (bad good : Publisher) (id effect_id : String) (s : Store) (i : PublicationIntent)
    (h : PreparedHead) (e : PublicationEffectIntent) (y : Error) (d : PublicationReceipt)
    → OwnIds s.effects
    → (in_block (open_effect id effect_id) s).0 ≡ ok (calling i h e)
    → e.publication_id ≡ id
    → h.base_sha ≡ i.base_sha
    → bad i h e ≡ err y
    → good i h e ≡ ok d
    → validate_receipt d h e ≡ ok tt
    → let s' = (in_block (open_effect id effect_id) s).1 in
      (publish bad id effect_id s ≡ (err y, s'))
      × ((r : PublicationEffectRecord) × (get effect_id s'.effects ≡ some r) × (r.intent ≡ e))
      × ((publish good id effect_id s').0 ≡ ok d)
      × ((r : PublicationEffectRecord) × (get effect_id (publish good id effect_id s').1.effects
            ≡ some r)
          × (r.receipt ≡ some d))
unfolding publish finish
publish_resumes bad good id effect_id s i h e y d own a p b x g v =
    let o = open_lem id effect_id s (calling i h e) a in
    let k =
      resumed_lem good id effect_id s (in_block (open_effect id effect_id) s).1 i h e d own o p b g
        v in
    (
      ground (arith, a, x),
      (
        o.effect,
        o.stored,
        elim o.outcome [ inl (_, q, _, _) ↦ cc | inr (q, _) ↦ ground (arith, q) ],
      ),
      k.0,
      k.1,
    )
