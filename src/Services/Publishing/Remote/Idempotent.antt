-- ===== src/Services/Publishing/Remote/Idempotent.antt =====
-- application/publication.py: a publication that has been published stays so.
use mathlib.Core.Path.{subst}
use meta_loop.Services.Publishing.Remote.Opening.{OwnIds, IsOpened, open_lem, open_again}
use meta_loop.Models.Publication.{PublicationRecord, PreparedHead, PublicationIntent}
use meta_loop.Memory.UnitOfWork.{Store}
use meta_loop.Services.Publishing.Remote.{
  close_effect, undrifted, close_known, finish, Opened, Publisher, settled, validate_receipt,
  check_found, publish, calling, open_effect,
}
use meta_loop.Models.Effect.{
  PublicationEffectIntent, check_effect_record, PublicationReceipt, PublicationEffectRecord,
  effect_intent_canonical,
}
use meta_loop.Services.Publishing.{in_block, effect_sources_of, passed_head}
use meta_loop.Memory.Effects.{
  reconcile, effect_of, settle, get_effect, EffectSources, Effects, effect_record,
}
use meta_loop.Base.{
  String, get, ◌≡◌, ok, some, Option-cases, string_eq, inl, arith, inr, get-put_self, Bool-cases,
  ◌==◌, Result-cases, list_eq, nat_eq, false, ap, sym, ◌∙◌,
}

reconcile_ok :
    (w : EffectSources) (c : PublicationReceipt) (s : Effects) (r : PublicationEffectRecord)
    → (reconcile w c s).0 ≡ ok r
    → (o : PublicationEffectRecord) × (get c.effect_id s ≡ some o)
      × (r.intent ≡ o.intent)
      × (get c.effect_id (reconcile w c s).1 ≡ some r)
unfolding reconcile effect_of settle check_effect_record
reconcile_ok w c s r h = elim (Option-cases (get c.effect_id s)) [
  | inl e ↦ ground (arith, e, h)
  | inr (o, e) ↦ elim (Option-cases o.receipt) [
    | inr (k, n) ↦ (o, e, ground (arith, e, n, h), ground (arith, e, n, h))
    | inl n ↦ (
      o,
      e,
      ground (arith, e, n, h),
      ground (arith, e, n, h, get-put_self c.effect_id (effect_record o.intent (some c)) s),
    )
  ]
]

abbrev with_effects : Store → Effects → Store
with_effects s t = record s { effects = t }

-- what the second block leaves
pub record IsClosed (effect_id : String) (i : PublicationEffectIntent) (s s' : Store)
    (c : PublicationReceipt) : Type 0 where
  pub effect : PublicationEffectRecord
  pub stored : get effect_id s'.effects ≡ some effect
  pub receipt : effect.receipt ≡ some c
  pub same : effect_intent_canonical effect.intent ≡ effect_intent_canonical i
  pub rest : s' ≡ record s { effects = s'.effects }

pub close_lem :
    (effect_id : String) (i : PublicationEffectIntent) (c d : PublicationReceipt) (s : Store)
    → c.effect_id ≡ effect_id
    → (in_block (close_effect effect_id i c) s).0 ≡ ok d
    → IsClosed effect_id i s (in_block (close_effect effect_id i c) s).1 d
unfolding in_block close_effect get_effect undrifted close_known
close_lem effect_id i c d s own e = elim (Option-cases (get effect_id s.effects)) [
  | inl a ↦ ground (arith, a, e)
  | inr (r, a) ↦ elim (Bool-cases (effect_intent_canonical r.intent == effect_intent_canonical i)) [
    | inr b ↦ ground (arith, a, b, e)
    | inl b ↦ elim (Option-cases r.receipt) [
      | inr (k, n) ↦ record {
        effect = r;
        stored = ground (arith, a, b, n, e);
        receipt = ground (arith, a, b, n, e);
        same = ground (arith, b);
        rest = ground (arith, a, b, n, e);
      }
      | inl n ↦ elim (Result-cases (reconcile (effect_sources_of s) c s.effects).0) [
        | inr (y, g) ↦ ground (arith, a, b, n, g, e)
        | inl (q, g) ↦
            let k = reconcile_ok (effect_sources_of s) c s.effects q g in
            elim (Option-cases q.receipt) [
              | inl m ↦ ground (arith, a, b, n, g, m, e)
              | inr (x, m) ↦ record {
                effect = q;
                stored = ground (arith, a, b, n, g, m, e, k, own);
                receipt = ground (arith, a, b, n, g, m, e);
                same = ground (arith, a, b, k, own);
                rest = ground (arith, a, b, n, g, m, e);
              }
            ]
      ]
    ]
  ]
]

-- what a successful publication leaves: the effect with the receipt, and all that the tests read
pub record IsPublished (id effect_id : String) (s s' : Store) (c : PublicationReceipt)
    : Type 0 where
  pub publication : PublicationRecord
  pub head : PreparedHead
  pub intent : PublicationEffectIntent
  pub effect : PublicationEffectRecord
  pub live : s.fuse.engaged ≡ false
  pub passed : passed_head (get id s.publications) ≡ some (publication, head)
  pub fits : check_found publication head id effect_id s ≡ ok intent
  pub stored : get effect_id s'.effects ≡ some effect
  pub receipt : effect.receipt ≡ some c
  pub same : effect_intent_canonical effect.intent ≡ effect_intent_canonical intent
  pub rest : s' ≡ record s { effects = s'.effects }

settled_lem :
    (publisher : Publisher) (effect_id : String) (s : Store) (c : PublicationReceipt) (x : Opened)
    → x ≡ settled c
    → finish publisher effect_id x s ≡ (ok c, s)
unfolding finish
settled_lem publisher effect_id s c x e = ground (arith, e)

pub validate_receipt-effect_id :
    (c : PublicationReceipt) (h : PreparedHead) (i : PublicationEffectIntent) (u : Unit {0})
    → validate_receipt c h i ≡ ok u
    → c.effect_id ≡ i.effect_id
unfolding validate_receipt
validate_receipt-effect_id c h i u e = ground (arith, e)

pub own_id :
    (id effect_id : String) (s s' : Store) (x : Opened)
    → OwnIds s.effects
    → (o : IsOpened id effect_id s s' x) → o.effect.intent.effect_id ≡ effect_id
own_id id effect_id s s' x own o = elim o.named [ inl e ↦ e | inr g ↦ own effect_id o.effect g ]

called_lem :
    (publisher : Publisher) (effect_id : String) (s : Store) (x : Opened) (p : PublicationIntent)
    (h : PreparedHead) (i : PublicationEffectIntent) (c : PublicationReceipt)
    → x ≡ calling p h i
    → (finish publisher effect_id x s).0 ≡ ok c
    → (d : PublicationReceipt) × (d.effect_id ≡ i.effect_id)
      × (finish publisher effect_id x s ≡ in_block (close_effect effect_id i d) s)
unfolding finish
called_lem publisher effect_id s x p h i c a e = elim (Result-cases (publisher p h i)) [
  | inr (y, g) ↦ ground (arith, a, g, e)
  | inl (d, g) ↦ elim (Result-cases (validate_receipt d h i)) [
    | inr (y, v) ↦ ground (arith, a, g, v, e)
    | inl (u, v) ↦ (d, validate_receipt-effect_id d h i u v, ground (arith, a, g, v))
  ]
]

finish_lem :
    (publisher : Publisher) (id effect_id : String) (s s' : Store) (x : Opened)
    (c : PublicationReceipt)
    → OwnIds s.effects
    → IsOpened id effect_id s s' x
    → (finish publisher effect_id x s').0 ≡ ok c
    → IsPublished id effect_id s (finish publisher effect_id x s').1 c
finish_lem publisher id effect_id s s' x c own o e = elim o.outcome [
  | inl (k, a, b, w) ↦
      let f = settled_lem publisher effect_id s' k x a in
      let q : c ≡ k = ground (arith, ap (λ z. z.0) f, e) in
      subst (λ z. IsPublished id effect_id s z.1 c) (sym f)
        (record {
          publication = o.publication;
          head = o.head;
          intent = o.intent;
          effect = o.effect;
          live = o.live;
          passed = o.passed;
          fits = o.fits;
          stored = o.stored;
          receipt = b ∙ ap some (sym q);
          same = o.same;
          rest = o.rest;
        })
  | inr (a, b) ↦
      let (d, v, f) =
        called_lem publisher effect_id s' x o.publication.intent o.head o.effect.intent c a e in
      let k =
        close_lem effect_id o.effect.intent d c s' (v ∙ own_id id effect_id s s' x own o)
          (ap (λ z. z.0) (sym f) ∙ e) in
      subst (λ z. IsPublished id effect_id s z.1 c) (sym f)
        (record {
          publication = o.publication;
          head = o.head;
          intent = o.intent;
          effect = k.effect;
          live = o.live;
          passed = o.passed;
          fits = o.fits;
          stored = k.stored;
          receipt = k.receipt;
          same = k.same ∙ o.same;
          rest =
              k.rest
              ∙ ap
                  (λ z.
                    with_effects z
                      (in_block (close_effect effect_id o.effect.intent d) s').1.effects)
                  o.rest;
        })
]

publish_lem :
    (publisher : Publisher) (id effect_id : String) (s : Store) (c : PublicationReceipt)
    → OwnIds s.effects
    → (publish publisher id effect_id s).0 ≡ ok c
    → IsPublished id effect_id s (publish publisher id effect_id s).1 c
unfolding publish
publish_lem publisher id effect_id s c own e =
    elim (Result-cases (in_block (open_effect id effect_id) s).0) [
      | inr (y, a) ↦ ground (arith, a, e)
      | inl (x, a) ↦
          let s' = (in_block (open_effect id effect_id) s).1 in
          let f : publish publisher id effect_id s ≡ finish publisher effect_id x s' =
            ground (arith, a) in
          subst (λ z. IsPublished id effect_id s z.1 c) (sym f)
            (finish_lem publisher id effect_id s s' x c own (open_lem id effect_id s x a)
              (ap (λ z. z.0) (sym f) ∙ e))
    ]

repeat_lem :
    (other : Publisher) (id effect_id : String) (s s' : Store) (c : PublicationReceipt)
    → IsPublished id effect_id s s' c
    → publish other id effect_id s' ≡ (ok c, s')
unfolding publish finish check_found
repeat_lem other id effect_id s s' c k =
    let f =
      open_again id effect_id s' k.publication k.head k.intent k.effect
        (ap (λ z. z.fuse.engaged) k.rest ∙ k.live)
        (ap (λ z. passed_head (get id z.publications)) k.rest ∙ k.passed)
        (ap (λ z. check_found k.publication k.head id effect_id z) k.rest ∙ k.fits) k.stored
        k.same in
    ground (arith, f, k.receipt)

-- Publication is idempotent. Where every stored effect stands under its own id and a publication
-- returns a receipt, this receipt is stored with the effect; the same call on the store that it has
-- left returns it again, whatever the publisher would now do, and changes nothing.
pub publish_repeat :
    (publisher other : Publisher) (id effect_id : String) (s : Store) (c : PublicationReceipt)
    → OwnIds s.effects
    → (publish publisher id effect_id s).0 ≡ ok c
    → let s' = (publish publisher id effect_id s).1 in
      ((r : PublicationEffectRecord) × (get effect_id s'.effects ≡ some r) × (r.receipt ≡ some c))
      × (publish other id effect_id s' ≡ (ok c, s'))
publish_repeat publisher other id effect_id s c own e =
    let k = publish_lem publisher id effect_id s c own e in
    (
      (k.effect, k.stored, k.receipt),
      repeat_lem other id effect_id s (publish publisher id effect_id s).1 c k,
    )
