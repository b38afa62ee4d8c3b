-- ===== src/Services/Publishing/Remote/Opening.antt =====
-- application/publication.py: the first transaction of `publish`.
use mathlib.Core.Path.{subst}
use meta_loop.Services.Publishing.{passed_head, in_block, effect_sources_of}
use meta_loop.Models.Publication.{PublicationRecord, PreparedHead}
use meta_loop.Memory.UnitOfWork.{Store}
use meta_loop.Models.Effect.{
  PublicationEffectRecord, check_effect_intent, PublicationEffectIntent, effect_intent_canonical,
  PublicationReceipt,
}
use meta_loop.Services.Publishing.Remote.{
  check_found, Opened, settled, calling, request_open, opened, open_effect,
}
use meta_loop.Memory.Effects.{
  Effects, request_effect, EffectSources, is_exact_head, has_approval, has_same_ref, effect_record,
}
use meta_loop.Base.{
  String, get, ◌≡◌, Bool, some, false, ok, string_eq, arith, ◌⊎◌, none, Option-cases, inr,
  Bool-cases, ◌==◌, inl, ◌&&◌, any, values, get-put_self, list_eq, nat_eq, Result-cases, ap, sym,
  ◌∙◌,
}

-- every effect stands under its own id
abbrev pub OwnIds : Effects → Type 0
OwnIds s = (k : String) (r : PublicationEffectRecord) → get k s ≡ some r → r.intent.effect_id ≡ k

-- what the block has found and stored
pub record IsOpened (publication_id effect_id : String) (s s' : Store) (x : Opened) : Type 0 where
  pub publication : PublicationRecord
  pub head : PreparedHead
  pub intent : PublicationEffectIntent
  pub effect : PublicationEffectRecord
  pub live : s.fuse.engaged ≡ false
  pub passed : passed_head (get publication_id s.publications) ≡ some (publication, head)
  pub fits : check_found publication head publication_id effect_id s ≡ ok intent
  pub stored : get effect_id s'.effects ≡ some effect
  pub same : effect_intent_canonical effect.intent ≡ effect_intent_canonical intent
  pub named : (effect.intent.effect_id ≡ effect_id) ⊎ (get effect_id s.effects ≡ some effect)
  pub rest : s' ≡ record s { effects = s'.effects }
  pub outcome :
      ((c : PublicationReceipt) × (x ≡ settled c) × (effect.receipt ≡ some c) × (s' ≡ s))
      ⊎ ((x ≡ calling publication.intent head effect.intent) × (effect.receipt ≡ none))

-- the record that a request returns is stored, and has the request's intent
request_ok :
    (w : EffectSources) (i : PublicationEffectIntent) (s : Effects) (r : PublicationEffectRecord)
    (b : Bool)
    → (request_effect w i s).0 ≡ ok (r, b)
    → (get i.effect_id (request_effect w i s).1 ≡ some r)
      × (effect_intent_canonical r.intent ≡ effect_intent_canonical i)
      × (((request_effect w i s).1 ≡ s) ⊎ (r.receipt ≡ none))
      × ((r.intent ≡ i) ⊎ (get i.effect_id s ≡ some r))
unfolding request_effect
request_ok w i s r b h = elim (Option-cases (get i.effect_id s)) [
  | inr (c, e) ↦ elim (Bool-cases (effect_intent_canonical c.intent == effect_intent_canonical i)) [
    | inr d ↦ ground (arith, e, d, h)
    | inl d ↦ (
      ground (arith, e, d, h),
      ground (arith, e, d, h),
      inl (ground (arith, e)),
      inr (ground (arith, e, d, h)),
    )
  ]
  | inl e ↦
      elim (Bool-cases
        (is_exact_head (get i.publication_id w.publications) i && has_approval w.approvals i)) [
          | inr d ↦ ground (arith, e, d, h)
          | inl d ↦ elim (Bool-cases (any (has_same_ref i) (values s))) [
            | inl f ↦ ground (arith, e, d, f, h)
            | inr f ↦ (
              ground (arith, e, d, f, h, get-put_self i.effect_id (effect_record i none) s),
              ground (arith, e, d, f, h),
              inr (ground (arith, e, d, f, h)),
              inl (ground (arith, e, d, f, h)),
            )
          ]
        ]
]

check_found-effect_id :
    (p : PublicationRecord) (h : PreparedHead) (id effect_id : String) (s : Store)
    (i : PublicationEffectIntent)
    → check_found p h id effect_id s ≡ ok i
    → i.effect_id ≡ effect_id
unfolding check_found check_effect_intent
check_found-effect_id p h id effect_id s i e = ground (arith, e)

request_open-lem :
    (p : PublicationRecord) (h : PreparedHead) (i : PublicationEffectIntent) (s : Store)
    (x : Opened)
    → (in_block (request_open p h i) s).0 ≡ ok x
    → (r : PublicationEffectRecord) × (get i.effect_id (in_block (request_open p h i) s).1.effects
        ≡ some r)
      × (effect_intent_canonical r.intent ≡ effect_intent_canonical i)
      × ((r.intent ≡ i) ⊎ (get i.effect_id s.effects ≡ some r))
      × ((in_block (request_open p h i) s).1
          ≡ record s { effects = (in_block (request_open p h i) s).1.effects })
      × (((c : PublicationReceipt) × (x ≡ settled c)
            × (r.receipt ≡ some c)
            × ((in_block (request_open p h i) s).1 ≡ s))
          ⊎ ((x ≡ calling p.intent h r.intent) × (r.receipt ≡ none)))
unfolding in_block request_open opened
request_open-lem p h i s x e =
    elim (Result-cases (request_effect (effect_sources_of s) i s.effects).0) [
      | inr (y, a) ↦ ground (arith, a, e)
      | inl ((r, b), a) ↦
          let k = request_ok (effect_sources_of s) i s.effects r b a in
          elim (Option-cases r.receipt) [
            | inr (c, n) ↦ (
              r,
              ground (arith, a, n, k),
              k.1,
              k.3,
              ground (arith, a, n),
              inl (c, ground (arith, a, n, e), n, ground (arith, a, n)),
            )
            | inl n ↦ (
              r,
              ground (arith, a, n, k.0),
              k.1,
              k.3,
              ground (arith, a, n),
              inr (ground (arith, a, n, e), n),
            )
          ]
    ]

named_lem :
    (i : PublicationEffectIntent) (r : PublicationEffectRecord) (effect_id : String) (s : Effects)
    → i.effect_id ≡ effect_id
    → (r.intent ≡ i) ⊎ (get i.effect_id s ≡ some r)
    → (r.intent.effect_id ≡ effect_id) ⊎ (get effect_id s ≡ some r)
named_lem i r effect_id s e (inl m) = inl (ap (λ y. y.effect_id) m ∙ e)
named_lem i r effect_id s e (inr m) = inr (subst (λ k. get k s ≡ some r) e m)

-- Where the first block returns, it has found a verified publication that may be published, and an
-- effect on its head is durable, under the id that was asked for.
pub open_lem :
    (id effect_id : String) (s : Store) (x : Opened)
    → (in_block (open_effect id effect_id) s).0 ≡ ok x
    → IsOpened id effect_id s (in_block (open_effect id effect_id) s).1 x
unfolding in_block open_effect
open_lem id effect_id s x e = elim (Bool-cases s.fuse.engaged) [
  | inl f ↦ ground (arith, f, e)
  | inr f ↦ elim (Option-cases (passed_head (get id s.publications))) [
    | inl a ↦ ground (arith, f, a, e)
    | inr ((p, h), a) ↦ elim (Result-cases (check_found p h id effect_id s)) [
      | inr (y, b) ↦ ground (arith, f, a, b, e)
      | inl (i, b) ↦
          let q : in_block (open_effect id effect_id) s ≡ in_block (request_open p h i) s =
            ground (arith, f, a, b) in
          let (r, g, c, n, w, o) = request_open-lem p h i s x (ap (λ z. z.0) (sym q) ∙ e) in
          subst (λ z. IsOpened id effect_id s z.1 x) (sym q)
            (record {
              publication = p;
              head = h;
              intent = i;
              effect = r;
              live = f;
              passed = a;
              fits = b;
              stored =
                  subst (λ k. get k (in_block (request_open p h i) s).1.effects ≡ some r)
                    (check_found-effect_id p h id effect_id s i b) g;
              same = c;
              named =
                  named_lem i r effect_id s.effects (check_found-effect_id p h id effect_id s i b)
                    n;
              rest = w;
              outcome = o;
            })
    ]
  ]
]

-- The block on an effect that is stored with the same intent returns this effect, and changes nothing.
pub open_again :
    (id effect_id : String) (s : Store) (p : PublicationRecord) (h : PreparedHead)
    (i : PublicationEffectIntent) (r : PublicationEffectRecord)
    → s.fuse.engaged ≡ false
    → passed_head (get id s.publications) ≡ some (p, h)
    → check_found p h id effect_id s ≡ ok i
    → get effect_id s.effects ≡ some r
    → effect_intent_canonical r.intent ≡ effect_intent_canonical i
    → in_block (open_effect id effect_id) s
      ≡ (ok (elim r.receipt [ some c ↦ settled c | none ↦ calling p.intent h r.intent ]), s)
unfolding in_block open_effect request_open request_effect opened
open_again id effect_id s p h i r f a b g c =
    let k : get i.effect_id s.effects ≡ some r =
      subst (λ z. get z s.effects ≡ some r) (sym (check_found-effect_id p h id effect_id s i b))
        g in
    elim (Option-cases r.receipt) [
      | inl n ↦ ground (arith, f, a, b, k, c, n)
      | inr (x, n) ↦ ground (arith, f, a, b, k, c, n)
    ]
