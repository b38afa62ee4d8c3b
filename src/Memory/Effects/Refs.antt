-- ===== src/Memory/Effects/Refs.antt =====
-- infrastructure/memory.py: each publication and ref has one effect, with one receipt.
use mathlib.Core.Path.{subst}
use meta_loop.Memory.Effects.Exact.{request_effect-cases, TakesRef-any}
use meta_loop.Models.Publication.{PublicationRecord, PreparedHead}
use meta_loop.Models.Effect.{
  PublicationReceipt, check_effect_record, PublicationEffectRecord, PublicationEffectIntent,
  PullRequestReceipt, effect_state_eq,
}
use meta_loop.Base.{
  get, String, any, ◌≡◌, values, Option, true, ◌⊎◌, some, false, string_eq, Option-cases, none, put,
  inl, arith, inr, get-put, sym, Result-cases, Bool-cases, ◌!=◌, ◌||◌, ◌∷◌, [],
}
use meta_loop.Memory.Effects.{
  EffectSources, is_exact_receipt, settle, reconcile, Effects, has_same_ref, effect_of,
  request_effect, effect_record, reconciled,
}

-- a receipt is about the head of a stored publication
abbrev pub IsReceiptOfHead : EffectSources → PublicationReceipt → Type 0
IsReceiptOfHead w c =
    (r : PublicationRecord) × (h : PreparedHead) × (p : PullRequestReceipt) × (get c.publication_id
        w.publications
      ≡ some r)
    × (r.prepared_head ≡ some h)
    × (c.pull_request ≡ some p)
    × (p.head_sha ≡ h.head_sha)
    × (p.tree_sha ≡ h.tree_sha)
    × (p.base_sha ≡ r.intent.base_sha)

is_exact_receipt-IsReceiptOfHead :
    (w : EffectSources) (c : PublicationReceipt)
    → is_exact_receipt (get c.publication_id w.publications) c ≡ true
    → IsReceiptOfHead w c
unfolding is_exact_receipt
is_exact_receipt-IsReceiptOfHead w c g = elim (Option-cases (get c.publication_id w.publications)) [
  | inl e ↦ ground (arith, e, g)
  | inr (r, e) ↦ elim (Option-cases r.prepared_head) [
    | inl n ↦ ground (arith, e, n, g)
    | inr (h, n) ↦ elim (Option-cases c.pull_request) [
      | inl m ↦ ground (arith, e, n, m, g)
      | inr (p, m) ↦ (r, h, p, e, n, m, ground arith, ground arith, ground arith)
    ]
  ]
]

settle-cases :
    (o : PublicationEffectRecord) (c : PublicationReceipt) (s : Effects)
    → ((settle o.receipt o c s).1 ≡ s)
      ⊎ ((o.receipt ≡ none)
          × ((settle o.receipt o c s).1 ≡ put c.effect_id (effect_record o.intent (some c)) s))
unfolding settle check_effect_record
settle-cases o c s = elim (Option-cases o.receipt) [
  | inr (x, e) ↦ inl (ground arith)
  | inl e ↦ elim (Result-cases (check_effect_record (effect_record o.intent (some c)))) [
    | inr (x, f) ↦ inl (ground arith)
    | inl (x, f) ↦ inr (e, ground arith)
  ]
]

-- A receipt changes nothing, or it is added to its effect. It is added only if the effect is stored
-- without a receipt and is of the same publication, and the receipt's pull request has the head and
-- the tree of the stored publication's prepared head and the base of its intent.
pub reconcile-cases :
    (w : EffectSources) (c : PublicationReceipt) (s : Effects)
    → ((reconcile w c s).1 ≡ s)
      ⊎ ((o : PublicationEffectRecord) × (get c.effect_id s ≡ some o)
          × (o.receipt ≡ none)
          × (o.intent.publication_id ≡ c.publication_id)
          × IsReceiptOfHead w c
          × ((reconcile w c s).1 ≡ put c.effect_id (effect_record o.intent (some c)) s))
unfolding reconcile effect_of
reconcile-cases w c s = elim (Option-cases (get c.effect_id s)) [
  | inl e ↦ inl (ground arith)
  | inr (o, e) ↦ elim (settle-cases o c s) [
    | inl q ↦ inl (ground arith)
    | inr (n, q) ↦
        elim (Bool-cases (o.intent.publication_id != c.publication_id || c.state != reconciled)) [
          | inl b ↦ inl (ground arith)
          | inr b ↦ elim (Bool-cases (is_exact_receipt (get c.publication_id w.publications) c)) [
            | inr d ↦ inl (ground arith)
            | inl d ↦
                inr (o, e, n, ground arith, is_exact_receipt-IsReceiptOfHead w c d, ground arith)
          ]
        ]
  ]
]

-- two stored effects of one publication and ref are the same one
abbrev pub HasOwnRefs : Effects → Type 0
HasOwnRefs s =
    (k j : String) (r q : PublicationEffectRecord)
    → get k s ≡ some r
    → get j s ≡ some q
    → r.intent.publication_id ≡ q.intent.publication_id
    → r.intent.deterministic_ref ≡ q.intent.deterministic_ref
    → k ≡ j

any-get :
    (i : PublicationEffectIntent) (k : String) (r : PublicationEffectRecord) (s : Effects)
    → any (has_same_ref i) (values s) ≡ false
    → get k s ≡ some r
    → has_same_ref i r ≡ false
unfolding get
any-get i k r [] h g = cc
any-get i k r ((j, q) ∷ s) h g = ground (arith, any-get i k r s)

new-HasOwnRefs :
    (i : PublicationEffectIntent) (s : Effects)
    → HasOwnRefs s
    → any (has_same_ref i) (values s) ≡ false
    → HasOwnRefs (put i.effect_id (effect_record i none) s)
unfolding has_same_ref
new-HasOwnRefs i s h a k j r q f g p d = ground (
  arith,
  h k j r q,
  any-get i k r s a,
  any-get i j q s a,
  get-put i.effect_id k (effect_record i none) s,
  get-put i.effect_id j (effect_record i none) s,
)

settled-HasOwnRefs :
    (k0 : String) (o : PublicationEffectRecord) (c : Option PublicationReceipt) (s : Effects)
    → HasOwnRefs s
    → get k0 s ≡ some o
    → HasOwnRefs (put k0 (effect_record o.intent c) s)
settled-HasOwnRefs k0 o c s h e k j r q f g p d = ground (
  arith,
  h k j r q,
  h k j r o,
  h k j o q,
  h k j o o,
  get-put k0 k (effect_record o.intent c) s,
  get-put k0 j (effect_record o.intent c) s,
)

-- Effects are exclusive: if each publication and ref has at most one effect, this still holds after
-- every request and every receipt.
pub calls-HasOwnRefs :
    (w : EffectSources) (i : PublicationEffectIntent) (c : PublicationReceipt) (s : Effects)
    → HasOwnRefs s
    → HasOwnRefs (request_effect w i s).1 × HasOwnRefs (reconcile w c s).1
calls-HasOwnRefs w i c s h = (
  elim (request_effect-cases w i s) [
    | inl e ↦ subst HasOwnRefs (sym e) h
    | inr (_, _, a, e) ↦
        subst HasOwnRefs (sym e) (new-HasOwnRefs i s h (TakesRef-any i (values s) a))
  ],
  elim (reconcile-cases w c s) [
    | inl e ↦ subst HasOwnRefs (sym e) h
    | inr (o, g, _, _, _, e) ↦
        subst HasOwnRefs (sym e) (settled-HasOwnRefs c.effect_id o (some c) s h g)
  ],
)
