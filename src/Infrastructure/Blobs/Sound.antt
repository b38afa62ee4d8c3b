-- ===== src/Infrastructure/Blobs/Sound.antt =====
-- infrastructure/cas.py: what is put is read back.
use mathlib.Core.Path.{subst}
use meta_loop.Domain.Artifacts.{ArtifactDigest, new_digest}
use meta_loop.Infrastructure.Blobs.{Files, place, put_blob, joined, read_blob, is_unexpected}
use meta_loop.Base.{
  String, List, ℕ, ◌≡◌, ok, some, none, get, get-put_self, Each, Each-get, Each-put, Option,
  Option-cases, Bool-cases, Result-cases, inl, inr, arith, true, length, sym, ◌∙◌, refl, string_eq,
  put,
}

module _ (sha256 : List ℕ → String) where
  -- every file has the name of its content's digest
  abbrev pub IsSound : Files → Type 0
  IsSound = Each (λ name value. sha256 value ≡ name)

  place-IsSound : (value : List ℕ) (s : Files) → IsSound s → IsSound (place (sha256 value) value s)
  unfolding place
  place-IsSound value s h = elim (Option-cases (get (sha256 value) s)) [
    | inl a ↦
        let e : put (sha256 value) value s ≡ place (sha256 value) value s = ground (arith, a) in
        subst IsSound e (Each-put (λ name v. sha256 v ≡ name) (sha256 value) value s h refl)
    | inr (x, a) ↦ let e : s ≡ place (sha256 value) value s = ground (arith, a) in subst IsSound e h
  ]

  place-get :
      (d : String) (value : List ℕ) (s : Files)
      → (v : List ℕ) × (get d (place d value s) ≡ some v) × (get d s ≡ none → v ≡ value)
  unfolding place
  place-get d value s = elim (Option-cases (get d s)) [
    | inl a ↦ (value, ground (arith, a, get-put_self d value s), (λ _. refl))
    | inr (x, a) ↦ (x, ground (arith, a), (λ n. ground (arith, n, a)))
  ]

  read_blob_ok :
      (d : String) (u : ArtifactDigest) (v : List ℕ) (s : Files)
      → new_digest d ≡ ok u
      → get d s ≡ some v
      → sha256 v ≡ d
      → read_blob sha256 d true s ≡ (ok v, s)
  unfolding read_blob
  read_blob_ok d u v s a b c = ground (arith, a, b, c)

  put_blob_ok :
      (chunks : List (List ℕ)) (expected : Option String) (s : Files) (digest : String) (size : ℕ)
      → (put_blob sha256 chunks expected s).0 ≡ ok (digest, size)
      → (sha256 (joined chunks) ≡ digest)
        × (length (joined chunks) ≡ size)
        × ((u : ArtifactDigest) × (new_digest (sha256 (joined chunks)) ≡ ok u))
        × ((put_blob sha256 chunks expected s).1 ≡ place (sha256 (joined chunks)) (joined chunks) s)
  unfolding put_blob
  put_blob_ok chunks expected s digest size e =
      elim (Bool-cases (is_unexpected expected (sha256 (joined chunks)))) [
        | inl a ↦ ground (arith, a, e)
        | inr a ↦ elim (Result-cases (new_digest (sha256 (joined chunks)))) [
          | inr (y, b) ↦ ground (arith, a, b, e)
          | inl (u, b) ↦
              (ground (arith, a, b, e), ground (arith, a, b, e), (u, b), ground (arith, a, b, e))
        ]
      ]

  -- What a sound store has been given is read back: where `put` returns, the store is still sound, the
  -- digest and the size are those of the chunks' bytes, and a verified reading of the digest returns
  -- a content with this digest, which is these bytes if the store had none with it.
  pub put_blob-read_blob :
      (chunks : List (List ℕ)) (expected : Option String) (s : Files) (digest : String) (size : ℕ)
      → IsSound s
      → (put_blob sha256 chunks expected s).0 ≡ ok (digest, size)
      → let s' = (put_blob sha256 chunks expected s).1 in
        IsSound s'
        × (digest ≡ sha256 (joined chunks))
        × (size ≡ length (joined chunks))
        × ((value : List ℕ) × (read_blob sha256 digest true s' ≡ (ok value, s'))
            × (sha256 value ≡ digest)
            × (get digest s ≡ none → value ≡ joined chunks))
  put_blob-read_blob chunks expected s digest size h e =
      let d = sha256 (joined chunks) in
      let (p, q, (u, a), f) = put_blob_ok chunks expected s digest size e in
      let k = place-IsSound (joined chunks) s h in
      let (v, g, n) = place-get d (joined chunks) s in
      let c = Each-get (λ name w. sha256 w ≡ name) d (place d (joined chunks) s) k g in
      let r = read_blob_ok d u v (place d (joined chunks) s) a g c in
      (
        subst IsSound (sym f) k,
        sym p,
        sym q,
        (
          v,
          subst
              (λ z.
                read_blob sha256 z true (put_blob sha256 chunks expected s).1
                ≡ (ok v, (put_blob sha256 chunks expected s).1))
              p (subst (λ z. read_blob sha256 d true z ≡ (ok v, z)) (sym f) r),
          c ∙ p,
          (λ z. n (subst (λ y. get y s ≡ none) (sym p) z)),
        ),
      )
