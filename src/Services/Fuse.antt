-- ===== src/Services/Fuse.antt =====
-- application/services.py: the release of the fuse.
use meta_loop.Services.Ports.{Governance, is_authorized}
use meta_loop.Memory.UnitOfWork.{Store}
use meta_loop.Memory.Ledgers.{set_fuse, append_control}
use meta_loop.Base.{
  String, ◌≡◌, Option, true, false, ◌↔◌, arith, inl, inr, Bool-cases, string_eq, refl,
}
use meta_loop.Base.Clock.{Time}
use meta_loop.Services.Intake.{release}

-- A release disengages an engaged fuse exactly where governance authorises it for the given
-- revision.
pub release_iff :
    (now : Time) (g : Option Governance) (revision : Option String) (s : Store)
    → s.fuse.engaged ≡ true
    → ((release now g revision s).1.fuse.engaged ≡ false)
      ↔ (is_authorized g revision "fuse_release" ≡ true)
unfolding release set_fuse append_control
release_iff now g revision s h = elim (Bool-cases (is_authorized g revision "fuse_release")) [
  | inl e ↦ (λ _. e, λ _. rw (e, release) refl)
  | inr e ↦ (λ k. ground (arith, e, h, k), λ k. cc)
]
