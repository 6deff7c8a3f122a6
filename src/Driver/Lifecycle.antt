-- ===== src/Driver/Lifecycle.antt =====
-- The life of the driver: bringing it up, and what is left behind when it is gone.
use gralloc_gbm.Base.{
  ℕ, true, ◌==◌, if◌then◌else◌, ◌≡◌, refl, ◌⊎◌, inl, inr, arith, Bool-cases, sym, ◌∙◌,
}
use mathlib.Core.Path.{subst₂}
use gralloc_gbm.Machine.{
  null, Status, ok, einval, enodev, enomem, use_after_free, Outcome, pure, ◌>>=◌, ◌>>◌, done, fault,
}
use gralloc_gbm.Word.{is_negative}
use gralloc_gbm.Platform.{Platform}
use gralloc_gbm.State.{State, Driver, no_driver, live, dangling, outside}
use gralloc_gbm.Driver.{
  is_gralloc_gbm_ready, gralloc_gbm_init, gralloc_gbm_deinit, open_device, set_driver,
}

-- The four ways in which `gralloc_gbm_init` ends when there is no driver yet, each with what the
-- driver pointer is afterwards.
pub data InitEnds {W T : Type 0} : Status → State W T → Type 0 where
  initialised : {s : State W T} (d : Driver) → s.driver ≡ live d → d.ready ≡ true → InitEnds ok s
  no_memory_left : {s : State W T} → s.driver ≡ no_driver → InitEnds enomem s
  no_node : {s : State W T} → s.driver ≡ dangling → InitEnds enodev s
  no_device : {s : State W T} → s.driver ≡ dangling → InitEnds einval s

-- A run returns, and its result and state are such an end.
abbrev pub Ends : {W T : Type 0} → Outcome (Status × State W T) → Type 0
Ends {W} {T} o = (r : Status) × (t : State W T) × (o ≡ done (r, t)) × InitEnds r t

module _ {W T : Type 0} (p : Platform W T) where
  pub uninit : (t : State W T) → t.driver ≡ dangling → gralloc_gbm_init p t ≡ fault use_after_free
  unfolding gralloc_gbm_init
  uninit t e = ground arith

  open_device-Ends : (fd : ℕ) (s : State W T) → Ends (open_device p fd s)
  unfolding open_device
  open_device-Ends fd s = elim (Bool-cases ((p.create_device s.world fd).0 == null)) [
    | inl failed ↦ rw failed (einval, _, refl, no_device refl)
    | inr made ↦ rw made (ok, _, refl, initialised _ refl refl)
  ]

  open_node-Ends :
      (s : State W T)
      → Ends (
          (outside p.open_render_node >>= λ fd.
          if is_negative fd then (set_driver dangling >> pure enodev) else open_device p fd)
            s)
  open_node-Ends s = elim (Bool-cases (is_negative (p.open_render_node s.world).0)) [
    | inl failed ↦ rw failed (enodev, _, refl, no_node refl)
    | inr opened ↦ rw opened (open_device-Ends _ _)
  ]

  -- With no driver yet, `gralloc_gbm_init` always returns, and leaves a ready driver exactly with
  -- the result 0: out of memory there is no driver, and after a failed `open` or
  -- `gbm_create_device` the pointer to the freed driver stays behind.
  pub gralloc_gbm_init-Ends : (s : State W T) → s.driver ≡ no_driver → Ends (gralloc_gbm_init p s)
  unfolding gralloc_gbm_init
  gralloc_gbm_init-Ends s none_yet = rw none_yet (elim (Bool-cases (p.no_memory s.next)) [
    | inl full ↦ rw full (enomem, _, refl, no_memory_left refl)
    | inr room ↦ rw room (elim (Bool-cases (s.next == null)) [
      | inl zero_address ↦ rw zero_address (enomem, _, refl, no_memory_left refl)
      | inr object ↦ rw object (open_node-Ends _)
    ])
  ])

  -- Calling `gralloc_gbm_init` again after it failed for want of a node or of a device reads the
  -- freed driver.
  pub gralloc_gbm_init_retry :
      (s t : State W T) (r : Status)
      → s.driver ≡ no_driver
      → gralloc_gbm_init p s ≡ done (r, t)
      → (r ≡ enodev) ⊎ (r ≡ einval)
      → gralloc_gbm_init p t ≡ fault use_after_free
  gralloc_gbm_init_retry s t r none_yet run failed =
      let (r', t', run', ends) = gralloc_gbm_init-Ends s none_yet in
      let same : done (r', t') ≡ done (r, t) = sym run' ∙ run in
      after (subst₂ InitEnds (ground (arith, same)) (ground (arith, same)) ends) failed
    where
      after :
          {r : Status} {t : State W T}
          → InitEnds r t
          → (r ≡ enodev) ⊎ (r ≡ einval)
          → gralloc_gbm_init p t ≡ fault use_after_free
      after (initialised d e h) f = ground arith
      after (no_memory_left e) f = ground arith
      after (no_node e) f = uninit _ e
      after (no_device e) f = uninit _ e

  -- `gralloc_gbm_deinit` destroys a driver and leaves the pointer to it behind: every later test
  -- whether the driver is ready reads the freed driver.
  pub gralloc_gbm_deinit_dangling :
      (s : State W T) (d : Driver)
      → s.driver ≡ live d
      → (gralloc_gbm_deinit p >>= λ _. is_gralloc_gbm_ready) s ≡ fault use_after_free
  unfolding gralloc_gbm_deinit is_gralloc_gbm_ready
  gralloc_gbm_deinit_dangling s d e = ground arith
