-- ===== src/Lock/Sequences.antt =====
-- Sequences of locks and unlocks of common/gralloc_gbm.c on one managed buffer.
use gralloc_gbm.Base.{
  ℕ, ◌≡◌, ap, sym, ◌∙◌, true, Option, none, some, arith, Bool-cases, inl, inr, subst,
}
use gralloc_gbm.Base.Bits.{has}
use gralloc_gbm.Machine.{Ptr, Status, ok, einval, Outcome, Fault, done}
use gralloc_gbm.Machine.Runs.{no_return}
use gralloc_gbm.Platform.{Platform, Buffer}
use gralloc_gbm.Platform.Laws.{KeepsUserData, MapsWhole}
use gralloc_gbm.State.{State, BoData}
use gralloc_gbm.Handle.{Handle}
use gralloc_gbm.BoData.Steps.{Changes}
use gralloc_gbm.Lock.{sw_mask, gralloc_gbm_android_buffer_lock, gralloc_gbm_android_buffer_unlock}
use gralloc_gbm.Lock.Count.{
  lock_data, unlock_data, IsConsistent, lock_data-IsConsistent, lock_data-refused,
  lock_fault-refused, unlock-lock_data,
}
use gralloc_gbm.Lock.Run.{answer, mapped_stride, Runs, LockEnds}
use gralloc_gbm.Lock.Calls.{
  managed_after, Manages, passes, guarded, guarded_fault, gralloc_gbm_android_buffer_lock-LockEnds,
  gralloc_gbm_android_buffer_unlock-Runs,
}

-- A lock that returns does so as it says.
pub returned-Runs :
    {W T R : Type 0} {p : Platform W T} {s : State W T} {d : Ptr} {o : Outcome (R × State W T)}
    (e : Option Fault) (r : R × BoData) {a : R} {t : State W T}
    → LockEnds p s d o e r
    → o ≡ done (a, t)
    → Runs p s d o r.0 r.1
returned-Runs none r ends run = ends
returned-Runs (some e) r ends run = no_return ends run

module _ {W T : Type 0} (p : Platform W T) (keeps : KeepsUserData p) (maps : MapsWhole p)
    (s : State W T) (h : Handle) (b : Buffer) (d : Ptr) (x : BoData) (m : Manages p s h b d x) where
  module _ (v : IsConsistent x) where
    pub guarded-IsConsistent : (usage : ℕ) → IsConsistent (guarded p s h b x usage).1
    guarded-IsConsistent usage = elim (Bool-cases (passes h usage)) [
      | inr refused ↦ rw refused v
      | inl allowed ↦ rw allowed (
          lock_data-IsConsistent x usage _ v
            (record { failed = maps.failed s.world b.bo _ _; mapped = maps.made s.world b.bo _ _ }))
    ]

    guarded-refused :
        (usage : ℕ)
        → has x.locked_for sw_mask ≡ true
        → guarded p s h b x usage ≡ ((einval, none), x)
    guarded-refused usage cpu =
        ground (arith, lock_data-refused x usage (answer p s b.bo x usage) v cpu)

    fault-refused :
        (usage : ℕ) → has x.locked_for sw_mask ≡ true → guarded_fault p s h b x usage ≡ none
    fault-refused usage cpu = ground (
      arith,
      lock_fault-refused x usage (answer p s b.bo x usage) v (mapped_stride p s b.bo x usage) cpu,
    )

    -- Locking a managed buffer that is locked for the CPU, for whatever usage, returns `-EINVAL` and
    -- leaves its data, and all else that the library keeps, as it is.
    pub lock_again :
        (usage : ℕ)
        → has x.locked_for sw_mask ≡ true
        → Runs p s d (gralloc_gbm_android_buffer_lock p h usage s) (einval, none) x
    lock_again usage cpu =
        let (t, run, c) =
          subst
            (λ e.
              LockEnds p s d (gralloc_gbm_android_buffer_lock p h usage s) e
                (guarded p s h b x usage))
            (fault-refused usage cpu)
            (gralloc_gbm_android_buffer_lock-LockEnds p keeps s h b d x m usage) in
        let e = guarded-refused usage cpu in
        (
          t,
          run ∙ ap (λ (r : (Status × Option Ptr) × BoData). done (r.0, t)) e,
          subst (λ (r : (Status × Option Ptr) × BoData). Changes p s d r.1 t) e c,
        )

    granted :
        (usage : ℕ)
        → (guarded p s h b x usage).0.0 ≡ ok
        → guarded p s h b x usage ≡ lock_data x usage (answer p s b.bo x usage)
    granted usage e = ground arith

    restores :
        (usage : ℕ)
        → x.lock_count ≡ 0
        → (guarded p s h b x usage).0.0 ≡ ok
        → unlock_data (guarded p s h b x usage).1 ≡ x
    restores usage free e =
        let g = granted usage e in
        ap (λ (r : (Status × Option Ptr) × BoData). unlock_data r.1) g
        ∙ unlock-lock_data x usage _ v free
            (ap (λ (r : (Status × Option Ptr) × BoData). r.0.0) (sym g) ∙ e)

    -- After a lock that an unlocked managed buffer is granted, the unlock returns 0 and gives the
    -- buffer the data that it had before the lock.
    pub unlock-lock :
        (usage : ℕ) (out : Option Ptr) (t : State W T)
        → x.lock_count ≡ 0
        → gralloc_gbm_android_buffer_lock p h usage s ≡ done ((ok, out), t)
        → Runs p t d (gralloc_gbm_android_buffer_unlock p h t) ok x
    unlock-lock usage out t free run =
        let (t', e, c) =
          returned-Runs (guarded_fault p s h b x usage) (guarded p s h b x usage)
            (gralloc_gbm_android_buffer_lock-LockEnds p keeps s h b d x m usage) run in
        let same : done ((guarded p s h b x usage).0, t') ≡ done ((ok, out), t) = sym e ∙ run in
        let state : t' ≡ t = ground (arith, same) in
        let status : (guarded p s h b x usage).0.0 ≡ ok = ground (arith, same) in
        let managed : Manages p t h b d (guarded p s h b x usage).1 =
          subst (λ (u : State W T). Manages p u h b d (guarded p s h b x usage).1) state
            (managed_after m c) in
        subst (Runs p t d (gralloc_gbm_android_buffer_unlock p h t) ok) (restores usage free status)
          (gralloc_gbm_android_buffer_unlock-Runs p keeps t h b d _ managed)
