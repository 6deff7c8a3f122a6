-- ===== src/Mapper/Tracked/Steps.antt =====
-- Sequences of calls of mapper_stablec/backend/MapperDmaBuf.cpp, as a step relation on its state.
use gralloc_gbm.Base.{
  ℕ, Bool, ◌≡◌, ◌≢◌, ◌∙◌, sym, refl, subst, true, false, none, some, Option, arith, ◌==◌, ◌||◌,
  Bool-cases, Option-cases, inl, inr, ne_of_==,
}
use gralloc_gbm.Machine.{Ptr, null, null_deref, Fault, Outcome, done, fault}
use gralloc_gbm.Handle.{Handle}
use gralloc_gbm.Mapper.Standard.{StandardMetadataType, Answer}
use gralloc_gbm.Mapper.DmaBuf.{
  DmaStatus, invalid, DmaSystem, DmaState, free_buffer, buffer_info_create, import_buffer,
  lock_buffer, unlock_buffer, mapper_dma_init,
}
use gralloc_gbm.Mapper.Blobs.{blob_query_metadata}
use gralloc_gbm.Mapper.Imported.{free_buffer_faults}
use gralloc_gbm.Mapper.Tracked.{TracksAll, KeepsTrack, missing_lem}
use gralloc_gbm.Mapper.Tracked.Kept.{
  import-KeepsTrack, lock-KeepsTrack, unlock-KeepsTrack, query-KeepsTrack,
}

module _ {V : Type 0} (v : DmaSystem V) where
  -- A call of the backend from `s` that returns in `t`.
  pub data DmaStep : DmaState V → DmaState V → Type 0 where
    starting : {s t : DmaState V} (r : DmaStatus) → mapper_dma_init v s ≡ done (r, t) → DmaStep s t
    importing :
        {s t : DmaState V} (h : Handle) (r : DmaStatus)
        → import_buffer v h s ≡ done (r, t)
        → DmaStep s t
    freeing :
        {s t : DmaState V} (h : Handle) (r : DmaStatus)
        → free_buffer h s ≡ done (r, t)
        → DmaStep s t
    locking :
        {s t : DmaState V} (h : Handle) (usage : ℕ) (r : DmaStatus × Option Ptr)
        → lock_buffer v h usage s ≡ done (r, t)
        → DmaStep s t
    unlocking :
        {s t : DmaState V} (h : Handle) (r : DmaStatus)
        → unlock_buffer v h s ≡ done (r, t)
        → DmaStep s t
    querying :
        {s t : DmaState V} (h : Handle) (k : StandardMetadataType) (r : Answer)
        → blob_query_metadata h k s ≡ done (r, t)
        → DmaStep s t

  -- Any number of calls that return.
  pub data DmaReach : DmaState V → DmaState V → Type 0 where
    here : {s : DmaState V} → DmaReach s s
    after : {s t u : DmaState V} → DmaReach s t → DmaStep t u → DmaReach s u

-- A backend that is initialised and has imported nothing.
pub record IsDmaStart {V : Type 0} (s : DmaState V) : Type 0 where
  pub allocator : s.has_allocator ≡ true
  pub empty : (fd : ℕ) → s.imported_buffer_table fd ≡ none

module _ {V R : Type 0} where
  ends :
      {o : Outcome (R × DmaState V)} {r : R} {t : DmaState V}
      → o ≡ done (r, t)
      → KeepsTrack o
      → TracksAll t
  ends {o} {r} {t} e (r', t', e', h) =
      let same : done (r', t') ≡ done (r, t) = sym e' ∙ e in
      let state : t' ≡ t = ground (arith, same) in subst TracksAll state h

  -- A run that faults does not return.
  faulted :
      {o : Outcome (R × DmaState V)} {x : Fault} {r : R} {t : DmaState V}
      → o ≡ fault x
      → o ≡ done (r, t)
      → KeepsTrack o
  faulted {o} {x} {r} {t} e e' =
      let clash : ◌≡◌ {A = Outcome (R × DmaState V)} (fault x) (done (r, t)) = sym e ∙ e' in cc

module _ {V : Type 0} (v : DmaSystem V) where
  no_memory :
      (s : DmaState V) (h : Handle)
      → (v.calloc_fails s.next || (s.next == null)) ≡ true
      → import_buffer v h s ≡ fault null_deref
  unfolding import_buffer buffer_info_create
  no_memory s h e = rw e refl

  init-KeepsTrack : (s : DmaState V) → TracksAll s → KeepsTrack (mapper_dma_init v s)
  unfolding mapper_dma_init
  init-KeepsTrack s a = (
    _,
    _,
    refl,
    record {
      allocator = refl;
      entry = λ fd bi e.
          let q = a.entry fd bi e in
          record {
            info = q.info;
            holds = q.holds;
            bi_ne = q.bi_ne;
            before = q.before;
            about = q.about;
          };
    },
  )

  unknown_lem :
      (s : DmaState V) (h : Handle)
      → s.imported_buffer_table h.prime_fd ≡ none
      → free_buffer h s ≡ done (invalid, s)
  unfolding free_buffer
  unknown_lem s h gone = rw (missing_lem s h.prime_fd gone) refl

  room_lem : (fails : Bool) (n : ℕ) → (fails || (n == null)) ≡ false → (fails ≡ false) × (n ≢ null)
  room_lem true n e = cc
  room_lem false n e = (refl, ne_of_== n null e)

  pub step-TracksAll : {s t : DmaState V} → TracksAll s → DmaStep v s t → TracksAll t
  step-TracksAll {s} a (starting r e) = ends e (init-KeepsTrack s a)
  step-TracksAll {s} a (importing h r e) =
      elim (Bool-cases (v.calloc_fails s.next || (s.next == null))) [
        | inl short ↦ ends e (faulted (no_memory s h short) e)
        | inr memory ↦
            let (room, ne) = room_lem (v.calloc_fails s.next) s.next memory in
            ends e (import-KeepsTrack v h s a room ne)
      ]
  step-TracksAll {s} {t} a (freeing h r e) =
      elim (Option-cases (s.imported_buffer_table h.prime_fd)) [
        | inl gone ↦ ends e (_, s, unknown_lem s h gone, a)
        | inr (bi, at) ↦
            let q = a.entry h.prime_fd bi at in
            ends e (
              faulted
                (free_buffer_faults s h bi q.info
                  (record { entry = at; bi_ne = q.bi_ne; info = q.holds }))
                e)
      ]
  step-TracksAll {s} a (locking h usage r e) = ends e (lock-KeepsTrack v h s a usage)
  step-TracksAll {s} a (unlocking h r e) = ends e (unlock-KeepsTrack v h s a)
  step-TracksAll {s} a (querying h k r e) = ends e (query-KeepsTrack v h s a k)

  Reach-TracksAll : {s t : DmaState V} → TracksAll s → DmaReach v s t → TracksAll t
  Reach-TracksAll a here = a
  Reach-TracksAll a (after r e) = step-TracksAll (Reach-TracksAll a r) e

  start-TracksAll : (s : DmaState V) → IsDmaStart s → TracksAll s
  start-TracksAll s i = record {
    allocator = i.allocator;
    entry = λ fd bi e. let clash : none ≡ some bi = sym (i.empty fd) ∙ e in cc;
  }

  -- After any sequence of calls that return, from an initialised backend that has imported nothing,
  -- every descriptor in the table leads to live information about that descriptor. From there every
  -- lock, unlock and query of any handle returns, in a state of which the same holds.
  pub reachable-TracksAll :
      (s t : DmaState V)
      → IsDmaStart s
      → DmaReach v s t
      → TracksAll t
        × ((h : Handle) (usage : ℕ) → KeepsTrack (lock_buffer v h usage t))
        × ((h : Handle) → KeepsTrack (unlock_buffer v h t))
        × ((h : Handle) (k : StandardMetadataType) → KeepsTrack (blob_query_metadata h k t))
  reachable-TracksAll s t start calls =
      let a = Reach-TracksAll (start-TracksAll s start) calls in
      (
        a,
        λ h usage. lock-KeepsTrack v h t a usage,
        λ h. unlock-KeepsTrack v h t a,
        λ h k. query-KeepsTrack v h t a k,
      )
