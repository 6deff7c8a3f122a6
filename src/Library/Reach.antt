-- ===== src/Library/Reach.antt =====
-- What holds after any sequence of calls of common/gralloc_gbm.c.
use gralloc_gbm.Base.{ℕ, ◌≡◌, refl, ◌∙◌, sym, Option, none, false, ap, [], ◌⊎◌, inl, inr}
use gralloc_gbm.Machine.{
  Ptr, Status, ok, einval, use_after_free, null_deref, assertion_failed, signed_overflow, Outcome,
  done, fault,
}
use gralloc_gbm.Machine.Runs.{same_end, no_return}
use gralloc_gbm.Flags.{Config}
use gralloc_gbm.Format.Depth.{HasDepth}
use gralloc_gbm.Platform.{Platform}
use gralloc_gbm.Platform.Laws.{KeepsUserData, MapsWhole, MakesNewObjects}
use gralloc_gbm.State.{State, Driver, no_driver, live, dangling}
use gralloc_gbm.Handle.{Handle}
use gralloc_gbm.Driver.{gralloc_gbm_init, gralloc_gbm_deinit}
use gralloc_gbm.Driver.Lifecycle.{uninit}
use gralloc_gbm.Table.Entries.{IsHash, lookup}
use gralloc_gbm.Table.Map.{BufferMap}
use gralloc_gbm.Lock.{gralloc_gbm_android_buffer_lock, gralloc_gbm_android_buffer_unlock}
use gralloc_gbm.Buffer.{
  gralloc_gbm_android_buffer_import, gralloc_gbm_android_buffer_free,
  gralloc_gbm_android_buffer_query,
}
use gralloc_gbm.Buffer.Made.{is_ready_lem}
use gralloc_gbm.Buffer.Unready.{unready, unusable}
use gralloc_gbm.Library.{IsSound}
use gralloc_gbm.Library.Start.{
  IsUnopened, IsBroken, HasPhase, unopened, opened, broken, init-Opens, no_driver_lem,
  freed_driver_lem,
}
use gralloc_gbm.Library.Locked.{
  StaysSound, LockSafely, stays, asserts, overflows, lock-LockSafely, unlock-StaysSound,
  query-StaysSound, missing_unlock, missing_query,
}
use gralloc_gbm.Library.Queried.{query-IsSound}
use gralloc_gbm.Library.Creations.{creation-IsSound}
use gralloc_gbm.Library.Imports.{import-StaysSound, import-Ends}
use gralloc_gbm.Library.Drivers.{unlock-KeepsDriver, query-KeepsDriver}
use gralloc_gbm.Library.Freed.{free-IsSound}
use gralloc_gbm.Library.Steps.{
  Step, initialising, deinitialising, creation, importing, freeing, locking, unlocking, querying,
  Reach, here, after,
}

-- The run returns.
abbrev pub Returns : {W T R : Type 0} → Outcome (R × State W T) → Type 0
Returns {W} {T} {R} o = (r : R) × (t : State W T) × (o ≡ done (r, t))

module _ {W T R : Type 0} where
  returned :
      {p : Platform W T} {f : BufferMap} {o : Outcome (R × State W T)}
      → StaysSound p f o
      → Returns o
  returned (a, u, e, w) = (a, u, e)

module _ {W T : Type 0} (c : Config) (p : Platform W T) (hash : IsHash p) where
  nothing_found :
      (s : State W T) → p.hash_iter s.table ≡ [] → (k : ℕ) → p.hash_find s.table k ≡ none
  unfolding lookup
  nothing_found s empty k = hash.find s.table k (rw empty tt) ∙ ap (lookup k) empty

  no_deinit : (s : State W T) → s.driver ≡ no_driver → gralloc_gbm_deinit p s ≡ fault null_deref
  unfolding gralloc_gbm_deinit
  no_deinit s e = rw e refl

  freed_deinit :
      (s : State W T) → s.driver ≡ dangling → gralloc_gbm_deinit p s ≡ fault use_after_free
  unfolding gralloc_gbm_deinit
  freed_deinit s e = rw e refl

  live_deinit :
      (s : State W T) (d : Driver)
      → s.driver ≡ live d
      → gralloc_gbm_deinit p s
        ≡ done (ok, record s { world = p.destroy_device s.world d.gbm_dev; driver = dangling })
  unfolding gralloc_gbm_deinit
  live_deinit s d e = rw e refl

  unopened-Step : {s t : State W T} → IsUnopened p s → Step c p s t → HasPhase p t
  unopened-Step {s} i (initialising r e) =
      let (r', t', e', w, sound) = init-Opens p hash s i in same_end (HasPhase p) e e' w
  unopened-Step {s} i (deinitialising r e) = no_return (no_deinit s i.absent) e
  unopened-Step {s} i (creation desc r e key) =
      same_end (HasPhase p) e ((unready c p s (no_driver_lem p s i)).0 desc) (unopened i)
  unopened-Step {s} i (importing h r e) =
      same_end (HasPhase p) e ((unready c p s (no_driver_lem p s i)).1 h) (unopened i)
  unopened-Step {s} i (freeing h r e) =
      same_end (HasPhase p) e ((unready c p s (no_driver_lem p s i)).2 h) (unopened i)
  unopened-Step {s} i (locking h usage r e) =
      same_end (HasPhase p) e ((unready c p s (no_driver_lem p s i)).3 h usage) (unopened i)
  unopened-Step {s} i (unlocking h r e) =
      same_end (HasPhase p) e (missing_unlock p s h (nothing_found s i.empty h.prime_fd))
        (unopened i)
  unopened-Step {s} i (querying h r e) =
      same_end (HasPhase p) e (missing_query p s h (nothing_found s i.empty h.prime_fd))
        (unopened i)

  broken-Step : {s t : State W T} → IsBroken p s → Step c p s t → HasPhase p t
  broken-Step {s} i (initialising r e) = no_return (uninit p s i.freed) e
  broken-Step {s} i (creation desc r e key) =
      no_return ((unusable c p s use_after_free (freed_driver_lem p s i)).0 desc) e
  broken-Step {s} i (importing h r e) =
      no_return ((unusable c p s use_after_free (freed_driver_lem p s i)).1 h) e
  broken-Step {s} i (freeing h r e) =
      no_return ((unusable c p s use_after_free (freed_driver_lem p s i)).2 h) e
  broken-Step {s} i (locking h usage r e) =
      no_return ((unusable c p s use_after_free (freed_driver_lem p s i)).3 h usage) e
  broken-Step {s} i (unlocking h r e) =
      broken (record { freed = (unlock-KeepsDriver p h).keeps s r _ e ∙ i.freed })
  broken-Step {s} i (querying h r e) =
      broken (record { freed = (query-KeepsDriver p h).keeps s r _ e ∙ i.freed })
  broken-Step {s} i (deinitialising r e) = no_return (freed_deinit s i.freed) e

module _ {W T : Type 0} (c : Config) (p : Platform W T) (hash : IsHash p) (keeps : KeepsUserData p)
    (maps : MapsWhole p) (news : MakesNewObjects p) (memory : (n : ℕ) → p.no_memory n ≡ false) where
  init_again : (s : State W T) (f : BufferMap) → IsSound p s f → gralloc_gbm_init p s ≡ done (ok, s)
  unfolding gralloc_gbm_init
  init_again s f v = rw (is_ready_lem s v.driver v.is_live v.is_ready) refl

  lock_returned :
      {o : Outcome ((Status × Option Ptr) × State W T)} {r : Status × Option Ptr} {t : State W T}
      (f : BufferMap)
      → o ≡ done (r, t)
      → LockSafely p f o
      → IsSound p t f
  lock_returned f e (stays (r', t', e', w)) = same_end (λ u. IsSound p u f) e e' w
  lock_returned f e (asserts e') = no_return e' e
  lock_returned f e (overflows e') = no_return e' e

  sound-Step : {s t : State W T} (f : BufferMap) → IsSound p s f → Step c p s t → HasPhase p t
  sound-Step {s} f v (initialising r e) = same_end (HasPhase p) e (init_again s f v) (opened f v)
  sound-Step {s} f v (creation desc r e key) =
      let (g, w) = creation-IsSound c p hash keeps news memory s f v desc r _ e key in opened g w
  sound-Step {s} f v (importing h r e) =
      opened f (import-StaysSound c p hash keeps memory s f v h r _ e)
  sound-Step {s} f v (freeing h r e) =
      let (t', e', w) = free-IsSound p hash keeps s f v h in same_end (HasPhase p) e e' (opened _ w)
  sound-Step {s} f v (locking h usage r e) =
      opened f (lock_returned f e (lock-LockSafely p keeps maps s f v h usage))
  sound-Step {s} f v (unlocking h r e) =
      let (r', t', e', w) = unlock-StaysSound p keeps maps s f v h in
      same_end (HasPhase p) e e' (opened f w)
  sound-Step {s} f v (querying h r e) = opened f (query-IsSound p keeps s f v h r _ e)
  sound-Step {s} f v (deinitialising r e) =
      same_end (HasPhase p) e (live_deinit c p hash s v.driver v.is_live)
        (broken (record { freed = refl }))

  Reach-HasPhase : {s t : State W T} → HasPhase p s → Reach c p s t → HasPhase p t
  Reach-HasPhase w here = w
  Reach-HasPhase w (after r e) = one_more (Reach-HasPhase w r) e
    where
      one_more : {s t : State W T} → HasPhase p s → Step c p s t → HasPhase p t
      one_more (unopened i) e = unopened-Step c p hash i e
      one_more (opened f v) e = sound-Step f v e
      one_more (broken i) e = broken-Step c p hash i e

  -- After any sequence of initialisations, deinitialisations, creations, imports, releases, locks,
  -- unlocks and queries that return, from the start of the process, in which memory lasts and handles
  -- are created under descriptors that are not in the table: there is no driver and nothing in the
  -- table, or the pointer to a freed driver, or the state is sound: the table is a finite map, and
  -- each of its buffers has a live object of its own, whose data is live and consistent and shares no
  -- block with another buffer. The imports that return are those that were refused.
  pub reachable-HasPhase : (s t : State W T) → IsUnopened p s → Reach c p s t → HasPhase p t
  reachable-HasPhase s t i r = Reach-HasPhase (unopened i) r

  -- How the calls on a handle end.
  abbrev pub AllEnd : State W T → Handle → Type 0
  AllEnd t h =
      ((usage : ℕ)
        → Returns (gralloc_gbm_android_buffer_lock p h usage t)
          ⊎ ((gralloc_gbm_android_buffer_lock p h usage t ≡ fault assertion_failed)
              ⊎ (gralloc_gbm_android_buffer_lock p h usage t ≡ fault signed_overflow)))
      × Returns (gralloc_gbm_android_buffer_unlock p h t)
      × Returns (gralloc_gbm_android_buffer_free p h t)
      × (lookup h.prime_fd (p.hash_iter t.table) ≡ none
          → Returns (gralloc_gbm_android_buffer_import c p h t)
            ⊎ (gralloc_gbm_android_buffer_import c p h t ≡ fault use_after_free))
      × Returns (gralloc_gbm_init p t)
      × Returns (gralloc_gbm_deinit p t)
      × (HasDepth h.format → Returns (gralloc_gbm_android_buffer_query p h t))

  lock_ends :
      {f : BufferMap} {o : Outcome ((Status × Option Ptr) × State W T)}
      → LockSafely p f o
      → Returns o ⊎ ((o ≡ fault assertion_failed) ⊎ (o ≡ fault signed_overflow))
  lock_ends (stays e) = inl (returned e)
  lock_ends (asserts e) = inr (inl e)
  lock_ends (overflows e) = inr (inr e)

  import_ends :
      {o : Outcome (Status × State W T)}
      → ((t : State W T) × (o ≡ done (einval, t))) ⊎ (o ≡ fault use_after_free)
      → Returns o ⊎ (o ≡ fault use_after_free)
  import_ends (inl (t, e)) = inl (einval, t, e)
  import_ends (inr e) = inr e

  sound_ends : (t : State W T) (f : BufferMap) → IsSound p t f → (h : Handle) → AllEnd t h
  sound_ends t f v h = (
    (λ usage. lock_ends (lock-LockSafely p keeps maps t f v h usage)),
    returned (unlock-StaysSound p keeps maps t f v h),
    (let (u, e, w) = free-IsSound p hash keeps t f v h in (ok, u, e)),
    (λ key. import_ends (import-Ends c p hash keeps memory t f v h key)),
    (ok, t, init_again t f v),
    (ok, _, live_deinit c p hash t v.driver v.is_live),
    (λ sized. returned (query-StaysSound p keeps maps t f v h sized)),
  )

  -- If there is a driver after such a sequence of calls, then unlocking and freeing any handle,
  -- initialising again, deinitialising, and querying a handle whose format has a size, return: they
  -- dereference neither `NULL` nor a freed object, divide by no zero and fail no assertion. Locking
  -- any handle for any usage returns, fails an assertion, or overflows the count of locks. Importing
  -- a handle under a descriptor that is not in the table returns, or reads freed memory.
  pub reachable-AllEnd :
      (s t : State W T) (d : Driver)
      → IsUnopened p s
      → Reach c p s t
      → t.driver ≡ live d
      → (h : Handle) → AllEnd t h
  reachable-AllEnd s t d i r driver h = by_phase (reachable-HasPhase s t i r)
    where
      by_phase : HasPhase p t → AllEnd t h
      by_phase (unopened j) = let clash : no_driver ≡ live d = sym j.absent ∙ driver in absurd (cc)
      by_phase (opened f v) = sound_ends t f v h
      by_phase (broken j) = let clash : dangling ≡ live d = sym j.freed ∙ driver in absurd (cc)
