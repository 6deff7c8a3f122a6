-- ===== src/Library/Locked.antt =====
-- Locks, unlocks and queries of common/gralloc_gbm.c in a sound state, on any handle.
use gralloc_gbm.Base.{
  ℕ, ◌≡◌, ◌∙◌, refl, ap, subst, ◌⊎◌, true, none, some, arith, Bool-cases, inl, inr, Option-cases,
}
use gralloc_gbm.Base.Bits.{has}
use gralloc_gbm.Machine.{
  Ptr, ok, einval, Outcome, Fault, assertion_failed, signed_overflow, done, fault,
}
use gralloc_gbm.Hal.Usage
use gralloc_gbm.Format.Depth.{HasDepth}
use gralloc_gbm.Platform.{Platform, Buffer}
use gralloc_gbm.Platform.Laws.{KeepsUserData, MapsWhole}
use gralloc_gbm.State.{State, BoData}
use gralloc_gbm.Handle.{Handle}
use gralloc_gbm.Driver.{is_gralloc_gbm_ready}
use gralloc_gbm.Table.{find_buffer_k}
use gralloc_gbm.Table.Map.{BufferMap, at_key}
use gralloc_gbm.BoData.Steps.{Changes}
use gralloc_gbm.Lock.{
  is_refused, lock_found, unlock_found, gralloc_gbm_android_buffer_lock,
  gralloc_gbm_android_buffer_unlock,
}
use gralloc_gbm.Lock.Count.{lock_fault, lock_data, unlock_data, unlock_data-IsConsistent}
use gralloc_gbm.Lock.Run.{answer, LockEnds}
use gralloc_gbm.Lock.Calls.{
  guarded, guarded_fault, gralloc_gbm_android_buffer_lock-LockEnds,
  gralloc_gbm_android_buffer_unlock-Runs,
}
use gralloc_gbm.Lock.Sequences.{guarded-IsConsistent}
use gralloc_gbm.Buffer.{query_found, gralloc_gbm_android_buffer_query}
use gralloc_gbm.Buffer.Made.{is_ready_lem}
use gralloc_gbm.Buffer.Query.{query_lem}
use gralloc_gbm.Library.{Owns, IsSound, SharesBlocks, sound-Manages}
use gralloc_gbm.Library.Changed.{changed-IsSound}

-- The run returns, in a sound state with the same buffers.
abbrev pub StaysSound :
    {W T R : Type 0} → Platform W T → BufferMap → Outcome (R × State W T) → Type 0
StaysSound {W} {T} {R} p f o = (r : R) × (t : State W T) × (o ≡ done (r, t)) × IsSound p t f

-- So it does, or it fails an assertion or overflows.
pub data LockSafely {W T R : Type 0} (p : Platform W T) (f : BufferMap)
    (o : Outcome (R × State W T)) : Type 0 where
  stays : StaysSound p f o → LockSafely p f o
  asserts : o ≡ fault assertion_failed → LockSafely p f o
  overflows : o ≡ fault signed_overflow → LockSafely p f o

guarded_fault_kinds :
    {W T : Type 0} (p : Platform W T) (s : State W T) (h : Handle) (b : Buffer) (x : BoData)
    (usage : ℕ) (e : Fault)
    → guarded_fault p s h b x usage ≡ some e
    → (e ≡ assertion_failed) ⊎ (e ≡ signed_overflow)
unfolding lock_fault
guarded_fault_kinds p s h b x usage e found = ground (arith, found)

pub lock_metadata :
    {W T : Type 0} (p : Platform W T) (s : State W T) (h : Handle) (b : Buffer) (x : BoData)
    (usage : ℕ)
    → SharesBlocks (guarded p s h b x usage).1.metadata x.metadata
unfolding lock_data
lock_metadata p s h b x usage = (ground arith, ground arith, ground arith)

pub unlock_metadata : (x : BoData) → SharesBlocks (unlock_data x).metadata x.metadata
unfolding unlock_data
unlock_metadata x = (ground arith, ground arith, ground arith)

module _ {W T : Type 0} (p : Platform W T) (s : State W T) (h : Handle) where
  missing_lock :
      (usage : ℕ)
      → is_gralloc_gbm_ready s ≡ done (true, s)
      → p.hash_find s.table h.prime_fd ≡ none
      → gralloc_gbm_android_buffer_lock p h usage s ≡ done ((einval, none), s)
  unfolding gralloc_gbm_android_buffer_lock find_buffer_k lock_found
  missing_lock usage ready gone = elim (Bool-cases (has usage Usage.hw_fb)) [
    | inl fb ↦ rw (ready, fb) refl
    | inr other ↦ elim (Bool-cases (is_refused h.usage usage)) [
      | inl refused ↦ rw (ready, other, refused) refl
      | inr allowed ↦ rw (ready, other, allowed, gone) refl
    ]
  ]

  pub missing_unlock :
      p.hash_find s.table h.prime_fd ≡ none
      → gralloc_gbm_android_buffer_unlock p h s ≡ done (einval, s)
  unfolding gralloc_gbm_android_buffer_unlock find_buffer_k unlock_found
  missing_unlock gone = rw gone refl

  pub missing_query :
      p.hash_find s.table h.prime_fd ≡ none
      → gralloc_gbm_android_buffer_query p h s ≡ done ((einval, none), s)
  unfolding gralloc_gbm_android_buffer_query find_buffer_k query_found
  missing_query gone = rw gone refl

module _ {W T : Type 0} (p : Platform W T) (keeps : KeepsUserData p) (s : State W T) (b : Buffer)
    (d : Ptr) (x : BoData) where
  pub queried : Owns p s b d x → Changes p s d x (record s { world = (p.bo_fd s.world b.bo).1 })
  queried o = record {
    at = o.carries.holds;
    elsewhere = λ q ne. refl;
    user_data = λ bo. keeps.fd s.world b.bo bo;
    table = refl;
    driver = refl;
    block = refl;
    next = refl;
  }

module _ {W T : Type 0} (p : Platform W T) (keeps : KeepsUserData p) (maps : MapsWhole p)
    (s : State W T) (f : BufferMap) (v : IsSound p s f) (h : Handle) where
  gone_lem : f h.prime_fd ≡ none → p.hash_find s.table h.prime_fd ≡ none
  gone_lem e = at_key p v.table h.prime_fd ∙ e

  -- In a sound state every lock, of any handle for any usage, returns and leaves a sound state with the
  -- same buffers, or fails an assertion or overflows.
  pub lock-LockSafely : (usage : ℕ) → LockSafely p f (gralloc_gbm_android_buffer_lock p h usage s)
  lock-LockSafely usage = elim (Option-cases (f h.prime_fd)) [
    | inl gone ↦ stays (
      (einval, none),
      s,
      missing_lock p s h usage (is_ready_lem s v.driver v.is_live v.is_ready) (gone_lem gone),
      v,
    )
    | inr (b, e) ↦
        let (d, x, o) = v.owner h.prime_fd b e in
        let m = sound-Manages v h b d x e o in
        let ends = gralloc_gbm_android_buffer_lock-LockEnds p keeps s h b d x m usage in
        elim (Option-cases (guarded_fault p s h b x usage)) [
          | inl fine ↦
              let (t, run, c) =
                subst
                  (λ y.
                    LockEnds p s d (gralloc_gbm_android_buffer_lock p h usage s) y
                      (guarded p s h b x usage))
                  fine ends in
              stays (
                _,
                t,
                run,
                changed-IsSound v h.prime_fd b d x _ e o c
                    (guarded-IsConsistent p keeps maps s h b d x m o.consistent usage)
                    (lock_metadata p s h b x usage),
              )
          | inr (y, found) ↦
              let run : gralloc_gbm_android_buffer_lock p h usage s ≡ fault y =
                subst
                  (λ z.
                    LockEnds p s d (gralloc_gbm_android_buffer_lock p h usage s) z
                      (guarded p s h b x usage))
                  found ends in
              elim (guarded_fault_kinds p s h b x usage y found) [
                | inl assertion ↦ asserts (run ∙ ap fault assertion)
                | inr overflow ↦ overflows (run ∙ ap fault overflow)
              ]
        ]
  ]

  -- In a sound state every unlock, of any handle, returns and leaves a sound state with the same
  -- buffers.
  pub unlock-StaysSound : StaysSound p f (gralloc_gbm_android_buffer_unlock p h s)
  unlock-StaysSound = elim (Option-cases (f h.prime_fd)) [
    | inl gone ↦ (einval, s, missing_unlock p s h (gone_lem gone), v)
    | inr (b, e) ↦
        let (d, x, o) = v.owner h.prime_fd b e in
        let m = sound-Manages v h b d x e o in
        let (t, run, c) = gralloc_gbm_android_buffer_unlock-Runs p keeps s h b d x m in
        (
          ok,
          t,
          run,
          changed-IsSound v h.prime_fd b d x _ e o c
              (unlock_data-IsConsistent x 0 (answer p s b.bo x 0) o.consistent) (unlock_metadata x),
        )
  ]

  -- In a sound state every query for a handle whose format has a size returns and leaves a sound state
  -- with the same buffers.
  pub query-StaysSound : HasDepth h.format → StaysSound p f (gralloc_gbm_android_buffer_query p h s)
  query-StaysSound sized = elim (Option-cases (f h.prime_fd)) [
    | inl gone ↦ ((einval, none), s, missing_query p s h (gone_lem gone), v)
    | inr (b, e) ↦
        let (d, x, o) = v.owner h.prime_fd b e in
        let m = sound-Manages v h b d x e o in
        (
          _,
          _,
          query_lem p keeps s h b d x m sized,
          changed-IsSound v h.prime_fd b d x x e o (queried p keeps s b d x o) o.consistent
              (refl, refl, refl),
        )
  ]
