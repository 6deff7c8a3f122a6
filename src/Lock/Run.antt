-- ===== src/Lock/Run.antt =====
-- The lock and the unlock of common/gralloc_gbm.c on a state, beside what `Count` says of the data.
use gralloc_gbm.Base.{
  ℕ, suc, ◌-◌, ◌≡◌, ◌≢◌, refl, true, false, Option, none, some, bit_or, ◌==◌, ne_of_==, eq_of_==,
  ==_refl, ==_ne, if◌then◌else◌, Bool-cases, inl, inr,
}
use gralloc_gbm.Base.Bits.{has}
use gralloc_gbm.Machine.{Ptr, null, ok, Fault, signed_overflow, Outcome, done, fault}
use gralloc_gbm.Hal.Usage
use gralloc_gbm.Platform.{Platform, Mapping}
use gralloc_gbm.Platform.Laws.{KeepsUserData}
use gralloc_gbm.State.{State, BoData}
use gralloc_gbm.BoData.{get_user_data}
use gralloc_gbm.BoData.Steps.{
  Changes, Carries, put, load_lem, mapping, user_data_init_lem, map_busy, map_failed, map_made,
  map_asserts, unmap_lem,
}
use gralloc_gbm.Lock.{
  sw_mask, int_max, is_incompatible, count_lock, lock_bo, count_unlock, unlock_bo,
}
use gralloc_gbm.Lock.Count.{clashes, lock_fault, lock_data, unlock_data}

-- What the platform answers to the mapping that a lock asks for, on data `x`.
abbrev pub answer : {W T : Type 0} → Platform W T → State W T → Ptr → BoData → ℕ → Mapping
answer p s bo x usage = (mapping p s bo (has (bit_or usage x.locked_for) Usage.sw_write_mask)).0

-- The run returns `r`, and changes the data at `d` to `y`.
abbrev pub Runs :
    {W T R : Type 0}
    → Platform W T
    → State W T
    → Ptr
    → Outcome (R × State W T)
    → R
    → BoData
    → Type 0
Runs {W} {T} p s d o r y = (t : State W T) × (o ≡ done (r, t)) × Changes p s d y t

-- The stride of the object behind that mapping.
abbrev pub mapped_stride : {W T : Type 0} → Platform W T → State W T → Ptr → BoData → ℕ → ℕ
mapped_stride p s bo x usage =
    p.bo_stride (mapping p s bo (has (bit_or usage x.locked_for) Usage.sw_write_mask)).1 bo

-- The run faults as `e` says, if it says a fault, and else returns `r.0` and changes the data to `r.1`.
abbrev pub LockEnds :
    {W T R : Type 0}
    → Platform W T
    → State W T
    → Ptr
    → Outcome (R × State W T)
    → (e : Option Fault) → (r : R × BoData) → Type 0
LockEnds p s d o none r = Runs p s d o r.0 r.1
LockEnds p s d o (some e) r = o ≡ fault e

module _ {W T : Type 0} where
  count_lock_lem :
      (s : State W T) (x : BoData) (d : Ptr) (usage : ℕ)
      → d ≢ null
      → s.bo_data d ≡ some x
      → (x.lock_count == int_max) ≡ false
      → count_lock d usage s
        ≡ done (
          tt,
          put s d
              (record x { lock_count = suc x.lock_count; locked_for = bit_or x.locked_for usage }),
        )
  unfolding count_lock
  count_lock_lem s x d usage ne e small = rw (load_lem s x d ne e, small) refl

  count_lock_overflows :
      (s : State W T) (x : BoData) (d : Ptr) (usage : ℕ)
      → d ≢ null
      → s.bo_data d ≡ some x
      → (x.lock_count == int_max) ≡ true
      → count_lock d usage s ≡ fault signed_overflow
  unfolding count_lock
  count_lock_overflows s x d usage ne e full = rw (load_lem s x d ne e, full) refl

  count_lock-put :
      (s : State W T) (y : BoData) (d : Ptr) (usage : ℕ)
      → d ≢ null
      → (y.lock_count == int_max) ≡ false
      → count_lock d usage (put s d y)
        ≡ done (
          tt,
          put
              (put s d y)
              d
              (record y { lock_count = suc y.lock_count; locked_for = bit_or y.locked_for usage }),
        )
  count_lock-put s y d usage ne small =
      count_lock_lem (put s d y) y d usage ne (rw (==_refl d)) small

  count_lock_overflows-put :
      (s : State W T) (y : BoData) (d : Ptr) (usage : ℕ)
      → d ≢ null
      → (y.lock_count == int_max) ≡ true
      → count_lock d usage (put s d y) ≡ fault signed_overflow
  count_lock_overflows-put s y d usage ne full =
      count_lock_overflows (put s d y) y d usage ne (rw (==_refl d)) full

  count_unlock_lem :
      (s : State W T) (x : BoData) (d : Ptr)
      → d ≢ null
      → s.bo_data d ≡ some x
      → let n = x.lock_count - 1 in
        count_unlock d s
        ≡ done (
          tt,
          put s d (record x { lock_count = n; locked_for = if n == 0 then 0 else x.locked_for }),
        )
  unfolding count_unlock
  count_unlock_lem s x d ne e = rw (load_lem s x d ne e)

  count_unlock-put :
      (s : State W T) (y : BoData) (d : Ptr)
      → d ≢ null
      → let n = y.lock_count - 1 in
        count_unlock d (put s d y)
        ≡ done (
          tt,
          put
              (put s d y)
              d
              (record y { lock_count = n; locked_for = if n == 0 then 0 else y.locked_for }),
        )
  count_unlock-put s y d ne = count_unlock_lem (put s d y) y d ne (rw (==_refl d))

module _ {W T : Type 0} (p : Platform W T) (keeps : KeepsUserData p) (s : State W T) (bo d : Ptr)
    (x : BoData) (c : Carries p s bo d x) where
  stays : Changes p s d x s
  stays = record {
    at = c.holds;
    elsewhere = λ q h. refl;
    user_data = λ bo. refl;
    table = refl;
    driver = refl;
    block = refl;
    next = refl;
  }

  -- One or two writes at `d`, after the platform has moved to `w`.
  puts :
      (w : W) (y : BoData)
      → ((other : Ptr) → p.get_user_data w other ≡ p.get_user_data s.world other)
      → Changes p s d y (put (record s { world = w }) d y)
  puts w y same = record {
    at = rw (==_refl d);
    elsewhere = λ q ne. rw (==_ne q d ne);
    user_data = same;
    table = refl;
    driver = refl;
    block = refl;
    next = refl;
  }

  puts_twice :
      (w : W) (z y : BoData)
      → ((other : Ptr) → p.get_user_data w other ≡ p.get_user_data s.world other)
      → Changes p s d y (put (put (record s { world = w }) d z) d y)
  puts_twice w z y same = record {
    at = rw (==_refl d);
    elsewhere = λ q ne. rw (==_ne q d ne);
    user_data = same;
    table = refl;
    driver = refl;
    block = refl;
    next = refl;
  }

  lock_counted :
      (usage : ℕ)
      → clashes x usage ≡ false
      → has (bit_or usage x.locked_for) sw_mask ≡ true
      → (x.map_data == null) ≡ true
      → ((answer p s bo x usage).address == null) ≡ false
      → ((answer p s bo x usage).stride == mapped_stride p s bo x usage) ≡ true
      → LockEnds p s d
          (lock_bo p bo usage s)
          (lock_fault x usage (answer p s bo x usage) (mapped_stride p s bo x usage))
          (lock_data x usage (answer p s bo x usage))
  unfolding lock_bo lock_data lock_fault is_incompatible
  lock_counted usage fine cpu unmapped made fits = elim (Bool-cases (x.lock_count == int_max)) [
    | inl full ↦
        rw
          (
            user_data_init_lem c,
            load_lem s x d c.data_ne c.holds,
            fine,
            cpu,
            map_made c _ (eq_of_== _ _ unmapped) (ne_of_== _ _ made) (eq_of_== _ _ fits),
            count_lock_overflows-put _ _ d _ c.data_ne full,
            unmapped,
            made,
            fits,
            full,
          )
          refl
    | inr small ↦
        rw
          (
            user_data_init_lem c,
            load_lem s x d c.data_ne c.holds,
            fine,
            cpu,
            map_made c _ (eq_of_== _ _ unmapped) (ne_of_== _ _ made) (eq_of_== _ _ fits),
            count_lock-put _ _ d _ c.data_ne small,
            unmapped,
            made,
            fits,
            small,
          )
          (_, refl, puts_twice _ _ _ (keeps.map s.world bo _ _))
  ]

  lock_mapped :
      (usage : ℕ)
      → clashes x usage ≡ false
      → has (bit_or usage x.locked_for) sw_mask ≡ true
      → (x.map_data == null) ≡ true
      → LockEnds p s d
          (lock_bo p bo usage s)
          (lock_fault x usage (answer p s bo x usage) (mapped_stride p s bo x usage))
          (lock_data x usage (answer p s bo x usage))
  unfolding lock_bo lock_data lock_fault is_incompatible
  lock_mapped usage fine cpu unmapped =
      elim (Bool-cases ((answer p s bo x usage).address == null)) [
        | inl failed ↦
            rw
              (
                user_data_init_lem c,
                load_lem s x d c.data_ne c.holds,
                fine,
                cpu,
                map_failed c _ (eq_of_== _ _ unmapped) (eq_of_== _ _ failed),
                unmapped,
                failed,
              )
              (_, refl, puts _ _ (keeps.map s.world bo _ _))
        | inr made ↦
            elim (Bool-cases ((answer p s bo x usage).stride == mapped_stride p s bo x usage)) [
              | inl fits ↦ lock_counted usage fine cpu unmapped made fits
              | inr differs ↦
                  rw
                    (
                      user_data_init_lem c,
                      load_lem s x d c.data_ne c.holds,
                      fine,
                      cpu,
                      map_asserts c _ (eq_of_== _ _ unmapped) (ne_of_== _ _ made) differs,
                      unmapped,
                      made,
                      differs,
                    )
                    refl
            ]
      ]

  lock_unmapped :
      (usage : ℕ)
      → clashes x usage ≡ false
      → has (bit_or usage x.locked_for) sw_mask ≡ false
      → LockEnds p s d
          (lock_bo p bo usage s)
          (lock_fault x usage (answer p s bo x usage) (mapped_stride p s bo x usage))
          (lock_data x usage (answer p s bo x usage))
  unfolding lock_bo lock_data lock_fault is_incompatible
  lock_unmapped usage fine gpu = elim (Bool-cases (x.lock_count == int_max)) [
    | inl full ↦
        rw
          (
            user_data_init_lem c,
            load_lem s x d c.data_ne c.holds,
            fine,
            gpu,
            count_lock_overflows s x d (bit_or usage x.locked_for) c.data_ne c.holds full,
            full,
          )
          refl
    | inr small ↦
        rw
          (
            user_data_init_lem c,
            load_lem s x d c.data_ne c.holds,
            fine,
            gpu,
            count_lock_lem s x d (bit_or usage x.locked_for) c.data_ne c.holds small,
            small,
          )
          (_, refl, puts s.world _ (λ other. refl))
  ]

  -- On a buffer object with live data, the lock runs into what `lock_fault` says, for the answer that
  -- libgbm gives to the mapping and the stride of the object, or else returns and changes the data as
  -- `lock_data` says, and nothing else.
  pub lock_bo-LockEnds :
      (usage : ℕ)
      → LockEnds p s d
          (lock_bo p bo usage s)
          (lock_fault x usage (answer p s bo x usage) (mapped_stride p s bo x usage))
          (lock_data x usage (answer p s bo x usage))
  unfolding lock_bo lock_data lock_fault is_incompatible
  lock_bo-LockEnds usage = elim (Bool-cases (clashes x usage)) [
    | inl bad ↦ rw (user_data_init_lem c, load_lem s x d c.data_ne c.holds, bad) (s, refl, stays)
    | inr fine ↦ elim (Bool-cases (has (bit_or usage x.locked_for) sw_mask)) [
      | inl cpu ↦ elim (Bool-cases (x.map_data == null)) [
        | inl unmapped ↦ lock_mapped usage fine cpu unmapped
        | inr busy ↦
            rw
              (
                user_data_init_lem c,
                load_lem s x d c.data_ne c.holds,
                fine,
                cpu,
                map_busy c _ (ne_of_== _ _ busy),
                busy,
              )
              (s, refl, stays)
      ]
      | inr gpu ↦ lock_unmapped usage fine gpu
    ]
  ]

  -- On a buffer object with live data, the unlock returns 0, changes the data as `unlock_data` says,
  -- and nothing else.
  pub unlock_bo-Runs : Runs p s d (unlock_bo p bo s) ok (unlock_data x)
  unfolding unlock_bo unlock_data get_user_data
  unlock_bo-Runs = elim (Bool-cases (x.lock_count == 0)) [
    | inl free ↦
        rw (==_ne bo null c.bo_ne, c.points, load_lem s x d c.data_ne c.holds, free)
          (s, refl, stays)
    | inr held ↦ elim (Bool-cases (has x.locked_for sw_mask)) [
      | inl cpu ↦
          rw
            (
              ==_ne bo null c.bo_ne,
              c.points,
              load_lem s x d c.data_ne c.holds,
              held,
              cpu,
              unmap_lem c,
              count_unlock-put _ _ d c.data_ne,
            )
            (_, refl, puts_twice _ _ _ (keeps.unmap s.world bo _))
      | inr gpu ↦
          rw
            (
              ==_ne bo null c.bo_ne,
              c.points,
              load_lem s x d c.data_ne c.holds,
              held,
              gpu,
              count_unlock_lem s x d c.data_ne c.holds,
            )
            (_, refl, puts s.world _ (λ other. refl))
    ]
  ]
