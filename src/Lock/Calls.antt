-- ===== src/Lock/Calls.antt =====
-- gralloc_gbm_android_buffer_lock and _unlock of common/gralloc_gbm.c as a whole, on a handle whose
-- buffer is in the table.
use gralloc_gbm.Base.{
  ◌∙◌, ap, ℕ, ◌≡◌, refl, true, Option, none, some, Bool, ◌&&◌, ◌||◌, not, bit_and, ◌==◌, arith,
  if◌then◌else◌, Bool-cases, inl, inr,
}
use gralloc_gbm.Base.Bits.{has, has_union}
use gralloc_gbm.Machine.{Ptr, Status, ok, einval, done, Fault}
use gralloc_gbm.Hal.Usage
use gralloc_gbm.Platform.{Platform, Buffer}
use gralloc_gbm.Platform.Laws.{KeepsUserData}
use gralloc_gbm.State.{State, Driver, live, BoData}
use gralloc_gbm.Handle.{Handle}
use gralloc_gbm.Driver.{is_gralloc_gbm_ready}
use gralloc_gbm.Table.{find_buffer_k}
use gralloc_gbm.BoData.Steps.{Changes, Carries}
use gralloc_gbm.Lock.{
  is_refused, lock_found, unlock_found, gralloc_gbm_android_buffer_lock,
  gralloc_gbm_android_buffer_unlock,
}
use gralloc_gbm.Lock.Count.{lock_fault, lock_data, unlock_data}
use gralloc_gbm.Lock.Run.{answer, mapped_stride, Runs, LockEnds, lock_bo-LockEnds, unlock_bo-Runs}

-- The driver is ready, and the table has the buffer of the handle, whose object has the live data `x`
-- at `d`.
pub record Manages {W T : Type 0} (p : Platform W T) (s : State W T) (h : Handle) (b : Buffer)
    (d : Ptr) (x : BoData) : Type 0 where
  pub driver : Driver
  pub is_live : s.driver ≡ live driver
  pub is_ready : driver.ready ≡ true
  pub found : p.hash_find s.table h.prime_fd ≡ some b
  pub carries : Carries p s b.bo d x

pub ready_lem :
    {W T : Type 0} {p : Platform W T} {s : State W T} {h : Handle} {b : Buffer} {d : Ptr}
    {x : BoData}
    → Manages p s h b d x
    → is_gralloc_gbm_ready s ≡ done (true, s)
unfolding is_gralloc_gbm_ready
ready_lem m = rw (m.is_live, m.is_ready) refl

pub managed_after :
    {W T : Type 0} {p : Platform W T} {s t : State W T} {h : Handle} {b : Buffer} {d : Ptr}
    {x y : BoData}
    → Manages p s h b d x
    → Changes p s d y t
    → Manages p t h b d y
managed_after {W} {T} {p} {s} {t} {h} {b} m c = record {
  driver = m.driver;
  is_live = c.driver ∙ m.is_live;
  is_ready = m.is_ready;
  found = ap (λ (u : T). p.hash_find u h.prime_fd) c.table ∙ m.found;
  carries = record {
    bo_ne = m.carries.bo_ne;
    data_ne = m.carries.data_ne;
    points = c.user_data b.bo ∙ m.carries.points;
    holds = c.at;
  };
}

-- The CPU may lock a buffer for a usage that lies within the one it was made with, and for any usage
-- if it was made for frequent reading or writing by the CPU, as a framebuffer or as a texture.
abbrev pub is_allowed : (made usage : ℕ) → Bool
is_allowed made usage =
    (bit_and made usage == usage)
    || (has made Usage.sw_read_often || has made Usage.sw_write_often)
    || (has made Usage.hw_fb || has made Usage.hw_texture)

refused_lem : (made usage : ℕ) → is_refused made usage ≡ not (is_allowed made usage)
unfolding is_refused
refused_lem made usage = ground (arith, has_union made Usage.sw_read_often Usage.sw_write_often)

-- Whether a lock gets past the guards on the usage.
abbrev pub passes : Handle → ℕ → Bool
passes h usage = not (has usage Usage.hw_fb) && is_allowed h.usage usage

-- What a lock runs into, and what it does to the data of the buffer, the guards on the usage included.
abbrev pub guarded_fault :
    {W T : Type 0} → Platform W T → State W T → Handle → Buffer → BoData → ℕ → Option Fault
guarded_fault p s h b x usage =
    if passes h usage
    then lock_fault x usage (answer p s b.bo x usage) (mapped_stride p s b.bo x usage)
    else none

abbrev pub guarded :
    {W T : Type 0}
    → Platform W T
    → State W T
    → Handle
    → Buffer
    → BoData
    → ℕ
    → (Status × Option Ptr) × BoData
guarded p s h b x usage =
    if passes h usage then lock_data x usage (answer p s b.bo x usage) else ((einval, none), x)

module _ {W T : Type 0} (p : Platform W T) (keeps : KeepsUserData p) (s : State W T) (h : Handle)
    (b : Buffer) (d : Ptr) (x : BoData) (m : Manages p s h b d x) where
  unchanged : Changes p s d x s
  unchanged = record {
    at = m.carries.holds;
    elsewhere = λ q ne. refl;
    user_data = λ bo. refl;
    table = refl;
    driver = refl;
    block = refl;
    next = refl;
  }

  -- With a ready driver and a managed buffer, a lock fails the `assert` on the stride of its mapping
  -- exactly where it gets as far as a mapping whose stride is not that of the object, overflows exactly
  -- where it would count one lock more than `INT_MAX`, and else returns. It then answers as
  -- `is_allowed` and `lock_data` say, changes the data of the buffer as `lock_data` says, and nothing
  -- else that the library keeps.
  pub gralloc_gbm_android_buffer_lock-LockEnds :
      (usage : ℕ)
      → LockEnds p s d
          (gralloc_gbm_android_buffer_lock p h usage s)
          (guarded_fault p s h b x usage)
          (guarded p s h b x usage)
  unfolding gralloc_gbm_android_buffer_lock find_buffer_k lock_found
  gralloc_gbm_android_buffer_lock-LockEnds usage = elim (Bool-cases (has usage Usage.hw_fb)) [
    | inl fb ↦ rw (ready_lem m, fb) (s, refl, unchanged)
    | inr other ↦ elim (Bool-cases (is_allowed h.usage usage)) [
      | inr refused ↦
          rw (ready_lem m, other, refused_lem h.usage usage, refused) (s, refl, unchanged)
      | inl allowed ↦
          rw (ready_lem m, other, refused_lem h.usage usage, allowed, m.found)
            (lock_bo-LockEnds p keeps s b.bo d x m.carries usage)
    ]
  ]

  -- With a managed buffer, an unlock always returns 0; it changes the data of the buffer as
  -- `unlock_data` says, and nothing else that the library keeps.
  pub gralloc_gbm_android_buffer_unlock-Runs :
      Runs p s d (gralloc_gbm_android_buffer_unlock p h s) ok (unlock_data x)
  unfolding gralloc_gbm_android_buffer_unlock find_buffer_k unlock_found
  gralloc_gbm_android_buffer_unlock-Runs = rw m.found (unlock_bo-Runs p keeps s b.bo d x m.carries)
