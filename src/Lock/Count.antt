-- ===== src/Lock/Count.antt =====
-- The lock of common/gralloc_gbm.c as a machine on `gbm_bo_data_t` alone: what a lock and an unlock
-- do to the data of one buffer, and the invariant of that data.
use gralloc_gbm.Base.{
  ℕ, suc, ◌-◌, ◌≡◌, ◌≢◌, ap, ◌∙◌, Bool, true, Option, none, some, ◌||◌, ◌&&◌, not, bit_and, bit_or,
  ◌==◌, if◌then◌else◌, arith,
}
use gralloc_gbm.Base.Bits.{has, has-bit_or, has_of_part}
use gralloc_gbm.Machine.{
  Ptr, null, Status, ok, einval, enomem, Fault, assertion_failed, signed_overflow,
}
use gralloc_gbm.Platform.{Mapping}
use gralloc_gbm.State.{BoData, empty_bo_data}
use gralloc_gbm.Lock.{sw_mask, int_max}

-- A lock on top of others asks for more than they hold.
abbrev pub clashes : BoData → ℕ → Bool
clashes x usage = not (x.lock_count == 0) && not (bit_and x.locked_for usage == usage)

-- What a lock runs into: the `assert` on the stride of the mapping, or one lock more than an `int`
-- counts. `stride` is the stride of the buffer object.
unfoldable pub lock_fault : BoData → ℕ → Mapping → (stride : ℕ) → Option Fault
lock_fault x usage m stride =
    let overflow = if x.lock_count == int_max then some signed_overflow else none in
    if clashes x usage
    then none
    else (if not (has (bit_or usage x.locked_for) sw_mask)
        then overflow
        else (if not (x.map_data == null)
            then none
            else (if m.address == null
                then none
                else (if m.stride == stride then overflow else some assertion_failed))))

-- `m` is what the platform would answer to a mapping.
unfoldable pub lock_data : BoData → ℕ → Mapping → (Status × Option Ptr) × BoData
lock_data x usage m =
    let wanted = bit_or usage x.locked_for in
    let y = record x { lock_count = suc x.lock_count; locked_for = bit_or x.locked_for wanted } in
    if clashes x usage
    then ((einval, none), x)
    else (if not (has wanted sw_mask)
        then ((ok, none), y)
        else (if not (x.map_data == null)
            then ((einval, none), x)
            else (if m.address == null
                then ((enomem, some null), record x { map_data = m.map_data })
                else ((ok, some m.address), record y { map_data = m.map_data }))))

unfoldable pub unlock_data : BoData → BoData
unlock_data x =
    let n = x.lock_count - 1 in
    if x.lock_count == 0 then x else record x {
      map_data = if has x.locked_for sw_mask then null else x.map_data;
      lock_count = n;
      locked_for = if n == 0 then 0 else x.locked_for;
    }

-- The data is mapped exactly while it is locked for the CPU, then under one lock; without a lock it
-- is locked for nothing.
pub record IsConsistent (x : BoData) : Type 0 where
  pub idle : x.lock_count ≡ 0 → x.locked_for ≡ 0
  pub mapped : has x.locked_for sw_mask ≡ not (x.map_data == null)
  pub single : x.map_data ≢ null → x.lock_count ≡ 1

-- What libgbm documents of a mapping: it gives map data exactly if it gives an address.
pub record IsAnswer (m : Mapping) : Type 0 where
  pub failed : m.address ≡ null → m.map_data ≡ null
  pub mapped : m.address ≢ null → m.map_data ≢ null

-- The data that `calloc` gives is consistent.
pub empty-IsConsistent : IsConsistent empty_bo_data
empty-IsConsistent = ground arith

locked_sw :
    (l u : ℕ)
    → has (bit_or l (bit_or u l)) sw_mask ≡ (has l sw_mask || (has u sw_mask || has l sw_mask))
locked_sw l u =
    has-bit_or l (bit_or u l) sw_mask
    ∙ ap (λ (b : Bool). has l sw_mask || b) (has-bit_or u l sw_mask)

module _ (x : BoData) (usage : ℕ) (m : Mapping) (v : IsConsistent x) where
  pub lock_data-IsConsistent : IsAnswer m → IsConsistent (lock_data x usage m).1
  unfolding lock_data
  lock_data-IsConsistent a = ground (
    arith,
    has-bit_or usage x.locked_for sw_mask,
    locked_sw x.locked_for usage,
    has_of_part x.locked_for usage sw_mask,
  )

  -- A buffer that is locked for the CPU cannot be locked again.
  pub lock_data-refused :
      has x.locked_for sw_mask ≡ true → lock_data x usage m ≡ ((einval, none), x)
  unfolding lock_data
  lock_data-refused cpu = ground (arith, has-bit_or usage x.locked_for sw_mask)

  -- It is refused before it runs into anything.
  pub lock_fault-refused :
      (stride : ℕ) → has x.locked_for sw_mask ≡ true → lock_fault x usage m stride ≡ none
  unfolding lock_fault
  lock_fault-refused stride cpu = ground (arith, has-bit_or usage x.locked_for sw_mask)

  pub unlock_data-IsConsistent : IsConsistent (unlock_data x)
  unfolding unlock_data
  unlock_data-IsConsistent = ground arith

  pub unlock-lock_data :
      x.lock_count ≡ 0 → (lock_data x usage m).0.0 ≡ ok → unlock_data (lock_data x usage m).1 ≡ x
  unfolding lock_data unlock_data
  unlock-lock_data free done =
      ground (arith, has-bit_or usage x.locked_for sw_mask, locked_sw x.locked_for usage)
