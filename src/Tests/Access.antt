-- ===== src/Tests/Access.antt =====
-- The theorems on locking and on the table, at concrete buffers.
use gralloc_gbm.Base.{◌≡◌, refl, arith, List, none, some, [], ◌∷◌}
use gralloc_gbm.Machine.{Ptr, ok, einval, done}
use gralloc_gbm.Hal.Usage
use gralloc_gbm.Hal.Pixel
use gralloc_gbm.Platform.{Buffer}
use gralloc_gbm.Handle.{Handle, handle_magic, handle_version}
use gralloc_gbm.State.{State, BoData, empty_bo_data, load}
use gralloc_gbm.Driver.{is_gralloc_gbm_ready}
use gralloc_gbm.BoData.{gralloc_gbm_bo_user_data_init, get_user_data}
use gralloc_gbm.BoData.Steps.{Carries, put}
use gralloc_gbm.Lock.{
  is_refused, is_incompatible, lock_bo, lock_found, count_lock, gralloc_gbm_android_buffer_lock,
  gralloc_gbm_android_buffer_unlock,
}
use gralloc_gbm.Lock.Count.{unlock_data, IsConsistent, empty-IsConsistent}
use gralloc_gbm.Lock.Run.{Runs, LockEnds}
use gralloc_gbm.Lock.Calls.{
  Manages, guarded, guarded_fault, gralloc_gbm_android_buffer_lock-LockEnds,
  gralloc_gbm_android_buffer_unlock-Runs,
}
use gralloc_gbm.Lock.Sequences.{lock_again, unlock-lock}
use gralloc_gbm.Table.{find_buffer_k, add_buffer, delete_buffer}
use gralloc_gbm.Table.Entries.{lookup}
use gralloc_gbm.Table.Map.{insert, delete, Represents, add_buffer-insert, delete_buffer-delete}
use gralloc_gbm.Tests.{
  one_buffer, one_buffer-Represents, sample, sample-KeepsUserData, sample-MapsWhole, sample-IsHash,
  first_buffer, second_buffer, ready_state, driver,
}

carried : Carries sample ready_state 70 5 empty_bo_data
carried = record {
  bo_ne = λ e. omega arith;
  data_ne = λ e. omega arith;
  points = refl;
  holds = refl;
}

abbrev handle : Handle
handle = record {
  prime_fd = 21;
  magic = handle_magic;
  version = handle_version;
  size = record { width = 64; height = 64 };
  format = Pixel.rgba_8888;
  usage = Usage.sw_read_often;
  stride = 256;
  modifier = 0;
}

managed : Manages sample ready_state handle first_buffer 5 empty_bo_data
unfolding lookup
managed = record {
  driver = driver;
  is_live = refl;
  is_ready = refl;
  found = refl;
  carries = carried;
}

gralloc_gbm_android_buffer_lock-LockEnds_example :
    LockEnds sample ready_state 5
      (gralloc_gbm_android_buffer_lock sample handle Usage.sw_read_often ready_state)
      (guarded_fault sample ready_state handle first_buffer empty_bo_data Usage.sw_read_often)
      (guarded sample ready_state handle first_buffer empty_bo_data Usage.sw_read_often)
gralloc_gbm_android_buffer_lock-LockEnds_example =
    gralloc_gbm_android_buffer_lock-LockEnds sample sample-KeepsUserData ready_state handle
      first_buffer 5 empty_bo_data managed Usage.sw_read_often

gralloc_gbm_android_buffer_unlock-Runs_example :
    Runs sample ready_state 5
      (gralloc_gbm_android_buffer_unlock sample handle ready_state)
      ok
      (unlock_data empty_bo_data)
gralloc_gbm_android_buffer_unlock-Runs_example =
    gralloc_gbm_android_buffer_unlock-Runs sample sample-KeepsUserData ready_state handle
      first_buffer 5 empty_bo_data managed

-- The same buffer, locked for reading by the CPU.
abbrev locked : BoData
locked = record empty_bo_data { map_data = 200; lock_count = 1; locked_for = Usage.sw_read_often }

locked-IsConsistent : IsConsistent locked
locked-IsConsistent = record { idle = λ e. omega arith; mapped = refl; single = λ ne. refl }

abbrev locked_state : State (Ptr → Ptr) (List Buffer)
locked_state = put ready_state 5 locked

locked-managed : Manages sample locked_state handle first_buffer 5 locked
unfolding lookup
locked-managed = record {
  driver = driver;
  is_live = refl;
  is_ready = refl;
  found = refl;
  carries = record {
    bo_ne = λ e. omega arith;
    data_ne = λ e. omega arith;
    points = refl;
    holds = refl;
  };
}

lock_again_example :
    Runs sample locked_state 5
      (gralloc_gbm_android_buffer_lock sample handle Usage.sw_read_often locked_state)
      (einval, none)
      locked
lock_again_example =
    lock_again sample sample-KeepsUserData sample-MapsWhole locked_state handle first_buffer 5
      locked locked-managed locked-IsConsistent Usage.sw_read_often refl

-- A lock for the GPU is granted.
abbrev gpu_locked : State (Ptr → Ptr) (List Buffer)
gpu_locked =
    put ready_state 5 (record empty_bo_data { lock_count = 1; locked_for = Usage.hw_texture })

abbrev texture : Handle
texture = record handle { usage = Usage.hw_texture }

texture-managed : Manages sample ready_state texture first_buffer 5 empty_bo_data
unfolding lookup
texture-managed = record {
  driver = driver;
  is_live = refl;
  is_ready = refl;
  found = refl;
  carries = carried;
}

locks :
    gralloc_gbm_android_buffer_lock sample texture Usage.hw_texture ready_state
    ≡ done ((ok, none), gpu_locked)
unfolding gralloc_gbm_android_buffer_lock is_gralloc_gbm_ready is_refused find_buffer_k lookup
    lock_found lock_bo gralloc_gbm_bo_user_data_init get_user_data load is_incompatible count_lock
locks = refl

unlock-lock_example :
    Runs sample gpu_locked 5
      (gralloc_gbm_android_buffer_unlock sample texture gpu_locked)
      ok
      empty_bo_data
unlock-lock_example =
    unlock-lock sample sample-KeepsUserData sample-MapsWhole ready_state texture first_buffer 5
      empty_bo_data texture-managed empty-IsConsistent Usage.hw_texture none gpu_locked refl locks

add_buffer-insert_example :
    let t = record ready_state { table = first_buffer ∷ second_buffer ∷ [] } in
    (add_buffer sample (some second_buffer) ready_state ≡ done (ok, t))
    × Represents sample t (insert second_buffer one_buffer)
add_buffer-insert_example =
    add_buffer-insert sample sample-IsHash one_buffer-Represents second_buffer
      ((λ e. omega arith, λ e. omega arith), tt)

held : one_buffer 21 ≡ some first_buffer
unfolding lookup
held = refl

delete_buffer-delete_example :
    let t = record ready_state { table = sample.hash_del (first_buffer ∷ []) first_buffer } in
    (delete_buffer sample (some first_buffer) ready_state ≡ done (ok, t))
    × Represents sample t (delete 21 one_buffer)
delete_buffer-delete_example =
    delete_buffer-delete sample sample-IsHash one_buffer-Represents first_buffer 21 held
