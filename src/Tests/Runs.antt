-- ===== src/Tests/Runs.antt =====
-- The theorems on sequences of calls of the library, at concrete calls.
use gralloc_gbm.Base.{ℕ, ◌≡◌, refl, List, [], none, arith, ==_ne}
use gralloc_gbm.Machine.{Ptr, null, ok, done}
use gralloc_gbm.Hal.Usage
use gralloc_gbm.Platform.{Buffer}
use gralloc_gbm.State.{State, Driver, no_driver, live, BoData, load}
use gralloc_gbm.Handle.{Handle}
use gralloc_gbm.Lock.{gralloc_gbm_android_buffer_unlock, unlock_bo, unlock_found}
use gralloc_gbm.Lock.Count.{IsConsistent}
use gralloc_gbm.Lock.Calls.{Manages, managed_after}
use gralloc_gbm.BoData.Steps.{put}
use gralloc_gbm.Lock.Release.{unlock_times, IsUnlocked, unlock_times-IsUnlocked}
use gralloc_gbm.Table.{find_buffer_k}
use gralloc_gbm.Table.Entries.{lookup}
use gralloc_gbm.BoData.{get_user_data}
use gralloc_gbm.Buffer.Creation.{new_data}
use gralloc_gbm.Buffer.Made.{Grants, new_handle, last}
use gralloc_gbm.Library.Created.{new-IsSound}
use gralloc_gbm.Library.{IsSound}
use gralloc_gbm.Library.Start.{IsUnopened, HasPhase, start-IsSound}
use gralloc_gbm.Library.Steps.{Step, initialising, creation, unlocking, Reach, here, after}
use gralloc_gbm.Library.Reach.{AllEnd, reachable-HasPhase, reachable-AllEnd}
use gralloc_gbm.Driver.{gralloc_gbm_init, open_device}
use gralloc_gbm.Tests.Careful.{
  careful, careful-KeepsUserData, careful-MapsWhole, careful-IsHash, careful-MakesNewObjects,
}
use gralloc_gbm.Tests.{
  sample, sample-KeepsUserData, sample-MapsWhole, first_buffer, ready_state, driver, config,
}
use gralloc_gbm.Tests.Buffers.{desc, stocked, held_handle, stocked-Manages}

abbrev pub start : State (Ptr → Ptr) (List Buffer)
start = record ready_state { table = [] }

-- A process that has not opened the device.
abbrev pub blank : State (Ptr → Ptr) (List Buffer)
blank = record ready_state { world = λ bo. null; table = []; driver = no_driver }

pub blank-IsUnopened : IsUnopened careful blank
blank-IsUnopened = record { absent = refl; empty = refl; started = λ e. omega arith }

abbrev pub opened_driver : Driver
opened_driver = record driver { gbm_dev = 40 }

abbrev pub opened_state : State (Ptr → Ptr) (List Buffer)
opened_state = record blank { driver = live opened_driver; next = 51 }

pub initialised : gralloc_gbm_init careful blank ≡ done (ok, opened_state)
unfolding gralloc_gbm_init open_device
initialised = refl

pub opened_state-IsSound : IsSound careful opened_state (λ k. none)
opened_state-IsSound =
    start-IsSound careful careful-IsHash opened_state opened_driver
      (record { is_live = refl; is_ready = refl; empty = refl; started = λ e. omega arith })

granted : Grants config careful opened_state desc opened_driver
granted = record {
  is_live = refl;
  is_ready = refl;
  memory = λ n. refl;
  next_ne = λ e. omega arith;
  handle = refl;
  object = λ e. omega arith;
  fresh = tt;
}

abbrev made : State (Ptr → Ptr) (List Buffer)
made = last config careful opened_state desc opened_driver

abbrev made_handle : Handle
made_handle = new_handle config careful opened_state desc opened_driver

nothing_there : (fd : ℕ) → lookup fd [] ≡ none
unfolding lookup
nothing_there fd = refl

creates : Step config careful opened_state made
creates =
    creation desc _
      (new-IsSound config careful careful-IsHash careful-KeepsUserData opened_state (λ k. none)
        opened_state-IsSound desc opened_driver granted tt).0
      (λ h stride e. nothing_there h.prime_fd)

unlocked : gralloc_gbm_android_buffer_unlock careful made_handle made ≡ done (ok, made)
unfolding gralloc_gbm_android_buffer_unlock find_buffer_k unlock_found unlock_bo get_user_data
    lookup load
unlocked = refl

-- The initialisation, a creation, and an unlock of the new buffer.
three_steps : Reach config careful blank made
three_steps =
    after (after (after here (initialising ok initialised)) creates)
      (unlocking made_handle ok unlocked)

reachable-HasPhase_example : HasPhase careful made
reachable-HasPhase_example =
    reachable-HasPhase config careful careful-IsHash careful-KeepsUserData careful-MapsWhole
      careful-MakesNewObjects (λ n. refl) blank made blank-IsUnopened three_steps

reachable-AllEnd_example :
    AllEnd config careful careful-IsHash careful-KeepsUserData careful-MapsWhole
      careful-MakesNewObjects
      (λ n. refl)
      made
      made_handle
reachable-AllEnd_example =
    reachable-AllEnd config careful careful-IsHash careful-KeepsUserData careful-MapsWhole
      careful-MakesNewObjects (λ n. refl) blank made opened_driver blank-IsUnopened three_steps refl
      made_handle

-- The first buffer, locked once for rendering.
abbrev rendering : BoData
rendering = record (new_data 5) { lock_count = 1; locked_for = Usage.hw_render }

abbrev locked : State (Ptr → Ptr) (List Buffer)
locked = put stocked 5 rendering

locked-Manages : Manages sample locked held_handle first_buffer 5 rendering
locked-Manages = managed_after stocked-Manages (record {
  at = refl;
  elsewhere = λ q ne. rw (==_ne q 5 ne) refl;
  user_data = λ bo. refl;
  table = refl;
  driver = refl;
  block = refl;
  next = refl;
})

rendering-IsConsistent : IsConsistent rendering
rendering-IsConsistent = record { idle = λ e. omega arith; mapped = refl; single = λ ne. refl }

unlock_times-IsUnlocked_example :
    (t : State (Ptr → Ptr) (List Buffer)) × (unlock_times sample held_handle 1 locked
      ≡ done (tt, t))
    × IsUnlocked sample t held_handle first_buffer 5
unlock_times-IsUnlocked_example =
    unlock_times-IsUnlocked sample sample-KeepsUserData sample-MapsWhole held_handle first_buffer 5
      locked rendering locked-Manages rendering-IsConsistent
