-- ===== src/Allocator/Threads.antt =====
-- allocator/Allocator.cpp in the thread pool of allocator/Main.cpp: requests of several threads, on the
-- one `mBackend` of the service, which no lock guards.
pub mod Together
pub mod Crossed
use gralloc_gbm.Base.{ℕ, ◌≡◌, Bool, true, false, Option, none, some}
use gralloc_gbm.Machine.{Status, null_deref, done, Action, stop, ◌>>=◌, gets}
use gralloc_gbm.Flags.{Config}
use gralloc_gbm.Platform.{Platform}
use gralloc_gbm.State.{update}
use gralloc_gbm.Allocator.{BinderStatus, Info, Allocation, Backend, Services, ServiceState}
use gralloc_gbm.Allocator.Service.{backend_allocate2, select_backend, check_backend}

-- What a thread has done of `allocate2`: nothing, `selectBackend`, or `CHECK_BACKEND` as well.
pub data Phase : Type 0 where
  idle : Phase
  chosen checked : Info → (count : ℕ) → Phase

-- The service and its threads, by number.
pub record Pool (W T : Type 0) : Type 0 where
  pub service : ServiceState W T
  pub phase : ℕ → Phase

-- The pool as it starts.
abbrev pub serving : {W T : Type 0} → ServiceState W T → Pool W T
serving s = record { service = s; phase = λ i. idle }

-- What `CHECK_BACKEND` makes of a thread: it goes on, or returns to its caller.
abbrev pub after_check : Option Backend → Info → (count : ℕ) → Phase
after_check none info count = idle
after_check (some b) info count = checked info count

module _ {W T : Type 0} (c : Config) (p : Platform W T) (v : Services W) where
  -- `mBackend->allocate2`, which reads `mBackend` anew.
  unfoldable pub run_current :
      Info → (count : ℕ) → Action (ServiceState W T) (BinderStatus × Option Allocation)
  run_current info count = do
    current ← gets λ s. s.backend
    elim current [ none ↦ stop null_deref | some b ↦ backend_allocate2 c p v b info count ]

  -- One thread runs one of the three parts of a request, as a whole.
  pub data PoolStep : Pool W T → Pool W T → Type 0 where
    selecting :
        {x : Pool W T} (i : ℕ) (info : Info) (count : ℕ) (r : Status) (t : ServiceState W T)
        → x.phase i ≡ idle
        → select_backend c p v info x.service ≡ done (r, t)
        → PoolStep x (record { service = t; phase = update x.phase i (chosen info count) })
    checking :
        {x : Pool W T} (i : ℕ) (info : Info) (count : ℕ) (found : Option Backend)
        (t : ServiceState W T)
        → x.phase i ≡ chosen info count
        → check_backend p v x.service ≡ done (found, t)
        → PoolStep x
            (record { service = t; phase = update x.phase i (after_check found info count) })
    running :
        {x : Pool W T} (i : ℕ) (info : Info) (count : ℕ) (r : BinderStatus × Option Allocation)
        (t : ServiceState W T)
        → x.phase i ≡ checked info count
        → run_current info count x.service ≡ done (r, t)
        → PoolStep x (record { service = t; phase = update x.phase i idle })

  -- Any number of such parts, of any threads in any order.
  pub data PoolReach : Pool W T → Pool W T → Type 0 where
    here : {x : Pool W T} → PoolReach x x
    after : {x y z : Pool W T} → PoolReach x y → PoolStep y z → PoolReach x z
