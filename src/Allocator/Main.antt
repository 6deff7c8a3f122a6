-- ===== src/Allocator/Main.antt =====
-- allocator/Main.cpp: the start of the allocator service. The scheduling of the process is not modelled.
use gralloc_gbm.Base.{Bool, true, false, not, if◌then◌else◌}
use gralloc_gbm.Machine.{assertion_failed, is_ok, Action, pure, stop, ◌>>=◌}
use gralloc_gbm.Platform.{Platform}
use gralloc_gbm.Allocator.{Services, ServiceState, system_call}
use gralloc_gbm.Allocator.Service.{init}

module _ {W T : Type 0} (p : Platform W T) (v : Services W) (add_service : W → Bool × W) where
  -- Whether the thread pool starts; else the process exits. A `CHECK` that fails aborts it.
  unfoldable pub main : Action (ServiceState W T) Bool
  main = do
    ret ← init p v
    if not (is_ok ret) then pure false else do
      registered ← system_call add_service
      if registered then pure true else stop assertion_failed
