-- ===== src/Tests/Lifetime.antt =====
-- The theorems on the driver, at concrete states.
use gralloc_gbm.Base.{refl, List}
use gralloc_gbm.Machine.{Ptr}
use gralloc_gbm.Platform.{Buffer}
use gralloc_gbm.State.{State, no_driver}
use gralloc_gbm.Driver.{gralloc_gbm_init}
use gralloc_gbm.Driver.Lifecycle.{Ends, gralloc_gbm_init-Ends}
use gralloc_gbm.Tests.{sample, ready_state}

abbrev start : State (Ptr → Ptr) (List Buffer)
start = record ready_state { driver = no_driver }

gralloc_gbm_init-Ends_example : Ends (gralloc_gbm_init sample start)
gralloc_gbm_init-Ends_example = gralloc_gbm_init-Ends sample start refl
