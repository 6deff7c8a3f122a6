-- ===== src/Tests/Threads.antt =====
-- The theorems on the threads of the allocator service, at concrete schedules.
use gralloc_gbm.Base.{◌≡◌, refl, true, false, Bool, List, none, some, arith}
use gralloc_gbm.Machine.{Ptr, ok, done}
use gralloc_gbm.Platform.{Buffer}
use gralloc_gbm.State.{update, allocate}
use gralloc_gbm.Format.{color_fmt_a2g, color_format_map}
use gralloc_gbm.Flags.{bad_dumb_buffer, calculate_gbm_flags, usage_flags, add_flag, drop_cursor}
use gralloc_gbm.Library.Start.{IsSoundState}
use gralloc_gbm.Driver.{gralloc_gbm_init, open_device, is_gralloc_gbm_ready, gbm_dev}
use gralloc_gbm.Buffer.{is_allocator_desc_supported, is_desc_plausible}
use gralloc_gbm.Allocator.{Info, gbm, dma_buf, ServiceState, generate_gralloc_generic_desc}
use gralloc_gbm.Allocator.Gbm.{gbm_is_supported}
use gralloc_gbm.Allocator.DmaBuf.{dma_init, dma_is_ready, dma_allocate2}
use gralloc_gbm.Allocator.Main.{main}
use gralloc_gbm.Allocator.Service.{
  init, init_backend, is_ready, check_found, check_backend, select_backend, backend_is_supported,
}
use gralloc_gbm.Allocator.Service.Selection.{select_blob}
use gralloc_gbm.Allocator.Threads.{
  idle, chosen, checked, Pool, serving, run_current, selecting, checking, PoolReach, here, after,
}
use gralloc_gbm.Allocator.Threads.Together.{Runs, checked-Runs}
use gralloc_gbm.Allocator.Threads.Crossed.{crossed_by_blob}
use gralloc_gbm.Tests.{sample, config, ready_state}
use gralloc_gbm.Tests.Careful.{careful, careful-IsHash}
use gralloc_gbm.Tests.Requests.{services, blob, layered}
use gralloc_gbm.Tests.Runs.{blank, blank-IsUnopened, opened_state}

-- The service before and after its start.
abbrev stopped : ServiceState (Ptr → Ptr) (List Buffer)
stopped = record { library = blank; has_heaps = false; backend = none }

abbrev started : ServiceState (Ptr → Ptr) (List Buffer)
started = record { library = opened_state; has_heaps = true; backend = none }

abbrev add_service : (Ptr → Ptr) → Bool × (Ptr → Ptr)
add_service w = (true, w)

starts : main careful services add_service stopped ≡ done (true, started)
unfolding main init init_backend dma_init gralloc_gbm_init open_device
starts = refl

-- The service behind a selection for a blob.
abbrev for_blob : ServiceState (Ptr → Ptr) (List Buffer)
for_blob = record started { backend = some dma_buf }

for_blob_ready : check_backend careful services for_blob ≡ done (some dma_buf, for_blob)
unfolding check_backend check_found is_ready dma_is_ready
for_blob_ready = refl

abbrev two_busy : Pool (Ptr → Ptr) (List Buffer)
two_busy = record {
  service = for_blob;
  phase =
      update (update (update (λ i. idle) 0 (chosen blob 1)) 1 (chosen blob 2)) 0 (checked blob 1);
}

-- Two threads select, and the first checks.
schedule : PoolReach config careful services (serving started) two_busy
schedule =
    after
      (after
        (after here (
          selecting 0 blob 1 ok for_blob refl
            (select_blob config careful services blob started refl)))
        (selecting 1 blob 2 ok for_blob refl
          (select_blob config careful services blob for_blob refl)))
      (checking 0 blob 1 (some dma_buf) for_blob refl for_blob_ready)

checked-Runs_example :
    IsSoundState careful started.library
    × (started.has_heaps ≡ true)
    × Runs config careful services two_busy
checked-Runs_example =
    checked-Runs config careful services add_service careful-IsHash (λ w bo. refl) stopped started
      blank-IsUnopened starts two_busy schedule

-- A service that has opened the device, with idle threads.
abbrev resting : Pool (Ptr → Ptr) (List Buffer)
resting = serving (record { library = ready_state; has_heaps = true; backend = none })

abbrev image : Info
image = record layered { layer_count = 1 }

-- The service behind a selection for the image.
abbrev for_image : ServiceState (Ptr → Ptr) (List Buffer)
for_image = record {
  library = record ready_state { next = 51 };
  has_heaps = true;
  backend = some gbm;
}

selects_gbm : select_backend config sample services image resting.service ≡ done (ok, for_image)
unfolding select_backend backend_is_supported gbm_is_supported generate_gralloc_generic_desc
    is_allocator_desc_supported allocate is_gralloc_gbm_ready is_desc_plausible color_fmt_a2g
    color_format_map bad_dumb_buffer calculate_gbm_flags usage_flags add_flag drop_cursor gbm_dev
selects_gbm = refl

gbm_usable : check_backend sample services for_image ≡ done (some gbm, for_image)
unfolding check_backend check_found is_ready is_gralloc_gbm_ready
gbm_usable = refl

crossed_by_blob_example :
    (y : Pool (Ptr → Ptr) (List Buffer)) × PoolReach config sample services resting y
    × (y.phase 0 ≡ checked image 1)
    × (run_current config sample services image 1 y.service
        ≡ dma_allocate2 sample services image 1 y.service)
crossed_by_blob_example =
    crossed_by_blob config sample services resting 0 1 image blob 1 1 ok for_image for_image
      (λ e. omega (arith, e)) refl refl selects_gbm gbm_usable refl refl
