-- ===== src/Tests/Allocations.antt =====
-- The theorems on requests to the allocator's GBM backend, on a platform that makes one object.
use gralloc_gbm.Base.{
  ◌≡◌, ◌≢◌, refl, true, List, [], ◌∷◌, none, some, ◌==◌, arith, if◌then◌else◌, length,
}
use gralloc_gbm.Machine.{Ptr, null, done}
use gralloc_gbm.Platform.{Platform, Buffer}
use gralloc_gbm.Platform.Laws.{KeepsUserData, MapsWhole}
use gralloc_gbm.State.{State, update}
use gralloc_gbm.Handle.{Handle}
use gralloc_gbm.Table.Entries.{IsHash}
use gralloc_gbm.Format.{color_fmt_a2g, color_format_map}
use gralloc_gbm.Flags.{calculate_gbm_flags, bad_dumb_buffer, usage_flags, add_flag, drop_cursor}
use gralloc_gbm.Driver.{is_gralloc_gbm_ready, gbm_dev}
use gralloc_gbm.Buffer.{is_allocator_desc_supported, is_desc_plausible}
use gralloc_gbm.Buffer.Made.{Grants, new_handle, last}
use gralloc_gbm.Library.{IsSound}
use gralloc_gbm.Library.Start.{start-IsSound}
use gralloc_gbm.Allocator.{status_ok, service_error, unsupported, Allocation, ServiceState}
use gralloc_gbm.Allocator.Gbm.{gralloc_gbm_allocate}
use gralloc_gbm.Allocator.Released.{KeepsObjects}
use gralloc_gbm.Allocator.Granted.{Makes, makes_none, makes_more}
use gralloc_gbm.Allocator.Outcomes.{
  RefusesObject, gralloc_gbm_allocate_granted, gralloc_gbm_allocate_rolled_back,
}
use gralloc_gbm.Tests.{
  sample, sample-KeepsUserData, sample-MapsWhole, sample-IsHash, driver, config,
}
use gralloc_gbm.Tests.Buffers.{desc, rgba_8888-HasDepth}
use gralloc_gbm.Tests.Runs.{start}
use gralloc_gbm.Tests.Requests.{services}

-- An object is made while the one at 70 has no user data.
abbrev create_one : (Ptr → Ptr) → Ptr × (Ptr → Ptr)
create_one w = if w 70 == null then (70, update w 70 null) else (null, update w null null)

abbrev single : Platform (Ptr → Ptr) (List Buffer)
single = record sample { bo_create = λ w dev size format flags. create_one w }

creates_elsewhere :
    (w : Ptr → Ptr) (other : Ptr) → other ≢ (create_one w).0 → (create_one w).1 other ≡ w other
creates_elsewhere w other ne = ground arith

creates_bare : (w : Ptr → Ptr) → (create_one w).1 (create_one w).0 ≡ null
creates_bare w = ground arith

single-KeepsUserData : KeepsUserData single
single-KeepsUserData = record {
  set_self = sample-KeepsUserData.set_self;
  set_other = sample-KeepsUserData.set_other;
  map = sample-KeepsUserData.map;
  unmap = sample-KeepsUserData.unmap;
  fd = sample-KeepsUserData.fd;
  handle = sample-KeepsUserData.handle;
  create = λ w dev size format flags other ne. creates_elsewhere w other ne;
  create_new = λ w dev size format flags. creates_bare w;
  import = sample-KeepsUserData.import;
  import_new = sample-KeepsUserData.import_new;
  destroy = sample-KeepsUserData.destroy;
}

single-MapsWhole : MapsWhole single
single-MapsWhole = record { failed = sample-MapsWhole.failed; made = sample-MapsWhole.made }

single-IsHash : IsHash single
single-IsHash = record {
  iter_add = sample-IsHash.iter_add;
  iter_del = sample-IsHash.iter_del;
  find = sample-IsHash.find;
}

services-KeepsObjects : KeepsObjects single services
services-KeepsObjects = record { dup = λ w h bo. refl; close = λ w h bo. refl }

-- A service whose library has a ready driver and no buffer.
abbrev service : ServiceState (Ptr → Ptr) (List Buffer)
service = record { library = record start { world = λ bo. null }; has_heaps = true; backend = none }

service-IsSound : IsSound single service.library (λ k. none)
service-IsSound =
    start-IsSound single single-IsHash service.library driver
      (record { is_live = refl; is_ready = refl; empty = refl; started = λ e. omega arith })

granted : Grants config single service.library desc driver
granted = record {
  is_live = refl;
  is_ready = refl;
  memory = λ n. refl;
  next_ne = λ e. omega arith;
  handle = refl;
  object = λ e. omega arith;
  fresh = tt;
}

abbrev made_state : State (Ptr → Ptr) (List Buffer)
made_state = last config single service.library desc driver

abbrev made_handles : List Handle
made_handles = new_handle config single service.library desc driver ∷ []

one_made : Makes config single desc driver service.library made_handles made_state
one_made = makes_more granted tt makes_none

supported :
    is_allocator_desc_supported config single (some desc) service.library
    ≡ done (true, service.library)
unfolding is_allocator_desc_supported is_desc_plausible is_gralloc_gbm_ready gbm_dev
    calculate_gbm_flags color_fmt_a2g color_format_map bad_dumb_buffer usage_flags add_flag
    drop_cursor
supported = refl

gralloc_gbm_allocate_granted_example :
    (a : Allocation) × (u : State (Ptr → Ptr) (List Buffer)) × (gralloc_gbm_allocate config single
        services desc 1 service
      ≡ done ((status_ok, some a), record service { library = u }))
    × (length a.buffers ≡ 1)
    × IsSound single u (λ k. none)
gralloc_gbm_allocate_granted_example =
    gralloc_gbm_allocate_granted config single single-IsHash single-KeepsUserData services
      services-KeepsObjects desc driver rgba_8888-HasDepth service (λ k. none) service-IsSound
      supported made_state made_handles one_made refl

no_object : RefusesObject config single made_state desc driver
no_object = record { is_live = refl; is_ready = refl; handle = refl; object = refl }

gralloc_gbm_allocate_rolled_back_example :
    (u : State (Ptr → Ptr) (List Buffer)) × (gralloc_gbm_allocate config single services desc 3
        service
      ≡ done ((service_error unsupported, none), record service { library = u }))
    × IsSound single u (λ k. none)
gralloc_gbm_allocate_rolled_back_example =
    gralloc_gbm_allocate_rolled_back config single single-IsHash single-KeepsUserData services
      services-KeepsObjects desc driver rgba_8888-HasDepth service (λ k. none) service-IsSound
      supported made_state made_handles one_made 1 refl no_object
