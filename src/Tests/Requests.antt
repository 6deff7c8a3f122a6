-- ===== src/Tests/Requests.antt =====
-- The theorems on the allocator service, at concrete requests.
use gralloc_gbm.Base.{◌≡◌, refl, true, false, List, none, some, [], length}
use gralloc_gbm.Machine.{Ptr, done}
use gralloc_gbm.Hal.Usage
use gralloc_gbm.Hal.Pixel
use gralloc_gbm.Platform.{Buffer}
use gralloc_gbm.Allocator.{status_ok, Info, Allocation, dma_buf, Services, ServiceState}
use gralloc_gbm.Allocator.DmaBuf.{dma_allocate2}
use gralloc_gbm.Allocator.Blobs.{NeverFails, dma_allocate2-count}
use gralloc_gbm.Tests.{sample, ready_state}

abbrev pub services : Services (Ptr → Ptr)
services = record {
  has_no_heap = λ w. false;
  alloc_system = λ w size. (60, w);
  dup_to_aidl = λ w h. (record h { prime_fd = 61 }, w);
  handle_close = λ w h. w;
  decode = λ bytes. none;
}

-- A service whose last request was for a blob.
abbrev serving : ServiceState (Ptr → Ptr) (List Buffer)
serving = record { library = ready_state; has_heaps = true; backend = some dma_buf }

abbrev pub blob : Info
blob = record {
  name = "blob";
  size = record { width = 4096; height = 1 };
  layer_count = 1;
  format = Pixel.blob;
  usage = Usage.sw_read_often;
  reserved_size = 0;
  option_names = [];
}

-- An image with two layers, which no backend supports.
abbrev pub layered : Info
layered = record blob {
  size = record { width = 64; height = 64 };
  layer_count = 2;
  format = Pixel.rgba_8888;
}

services-NeverFails : NeverFails sample services
services-NeverFails = record { handle = λ w. refl; descriptor = λ w size. refl }

dma_allocate2-count_example :
    (a : Allocation) × (t : ServiceState (Ptr → Ptr) (List Buffer)) × (dma_allocate2 sample services
        blob 3 serving
      ≡ done ((status_ok, some a), t))
    × (length a.buffers ≡ 3)
dma_allocate2-count_example =
    dma_allocate2-count sample services services-NeverFails blob 3 serving refl refl
