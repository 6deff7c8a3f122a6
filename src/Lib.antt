-- ===== src/Lib.antt =====
-- gralloc_gbm: the graphics memory allocator of Android on top of libgbm.
--
-- The C library common/gralloc_gbm.c creates, imports, frees, locks and queries buffers. It keeps
-- one driver and one hash table from descriptors to buffer objects, and hangs its data on each
-- buffer object as libgbm's user data. Its functions are the modules below; names are those of the
-- source.
--
--   * Word, Machine: 32-bit words, results, undefined behaviour as faults, the state monad.
--   * Hal, Gbm: the constants of Android's and libgbm's headers.
--   * Format: include/gralloc_gbm_format.h, both tables and all functions.
--   * Flags: gralloc_gbm_calculate_gbm_flags; the macros of the build are the record Config.
--   * Size: the sizes asked for in gralloc_gbm_android_buffer_new and _import.
--   * Stride: gralloc_gbm_calculate_android_pixel_stride.
--   * Platform: what libc, libcutils, libgbm and uthash do, a parameter; Platform/Laws and IsHash of
--     Table/Entries state what their headers document, and the proofs name the laws they use.
--   * State: the two globals, the live gbm_bo_data_t, the other live blocks, and the allocator.
--   * Driver: g_driver, gralloc_gbm_init, gralloc_gbm_deinit.
--   * Table: android_buffer_table and its functions; Table/Map is about it as a finite map.
--   * BoData: gbm_bo_data_t, its creation, destruction, mapping and unmapping.
--   * Handle: gralloc_handle_t of include/drm/android/gralloc_handle.h, and the descriptor.
--   * Lock: the lock and the unlock. Lock/Count is a machine on the data of one buffer, Lock/Run and
--     Lock/Calls compare the code with it, Lock/Sequences follows runs.
--   * Buffer: the check of a descriptor, and _new, _import, _free, _query and _get_extdata.
--   * Library: the calls of the library together: an invariant of the state, that each call keeps it
--     (Created, Creations, Imports, Freed, Locked, Queried, over Added, Changed, Fresh and Outside), how
--     a process starts (Start), which calls leave the driver alone (Drivers), and sequences of calls as
--     a step relation (Steps, Reach).
--   * Allocator: the allocator service of allocator/. Allocator/Gbm and Allocator/DmaBuf are its backends
--     (allocator/backend/), Allocator/Service is allocator/Allocator.cpp; libdmabufheap, the duplication
--     of handles and the decoder of descriptors are the parameter Services. Allocator/Released,
--     Allocator/Granted and Allocator/Outcomes follow a request to the GBM backend, Allocator/Blobs one
--     to the other, Allocator/Service/Selection the choice between them. Allocator/Main is
--     allocator/Main.cpp, and Allocator/Started the state behind it. Allocator/Threads has the requests
--     of several threads as a step relation on the one mBackend; Together and Crossed are about it, with
--     Allocator/Kept, which says what leaves mBackend alone. Allocator/Pointers has the shared and weak
--     pointers behind the selection, and its children compare them with the mBackend of the service.
--   * Mapper: mapper_stablec/. Mapper/DmaBuf and Mapper/Blobs are backend/MapperDmaBuf.cpp, with the
--     parameter DmaSystem for libc and libdmabufheap; Mapper/Imported follows its runs, and
--     Mapper/Tracked is about its table between calls, with sequences of calls in
--     Mapper/Tracked/Steps. Mapper/Gbm and Mapper/Metadata are backend/MapperGrallocGbm.cpp, and
--     Mapper/Settings follows the runs of the latter. Mapper/Standard has the types of the metadata.
--     Mapper/Front and its children are Mapper.cpp: the selection of a backend, the requests (Requests,
--     Standards) and the list of supported types (Supported); the others are about them, from one
--     request (Routing, Results, Unsupported) to several (Session). Mapper/Life has sequences of requests
--     as a step relation (Steps, Reach), with what holds of both backends between requests, and what
--     each request makes of it. Mapper/Singletons has the shared and weak pointers to the backends, and
--     its children compare them with the state that Front keeps. MapperSystem is what libcutils and the
--     helpers of IMapperMetadataTypes.h do.
--   * Planes: mapper_stablec/MapperPlaneLayouts.hpp, the table and the search in it.
--   * Tests: a concrete platform and concrete runs.
--
-- A buffer is found in the table by its descriptor, its object points to its data by the user data,
-- and the data is read and written in the state at its address; so a module's functions meet only in
-- the state. Every loop of the library goes through a table or a list once, so all functions are
-- structural and there is no fuel. A word is its bit pattern below 2 ^ 32. An address is a number,
-- the n-th allocation of the program returns n or fails, and 0 is NULL.
--
-- Not modelled: messages (a call of libgbm among their arguments is), the scheduling class of the service,
-- uthash and libgbm themselves, and the contents of the HDR metadata.
-- The mutexes around the shared pointers of the service and of the mapper, and AIMapper_loadIMapper are
-- left out. One call runs at a time, but for the service: there the threads take turns at the parts of
-- their requests, each of which is one step.
mod Base
pub mod Word
pub mod Machine
pub mod Hal
pub mod Gbm
pub mod Format
pub mod Flags
pub mod Size
pub mod Platform
pub mod State
pub mod Driver
pub mod Table
pub mod BoData
pub mod Handle
pub mod Library
pub mod Lock
pub mod Stride
pub mod Buffer
pub mod Allocator
pub mod Planes
pub mod Mapper
mod Tests
