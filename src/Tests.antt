-- ===== src/Tests.antt =====
-- A platform on which the theorems of the library are tried: buffer objects live at two addresses,
-- every mapping is made, and the table is a list. Its state is the user data of each object.
mod Lifetime
mod Access
mod Layout
mod Buffers
mod Requests
mod Mapped
mod Planar
mod Allocations
mod Front
mod Careful
mod Runs
mod Singletons
mod Life
mod Threads
use gralloc_gbm.Base.{
  ℕ, ◌-◌, ◌^◌, ◌≡◌, ◌≢◌, refl, Bool, true, false, List, [], ◌∷◌, ◌++◌, Option, none, some, ◌==◌,
  ==_ne, ==_refl, arith, if◌then◌else◌,
}
use gralloc_gbm.Machine.{Ptr, null, done}
use gralloc_gbm.Flags.{Config}
use gralloc_gbm.Platform.{Platform, Buffer, Mapping}
use gralloc_gbm.Platform.Laws.{KeepsUserData, MapsWhole}
use gralloc_gbm.State.{State, Driver, live, update, empty_bo_data}
use gralloc_gbm.Table.{find_buffer_k}
use gralloc_gbm.Table.Map.{BufferMap, Represents}
use gralloc_gbm.Table.Entries.{lookup, without, IsHash}

abbrev pub sample : Platform (Ptr → Ptr) (List Buffer)
sample = record {
  no_memory = λ n. false;
  open_render_node = λ w. (3, w);
  close_fd = λ w fd. w;
  handle_create = λ w. (true, w);
  create_device = λ w fd. (40, w);
  destroy_device = λ w dev. w;
  device_fd = λ w dev. 3;
  backend_name = λ w dev. "dri";
  is_format_supported = λ w dev format flags. true;
  bo_create = λ w dev size format flags. (70, update w 70 null);
  bo_import = λ w dev i flags. (80, update w 80 null);
  bo_destroy = λ w bo. update w bo null;
  bo_map = λ w bo size flags. (record { address = 100; stride = 256; map_data = 200 }, w);
  bo_unmap = λ w bo m. w;
  bo_width = λ w bo. 64;
  bo_height = λ w bo. 64;
  bo_stride = λ w bo. 256;
  bo_format = λ w bo. 0;
  bo_modifier = λ w bo. 0;
  bo_plane_count = λ w bo. 1;
  bo_fd = λ w bo. (9, w);
  get_user_data = λ w bo. w bo;
  set_user_data = update;
  hash_find = λ t fd. lookup fd t;
  hash_add = λ t b. t ++ b ∷ [];
  hash_del = λ t b. without b.address t;
  hash_iter = λ t. t;
}

kept : (w : Ptr → Ptr) (bo d other : Ptr) → other ≢ bo → update w bo d other ≡ w other
kept w bo d other ne = rw (==_ne other bo ne)

set : (w : Ptr → Ptr) (bo d : Ptr) → update w bo d bo ≡ d
set w bo d = rw (==_refl bo)

pub sample-KeepsUserData : KeepsUserData sample
sample-KeepsUserData = record {
  set_self = set;
  set_other = kept;
  map = λ w bo size flags other. refl;
  unmap = λ w bo m other. refl;
  fd = λ w bo other. refl;
  handle = λ w other. refl;
  create = λ w dev size format flags other ne. kept w 70 null other ne;
  create_new = λ w dev size format flags. refl;
  import = λ w dev i flags other ne. kept w 80 null other ne;
  import_new = λ w dev i flags. refl;
  destroy = λ w bo other ne. kept w bo null other ne;
}

pub sample-MapsWhole : MapsWhole sample
sample-MapsWhole = record {
  failed = λ w bo size flags e. omega arith;
  made = λ w bo size flags ne e. omega arith;
}

pub sample-IsHash : IsHash sample
sample-IsHash = record { iter_add = λ t b. refl; iter_del = λ t b. refl; find = λ t fd h. refl }

-- Two buffers; the first one is on the object 70, whose data is at 5.
abbrev pub first_buffer : Buffer
first_buffer = record { address = 11; fd = 21; bo = 70 }

abbrev pub second_buffer : Buffer
second_buffer = record { address = 12; fd = 22; bo = 80 }

abbrev pub driver : Driver
driver = record { ready = true; dri_fd = 3; gbm_dev = 40; gbm_dev_fd = 3; gbm_backend_name = "dri" }

abbrev pub ready_state : State (Ptr → Ptr) (List Buffer)
ready_state = record {
  world = λ bo. if bo == 70 then 5 else null;
  table = first_buffer ∷ [];
  driver = live driver;
  bo_data = λ d. if d == 5 then some empty_bo_data else none;
  block = λ q. false;
  next = 50;
}

abbrev pub config : Config
config = record {
  use_sw_render = false;
  no_cursor_rendering = true;
  no_cursor_aligning = false;
  has_cursor = true;
}

-- The map that the table of this state represents.
abbrev pub one_buffer : BufferMap
one_buffer k = lookup k (first_buffer ∷ [])

pub one_buffer-Represents : Represents sample ready_state one_buffer
unfolding find_buffer_k
one_buffer-Represents = record { table = (tt, tt); finds = λ k. refl }
