-- ===== src/Tests/Buffers.antt =====
-- The theorems on making and freeing buffers, at concrete states.
use gralloc_gbm.Base.{◌≡◌, refl, List, none, some, ◌==◌, ◌||◌, arith, if◌then◌else◌}
use gralloc_gbm.Machine.{Ptr, ok, done, fault, use_after_free}
use gralloc_gbm.Hal.Usage
use gralloc_gbm.Hal.Pixel
use gralloc_gbm.Platform.{Buffer}
use gralloc_gbm.State.{State, Metadata, empty_metadata}
use gralloc_gbm.Handle.{Handle, Descriptor}
use gralloc_gbm.Handle.Create.{fresh_handle}
use gralloc_gbm.Table.{find_buffer_k}
use gralloc_gbm.Table.Entries.{lookup}
use gralloc_gbm.Table.Map.{Represents, insert}
use gralloc_gbm.Lock.Count.{IsConsistent}
use gralloc_gbm.Lock.Calls.{Manages}
use gralloc_gbm.Buffer.{
  register_import, gralloc_gbm_android_buffer_new, gralloc_gbm_android_buffer_import,
  gralloc_gbm_android_buffer_free,
}
use gralloc_gbm.Buffer.Creation.{new_data}
use gralloc_gbm.Buffer.Made.{Grants, new_handle, new_buffer, last, buffer_new-Manages}
use gralloc_gbm.Buffer.Imported.{
  GrantsImport, imported, with_object, all_imported, buffer_import-Faults,
}
use gralloc_gbm.Buffer.Release.{HasBlocks, Released, buffer_free-Released}
use gralloc_gbm.Format.{color_fmt_a2g, color_format_map}
use gralloc_gbm.Format.Depth.{HasDepth}
use gralloc_gbm.Lock.Run.{Runs}
use gralloc_gbm.Mapper.Standard.{blend_mode, number, provided}
use gralloc_gbm.Mapper.Metadata.{set_standard_metadata, gbm_query_metadata}
use gralloc_gbm.Mapper.Settings.{set_standard_metadata-Runs, get-set_blend_mode}
use gralloc_gbm.Tests.{
  sample, sample-KeepsUserData, sample-IsHash, first_buffer, ready_state, driver, config,
  one_buffer, one_buffer-Represents,
}

abbrev pub desc : Descriptor
desc = record {
  name = "screen";
  size = record { width = 64; height = 64 };
  layer_count = 1;
  format = Pixel.rgba_8888;
  usage = Usage.hw_render;
  reserved_size = 0;
}

granted : Grants config sample ready_state desc driver
granted = record {
  is_live = refl;
  is_ready = refl;
  memory = λ n. refl;
  next_ne = λ e. omega arith;
  handle = refl;
  object = λ e. omega arith;
  fresh = ((λ e. omega arith, λ e. omega arith), tt);
}

abbrev state_made : State (Ptr → Ptr) (List Buffer)
state_made = last config sample ready_state desc driver

abbrev handle_made : Handle
handle_made = new_handle config sample ready_state desc driver

abbrev buffer_made : Buffer
buffer_made = new_buffer config sample ready_state desc driver

buffer_new-Manages_example :
    (gralloc_gbm_android_buffer_new config sample desc ready_state
      ≡ done ((ok, some (handle_made, 256)), state_made))
    × Represents sample state_made (insert buffer_made one_buffer)
    × Manages sample state_made handle_made buffer_made 50 (new_data 50)
    × IsConsistent (new_data 50)
    × ((new_data 50).lock_count ≡ 0)
buffer_new-Manages_example =
    buffer_new-Manages config sample sample-IsHash sample-KeepsUserData ready_state one_buffer
      one_buffer-Represents desc driver granted

abbrev pub foreign : Handle
foreign =
    record (fresh_handle (record { width = 64; height = 64 }) Pixel.rgba_8888 Usage.hw_render) {
      prime_fd = 33;
      stride = 256;
    }

pub import_granted : GrantsImport config sample ready_state foreign driver
import_granted = record {
  is_live = refl;
  is_ready = refl;
  memory = λ n. refl;
  next_ne = λ e. omega arith;
  object = λ e. omega arith;
  fresh = ((λ e. omega arith, λ e. omega arith), tt);
}

abbrev state_imported : State (Ptr → Ptr) (List Buffer)
state_imported = all_imported config sample ready_state foreign driver

abbrev buffer_imported : Buffer
buffer_imported = imported config sample ready_state foreign driver

buffer_import-Faults_example :
    (register_import sample foreign 80 (with_object config sample ready_state foreign driver)
      ≡ done (ok, state_imported))
    × Represents sample state_imported (insert buffer_imported one_buffer)
    × Manages sample state_imported foreign buffer_imported 51 (new_data 51)
    × IsConsistent (new_data 51)
    × ((new_data 51).lock_count ≡ 0)
    × (gralloc_gbm_android_buffer_import config sample foreign ready_state ≡ fault use_after_free)
buffer_import-Faults_example =
    buffer_import-Faults config sample ready_state foreign driver sample-IsHash sample-KeepsUserData
      one_buffer one_buffer-Represents import_granted

-- The first buffer, with its metadata in the blocks 6, 7 and 8.
abbrev pub stocked : State (Ptr → Ptr) (List Buffer)
stocked = record ready_state {
  bo_data = λ d. if d == 5 then some (new_data 5) else none;
  block = λ q. (q == 6) || ((q == 7) || (q == 8));
}

abbrev pub held_handle : Handle
held_handle = record foreign { prime_fd = 21 }

pub stocked-Manages : Manages sample stocked held_handle first_buffer 5 (new_data 5)
unfolding lookup
stocked-Manages = record {
  driver = driver;
  is_live = refl;
  is_ready = refl;
  found = refl;
  carries = record {
    bo_ne = λ e. omega arith;
    data_ne = λ e. omega arith;
    points = refl;
    holds = refl;
  };
}

stocked-HasBlocks : HasBlocks stocked (new_data 5)
stocked-HasBlocks = record {
  smpte2086_ne = λ e. omega arith;
  cta861_3_ne = λ e. omega arith;
  smpte2086 = refl;
  cta861_3 = refl;
  smpte2094_50 = refl;
  apart = λ e. omega arith;
  apart_first = λ e. omega arith;
  apart_second = λ e. omega arith;
}

stocked-Represents : Represents sample stocked one_buffer
unfolding find_buffer_k
stocked-Represents = record { table = (tt, tt); finds = λ k. refl }

buffer_free-Released_example :
    (t : State (Ptr → Ptr) (List Buffer)) × (gralloc_gbm_android_buffer_free sample held_handle
        stocked
      ≡ done (ok, t))
    × Released sample sample-IsHash stocked held_handle first_buffer 5
        (new_data 5)
        stocked-Manages
        stocked-HasBlocks
        one_buffer
        stocked-Represents
        t
buffer_free-Released_example =
    buffer_free-Released sample sample-IsHash stocked held_handle first_buffer 5 (new_data 5)
      stocked-Manages stocked-HasBlocks one_buffer stocked-Represents

pub rgba_8888-HasDepth : HasDepth Pixel.rgba_8888
unfolding color_fmt_a2g color_format_map
rgba_8888-HasDepth = record {
  listed = λ e. omega arith;
  not_p010 = λ e. omega arith;
  not_unknown = λ e. omega arith;
}

abbrev bright : Metadata
bright = record empty_metadata { dataspace = 3; blend_mode = 2 }

set_standard_metadata-Runs_example :
    Runs sample stocked 5
      (set_standard_metadata sample held_handle blend_mode bright stocked)
      ok
      (record (new_data 5) {
        metadata = record (new_data 5).metadata { blend_mode = bright.blend_mode };
      })
set_standard_metadata-Runs_example =
    set_standard_metadata-Runs sample stocked held_handle first_buffer 5 (new_data 5)
      stocked-Manages blend_mode bright

get-set_blend_mode_example :
    (t : State (Ptr → Ptr) (List Buffer)) × (u : State (Ptr → Ptr) (List Buffer))
    × (set_standard_metadata sample held_handle blend_mode bright stocked ≡ done (ok, t))
    × (gbm_query_metadata sample held_handle blend_mode t ≡ done (provided (number 0), u))
get-set_blend_mode_example =
    get-set_blend_mode sample sample-KeepsUserData stocked held_handle first_buffer 5 (new_data 5)
      stocked-Manages rgba_8888-HasDepth bright
