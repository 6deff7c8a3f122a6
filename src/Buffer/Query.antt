-- ===== src/Buffer/Query.antt =====
-- gralloc_gbm_android_buffer_query of common/gralloc_gbm.c on a managed buffer.
use gralloc_gbm.Base.{◌*◌, ◌/◌, ◌≡◌, ◌∙◌, arith, some, ==_ne}
use gralloc_gbm.Base.Bits.{has}
use gralloc_gbm.Machine.{Ptr, null, ok, done}
use gralloc_gbm.Word.{u32}
use gralloc_gbm.Hal.Usage
use gralloc_gbm.Format.{color_fmt_a2g, color_bytes_per_pixel}
use gralloc_gbm.Format.Depth.{HasDepth, bytes_per_pixel_bounds}
use gralloc_gbm.Stride.Pixels.{stride_divides}
use gralloc_gbm.Platform.{Platform, Buffer}
use gralloc_gbm.Platform.Laws.{KeepsUserData}
use gralloc_gbm.State.{State, BoData}
use gralloc_gbm.Handle.{Handle}
use gralloc_gbm.Table.{find_buffer_k}
use gralloc_gbm.BoData.Steps.{Carries, load_lem, user_data_init_lem}
use gralloc_gbm.Lock.Calls.{Manages}
use gralloc_gbm.Buffer.{BufferInfo, query_bo, query_found, gralloc_gbm_android_buffer_query}

module _ {W T : Type 0} (p : Platform W T) (keeps : KeepsUserData p) (s : State W T) (h : Handle)
    (b : Buffer) (d : Ptr) (x : BoData) (m : Manages p s h b d x) (sized : HasDepth h.format) where
  -- The state behind the call of `gbm_bo_get_fd`.
  abbrev pub with_fd : State W T
  with_fd = record s { world = (p.bo_fd s.world b.bo).1 }

  carried : Carries p with_fd b.bo d x
  carried = record {
    bo_ne = m.carries.bo_ne;
    data_ne = m.carries.data_ne;
    points = keeps.fd s.world b.bo b.bo ∙ m.carries.points;
    holds = m.carries.holds;
  }

  -- The answer of a query.
  abbrev pub answer : BufferInfo
  answer =
      let w = with_fd.world in
      record {
        fd = (p.bo_fd s.world b.bo).0;
        buffer_id = b.address;
        width = p.bo_width w b.bo;
        height = p.bo_height w b.bo;
        layer_count = 1;
        plane_count = p.bo_plane_count w b.bo;
        android_format = h.format;
        gbm_format = p.bo_format w b.bo;
        modifier = p.bo_modifier w b.bo;
        usage = h.usage;
        size = u32 (p.bo_stride w b.bo * p.bo_height w b.bo);
        stride = p.bo_stride w b.bo / color_bytes_per_pixel (color_fmt_a2g h.format);
        is_protected = has h.usage Usage.protected;
        metadata = x.metadata;
      }

  pub query_lem : gralloc_gbm_android_buffer_query p h s ≡ done ((ok, some answer), with_fd)
  unfolding gralloc_gbm_android_buffer_query find_buffer_k query_found query_bo
  query_lem = rw (
    m.found,
    ==_ne b.bo null m.carries.bo_ne,
    user_data_init_lem carried,
    load_lem with_fd x d m.carries.data_ne m.carries.holds,
    stride_divides h.format (p.bo_stride with_fd.world b.bo)
        (omega (arith, (bytes_per_pixel_bounds h.format sized).0)),
  )
