-- ===== src/Allocator/Outcomes.antt =====
-- Requests to allocator/backend/AllocatorGrallocGbm.cpp as a whole.
use gralloc_gbm.Base.{
  ℕ, suc, ◌≡◌, refl, ◌∙◌, sym, subst, true, false, none, some, List, [], length, arith, ==_ne,
  eq_of_==, ◌==◌,
}
use gralloc_gbm.Machine.{null, einval, done}
use gralloc_gbm.Word.{is_negative}
use gralloc_gbm.Flags.{Config}
use gralloc_gbm.Format.{color_fmt_a2g}
use gralloc_gbm.Format.Depth.{HasDepth}
use gralloc_gbm.Format.Search.{a2g_pos}
use gralloc_gbm.Platform.{Platform}
use gralloc_gbm.Platform.Laws.{KeepsUserData}
use gralloc_gbm.State.{State, Driver, live}
use gralloc_gbm.Handle.{Handle, Descriptor}
use gralloc_gbm.Handle.Create.{handle_create_lem}
use gralloc_gbm.Table.Entries.{IsHash}
use gralloc_gbm.Table.Map.{BufferMap}
use gralloc_gbm.Buffer.{is_allocator_desc_supported, gralloc_gbm_android_buffer_new}
use gralloc_gbm.Buffer.Made.{made, with_object, is_ready_lem, gbm_dev_lem}
use gralloc_gbm.Library.{IsSound}
use gralloc_gbm.Library.Outside.{world-IsSound}
use gralloc_gbm.Allocator.{
  status_ok, service_error, unsupported, Allocation, Services, ServiceState,
}
use gralloc_gbm.Allocator.Gbm.{make_buffers, gralloc_gbm_allocate}
use gralloc_gbm.Allocator.Released.{KeepsObjects, release_all-IsSound, hand_over-IsSound}
use gralloc_gbm.Allocator.Granted.{
  Makes, and_more, and_more-zero, Makes-IsSound, Makes-make_buffers,
}

-- The driver is ready and a handle is made, but `gbm_bo_create` fails.
pub record RefusesObject {W T : Type 0} (c : Config) (p : Platform W T) (s : State W T)
    (desc : Descriptor) (dr : Driver) : Type 0 where
  pub is_live : s.driver ≡ live dr
  pub is_ready : dr.ready ≡ true
  pub handle : (p.handle_create s.world).0 ≡ true
  pub object : ((made c p s desc dr).0 == null) ≡ true

module _ {W T : Type 0} (c : Config) (p : Platform W T) (keeps : KeepsUserData p) (s : State W T)
    (desc : Descriptor) (dr : Driver) (r : RefusesObject c p s desc dr) where
  refused_lem :
      gralloc_gbm_android_buffer_new c p desc s ≡ done ((einval, none), (with_object c p s desc dr))
  unfolding gralloc_gbm_android_buffer_new
  refused_lem =
      rw
        (
          is_ready_lem s dr r.is_live r.is_ready,
          ==_ne (color_fmt_a2g desc.format) 0 (omega (arith, a2g_pos desc.format)),
          handle_create_lem p s _ desc.format desc.usage r.handle,
          gbm_dev_lem (record s { world = (p.handle_create s.world).1 }) dr r.is_live,
          r.object,
        )
        refl

  refused-IsSound : (f : BufferMap) → IsSound p s f → IsSound p (with_object c p s desc dr) f
  refused-IsSound f v = world-IsSound p s f v (made c p s desc dr).1 λ bo ne.
      keeps.create _ _ _ _ _ bo (λ same. ne (same ∙ eq_of_== _ _ r.object))
      ∙ keeps.handle s.world bo

module _ {W T : Type 0} (c : Config) (p : Platform W T) (hash : IsHash p) (keeps : KeepsUserData p)
    (v : Services W) (objects : KeepsObjects p v) (desc : Descriptor) (dr : Driver)
    (sized : HasDepth desc.format) (srv : ServiceState W T) (f : BufferMap)
    (sound : IsSound p srv.library f)
    (supported : is_allocator_desc_supported c p (some desc) srv.library ≡ done (true, srv.library))
    (t : State W T) (hs : List Handle) (m : Makes c p desc dr srv.library hs t) where
  -- For a format that color_format_map lists with a size (neither P010 nor the unknown format), in a
  -- sound state of the library: where each of the buffers that a supported request asks for is
  -- granted, on an object and under a descriptor that are new, the request succeeds with as many
  -- buffers, and leaves the library sound with the table that it had before.
  pub gralloc_gbm_allocate_granted :
      is_negative (length hs) ≡ false
      → (a : Allocation) × (u : State W T) × (gralloc_gbm_allocate c p v desc (length hs) srv
          ≡ done ((status_ok, some a), record srv { library = u }))
        × (length a.buffers ≡ length hs)
        × IsSound p u f
  unfolding gralloc_gbm_allocate make_buffers
  gralloc_gbm_allocate_granted counted =
      let (g, w, back) = Makes-IsSound c p hash keeps desc dr srv.library t hs f m sound in
      let (stride, loop) =
        Makes-make_buffers c p hash keeps v desc dr sized srv srv.library t hs [] f 0 0 m sound in
      let (copies, u, e, l, after) =
        hand_over-IsSound p hash keeps v objects hs (record srv { library = t }) g w in
      (
        record { buffers = copies; stride = stride },
        u,
        rw (supported, counted, sym (and_more-zero hs), loop, e) refl,
        l,
        subst (IsSound p u) (λ i. λ k. back k i) after,
      )

  -- For a format that color_format_map lists with a size (neither P010 nor the unknown format), in a
  -- sound state of the library: where some of the buffers that a supported request asks for are
  -- granted, on objects and under descriptors that are new, and `gbm_bo_create` then fails, the
  -- request is refused as unsupported, and leaves the library sound with the table that it had
  -- before.
  pub gralloc_gbm_allocate_rolled_back :
      (more : ℕ)
      → is_negative (and_more hs (suc more)) ≡ false
      → RefusesObject c p t desc dr
      → (u : State W T) × (gralloc_gbm_allocate c p v desc (and_more hs (suc more)) srv
          ≡ done ((service_error unsupported, none), record srv { library = u }))
        × IsSound p u f
  unfolding gralloc_gbm_allocate make_buffers
  gralloc_gbm_allocate_rolled_back more counted refuses =
      let (g, w, back) = Makes-IsSound c p hash keeps desc dr srv.library t hs f m sound in
      let (stride, loop) =
        Makes-make_buffers c p hash keeps v desc dr sized srv srv.library t hs [] f (suc more) 0 m
          sound in
      let (u, e, after) =
        release_all-IsSound p hash keeps v objects hs
          (record srv { library = with_object c p t desc dr }) g
          (refused-IsSound c p keeps t desc dr refuses g w) in
      (
        u,
        rw (supported, counted, loop, refused_lem c p keeps t desc dr refuses, e) refl,
        subst (IsSound p u) (λ i. λ k. back k i) after,
      )
