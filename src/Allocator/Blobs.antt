-- ===== src/Allocator/Blobs.antt =====
-- allocator/backend/AllocatorDmaBuf.cpp where nothing fails.
use gralloc_gbm.Base.{
  ℕ, zero, suc, ◌+◌, ◌*◌, ◌≡◌, refl, ap, true, false, ◌||◌, ◌==◌, List, [], ◌∷◌, ◌++◌, length,
  length-append, some, arith,
}
use gralloc_gbm.Machine.{done}
use gralloc_gbm.Word.{is_negative, u32, sign_extend, div_signed}
use gralloc_gbm.Platform.{Platform}
use gralloc_gbm.Handle.{Handle, gralloc_handle_create}
use gralloc_gbm.Handle.Create.{fresh_handle, handle_create_lem}
use gralloc_gbm.Allocator.{
  status_ok, Info, Allocation, Services, ServiceState, lift_outcome, library_call,
}
use gralloc_gbm.Allocator.DmaBuf.{alloc_system, make_dma_buffers, hand_over_dma, dma_allocate2}

-- The heap and the handles never run out.
pub record NeverFails {W T : Type 0} (p : Platform W T) (v : Services W) : Type 0 where
  pub handle : (w : W) → (p.handle_create w).0 ≡ true
  pub descriptor :
      (w : W) (size : ℕ)
      → (((v.alloc_system w size).0 == 0) || is_negative (v.alloc_system w size).0) ≡ false

module _ {W T : Type 0} (p : Platform W T) (v : Services W) where
  hand_over_lem :
      (hs : List Handle) (s : ServiceState W T)
      → (copies : List Handle) × (t : ServiceState W T) × (hand_over_dma p v hs s
          ≡ done (copies, t))
        × (length copies ≡ length hs)
  unfolding hand_over_dma
  hand_over_lem [] s = ([], s, refl, refl)
  hand_over_lem (h ∷ hs) s =
      let (copy, w) = v.dup_to_aidl s.library.world h in
      let s' = record s { library = record s.library { world = v.handle_close w h } } in
      let (copies, t, e, l) = hand_over_lem hs s' in (copy ∷ copies, t, rw e refl, ap suc l)

  module _ (f : NeverFails p v) where
    alloc_lem :
        (size : ℕ) (s : ServiceState W T)
        → s.has_heaps ≡ true
        → alloc_system p v size s
          ≡ done (
            (v.alloc_system s.library.world size).0,
            record s {
              library = record s.library { world = (v.alloc_system s.library.world size).1 };
            },
          )
    unfolding alloc_system
    alloc_lem size s heaps = rw heaps refl

    create_lem :
        (info : Info) (s : ServiceState W T)
        → library_call (gralloc_handle_create p info.size info.format info.usage) s
          ≡ done (
            some (fresh_handle info.size info.format info.usage),
            record s { library = record s.library { world = (p.handle_create s.library.world).1 } },
          )
    create_lem info s =
        ap (lift_outcome s) (
          handle_create_lem p s.library info.size info.format info.usage (f.handle s.library.world))

    make_lem :
        (info : Info) (size n : ℕ) (made : List Handle) (s : ServiceState W T)
        → s.has_heaps ≡ true
        → (hs : List Handle) × (t : ServiceState W T) × (make_dma_buffers p v info size n made s
            ≡ done (some hs, t))
          × (length hs ≡ length made + n)
    unfolding make_dma_buffers
    make_lem info size zero made s heaps = (made, s, refl, omega arith)
    make_lem info size (suc n) made s heaps =
        let w1 = (p.handle_create s.library.world).1 in
        let s1 = record s { library = record s.library { world = w1 } } in
        let (fd, w2) = v.alloc_system w1 size in
        let h = record (fresh_handle info.size info.format info.usage) {
          prime_fd = fd;
          stride = div_signed info.size.width 8;
        } in
        let s2 = record s { library = record s.library { world = w2 } } in
        let (hs, t, e, l) = make_lem info size n (made ++ h ∷ []) s2 heaps in
        (
          hs,
          t,
          rw (create_lem info s, alloc_lem size s1 heaps, f.descriptor w1 size, e) refl,
          omega (arith, l, length-append made (h ∷ [])),
        )

    -- Where the heap and the handles never run out, a request for a count that is not negative
    -- succeeds with exactly as many buffers as were asked for.
    pub dma_allocate2-count :
        (info : Info) (count : ℕ) (s : ServiceState W T)
        → s.has_heaps ≡ true
        → is_negative count ≡ false
        → (a : Allocation) × (t : ServiceState W T) × (dma_allocate2 p v info count s
            ≡ done ((status_ok, some a), t))
          × (length a.buffers ≡ count)
    unfolding dma_allocate2
    dma_allocate2-count info count s heaps counted =
        let (hs, u, e, l) =
          make_lem info (sign_extend (u32 (info.size.width * info.size.height))) count [] s heaps in
        let (copies, t, e', l') = hand_over_lem hs u in
        (
          record { buffers = copies; stride = div_signed info.size.width 8 },
          t,
          rw (counted, e, e') refl,
          omega (arith, l, l'),
        )
