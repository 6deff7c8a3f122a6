-- ===== src/Allocator/Granted.antt =====
-- Requests to allocator/backend/AllocatorGrallocGbm.cpp: what is left in the table of the library after
-- one that is granted, and after one that fails half-way.
use mathlib.Core.List.{append_assoc, append-nil}
use gralloc_gbm.Base.{
  ℕ, suc, ◌/◌, ◌≡◌, ◌≢◌, refl, ◌∙◌, sym, ap, none, List, [], ◌∷◌, ◌++◌, ◌==◌, if◌then◌else◌, length,
  arith, All, Option,
}
use gralloc_gbm.Flags.{Config}
use gralloc_gbm.Format.{color_fmt_a2g, color_bytes_per_pixel}
use gralloc_gbm.Format.Depth.{HasDepth, bytes_per_pixel_bounds}
use gralloc_gbm.Stride.Pixels.{stride_divides}
use gralloc_gbm.Platform.{Platform, Buffer}
use gralloc_gbm.Platform.Laws.{KeepsUserData}
use gralloc_gbm.State.{State, Driver}
use gralloc_gbm.Handle.{Handle, Descriptor}
use gralloc_gbm.Table.Entries.{IsHash}
use gralloc_gbm.Table.Map.{BufferMap, insert, delete}
use gralloc_gbm.Buffer.Made.{made, new_handle, new_buffer, last, Grants}
use gralloc_gbm.Library.{IsSound}
use gralloc_gbm.Library.Created.{new-IsSound, absent}
use gralloc_gbm.Allocator.{Services, ServiceState}
use gralloc_gbm.Allocator.Gbm.{make_buffers}
use gralloc_gbm.Allocator.Released.{delete_all}

-- From the first state to the last, one buffer for the descriptor after the other is made, each on an
-- object that is new; the list has their handles.
pub data Makes {W T : Type 0} (c : Config) (p : Platform W T) (desc : Descriptor) (dr : Driver)
    : State W T → List Handle → State W T → Type 0 where
  makes_none : {s : State W T} → Makes c p desc dr s [] s
  makes_more :
      {s t : State W T} {hs : List Handle}
      → Grants c p s desc dr
      → All (λ b. b.bo ≢ (made c p s desc dr).0) (p.hash_iter s.table)
      → Makes c p desc dr (last c p s desc dr) hs t
      → Makes c p desc dr s (new_handle c p s desc dr ∷ hs) t

-- The number of the handles and `m` more.
abbrev pub and_more : List Handle → ℕ → ℕ
and_more [] m = m
and_more (h ∷ hs) m = suc (and_more hs m)

pub and_more-zero : (hs : List Handle) → and_more hs 0 ≡ length hs
and_more-zero [] = refl
and_more-zero (h ∷ hs) = ap suc (and_more-zero hs)

delete_all-delete :
    (hs : List Handle) (f : BufferMap) (fd k : ℕ)
    → delete_all hs (delete fd f) k ≡ delete fd (delete_all hs f) k
delete_all-delete [] f fd k = refl
delete_all-delete (h ∷ hs) f fd k =
    ap (λ (g : BufferMap). delete_all hs g k) (λ i. λ j. swap j i)
    ∙ delete_all-delete hs (delete h.prime_fd f) fd k
  where
    swap : (j : ℕ) → delete h.prime_fd (delete fd f) j ≡ delete fd (delete h.prime_fd f) j
    swap j = ground arith

module _ {W T : Type 0} (c : Config) (p : Platform W T) (hash : IsHash p) (keeps : KeepsUserData p)
    (desc : Descriptor) (dr : Driver) where
  -- Making buffers keeps the state sound, and taking their descriptors out again gives the map that was
  -- there before.
  pub Makes-IsSound :
      (s t : State W T) (hs : List Handle) (f : BufferMap)
      → Makes c p desc dr s hs t
      → IsSound p s f
      → (g : BufferMap) × IsSound p t g × ((k : ℕ) → delete_all hs g k ≡ f k)
  Makes-IsSound s t hs f makes_none v = (f, v, λ k. refl)
  Makes-IsSound s t _ f (makes_more {hs = hs} g fresh rest) v =
      let (e, w) = new-IsSound c p hash keeps s f v desc dr g fresh in
      let (m, u, back) = Makes-IsSound (last c p s desc dr) t hs _ rest w in
      let gone : f (new_buffer c p s desc dr).fd ≡ none =
        absent c p hash keeps s f v desc dr g fresh in
      (
        m,
        u,
        λ k.
            delete_all-delete hs m (new_buffer c p s desc dr).fd k
            ∙ ap (λ (o : Option Buffer). if k == (new_buffer c p s desc dr).fd then none else o)
                (back k)
            ∙ removed k gone,
      )
    where
      removed :
          (k : ℕ)
          → f (new_buffer c p s desc dr).fd ≡ none
          → delete (new_buffer c p s desc dr).fd (insert (new_buffer c p s desc dr) f) k ≡ f k
      removed k gone = ground arith

module _ {W T : Type 0} (c : Config) (p : Platform W T) (hash : IsHash p) (keeps : KeepsUserData p)
    (v : Services W) (desc : Descriptor) (dr : Driver) (sized : HasDepth desc.format) where
  make_one :
      (srv : ServiceState W T) (s : State W T) (before : List Handle) (f : BufferMap) (n stride : ℕ)
      → Grants c p s desc dr
      → All (λ b. b.bo ≢ (made c p s desc dr).0) (p.hash_iter s.table)
      → IsSound p s f
      → let h = new_handle c p s desc dr in
        make_buffers c p v desc (suc n) before stride (record srv { library = s })
        ≡ make_buffers c p v desc n
            (before ++ h ∷ [])
            (h.stride / color_bytes_per_pixel (color_fmt_a2g desc.format))
            (record srv { library = last c p s desc dr })
  unfolding make_buffers
  make_one srv s before f n stride g fresh w =
      rw
        (
          (new-IsSound c p hash keeps s f w desc dr g fresh).0,
          stride_divides desc.format (new_handle c p s desc dr).stride
              (omega (arith, (bytes_per_pixel_bounds desc.format sized).0)),
        )
        refl

  -- The loop goes through the buffers that can be made, and on from there.
  pub Makes-make_buffers :
      (srv : ServiceState W T) (s t : State W T) (hs before : List Handle) (f : BufferMap)
      (m stride : ℕ)
      → Makes c p desc dr s hs t
      → IsSound p s f
      → (last_stride : ℕ) × (make_buffers c p v desc
            (and_more hs m)
            before
            stride
            (record srv { library = s })
          ≡ make_buffers c p v desc m (before ++ hs) last_stride (record srv { library = t }))
  Makes-make_buffers srv s t _ before f m stride makes_none w =
      (stride, ap (λ hs. make_buffers c p v desc m hs stride _) (sym (append-nil before)))
  Makes-make_buffers srv s t _ before f m stride (makes_more {hs = hs} g fresh rest) w =
      let h = new_handle c p s desc dr in
      let (run, next) = new-IsSound c p hash keeps s f w desc dr g fresh in
      let (final, more) =
        Makes-make_buffers srv (last c p s desc dr) t hs (before ++ h ∷ []) _ m
          (h.stride / color_bytes_per_pixel (color_fmt_a2g desc.format)) rest next in
      (
        final,
        make_one srv s before f (and_more hs m) stride g fresh w
            ∙ more
            ∙ ap (λ l. make_buffers c p v desc m l final (record srv { library = t }))
                (append_assoc before (h ∷ []) hs),
      )
