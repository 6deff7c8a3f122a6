-- ===== src/Allocator/Released.antt =====
-- The loops of allocator/backend/AllocatorGrallocGbm.cpp that release buffers, in a sound state of the
-- library.
use gralloc_gbm.Base.{suc, ◌≡◌, refl, ap, List, [], ◌∷◌, length}
use gralloc_gbm.Machine.{Ptr, done}
use gralloc_gbm.Platform.{Platform}
use gralloc_gbm.Platform.Laws.{KeepsUserData}
use gralloc_gbm.State.{State}
use gralloc_gbm.Handle.{Handle}
use gralloc_gbm.Table.Entries.{IsHash}
use gralloc_gbm.Table.Map.{BufferMap, delete}
use gralloc_gbm.Library.{IsSound}
use gralloc_gbm.Library.Freed.{free-IsSound}
use gralloc_gbm.Library.Outside.{world-IsSound}
use gralloc_gbm.Allocator.{Services, ServiceState}
use gralloc_gbm.Allocator.Gbm.{release, release_all, hand_over}

-- Copying and closing handles leaves the user data of all objects alone.
pub record KeepsObjects {W T : Type 0} (p : Platform W T) (v : Services W) : Type 0 where
  pub dup :
      (w : W) (h : Handle) (bo : Ptr)
      → p.get_user_data (v.dup_to_aidl w h).1 bo ≡ p.get_user_data w bo
  pub close :
      (w : W) (h : Handle) (bo : Ptr)
      → p.get_user_data (v.handle_close w h) bo ≡ p.get_user_data w bo

-- The map without the descriptors of the handles.
abbrev pub delete_all : List Handle → BufferMap → BufferMap
delete_all [] f = f
delete_all (h ∷ hs) f = delete_all hs (delete h.prime_fd f)

module _ {W T : Type 0} (p : Platform W T) (hash : IsHash p) (keeps : KeepsUserData p)
    (v : Services W) (objects : KeepsObjects p v) where
  -- The state of the service with another state of the library.
  abbrev pub serving : ServiceState W T → State W T → ServiceState W T
  serving s t = record s { library = t }

  release_lem :
      (h : Handle) (s : ServiceState W T) (f : BufferMap)
      → IsSound p s.library f
      → (t : State W T) × (release p v h s ≡ done (tt, serving s t))
        × IsSound p t (delete h.prime_fd f)
  unfolding release
  release_lem h s f sound =
      let (t, e, after) = free-IsSound p hash keeps s.library f sound h in
      (
        record t { world = v.handle_close t.world h },
        rw e refl,
        world-IsSound p t _ after _ (λ bo ne. objects.close t.world h bo),
      )

  -- The loop that releases the buffers returns, and leaves a sound state without them.
  pub release_all-IsSound :
      (hs : List Handle) (s : ServiceState W T) (f : BufferMap)
      → IsSound p s.library f
      → (t : State W T) × (release_all p v hs s ≡ done (tt, serving s t))
        × IsSound p t (delete_all hs f)
  unfolding release_all
  release_all-IsSound [] s f sound = (s.library, refl, sound)
  release_all-IsSound (h ∷ hs) s f sound =
      let (t, e, after) = release_lem h s f sound in
      let (u, e', rest) = release_all-IsSound hs (serving s t) _ after in (u, rw (e, e') refl, rest)

  -- The loop that hands the buffers over returns one copy of each, and leaves a sound state without
  -- them.
  pub hand_over-IsSound :
      (hs : List Handle) (s : ServiceState W T) (f : BufferMap)
      → IsSound p s.library f
      → (copies : List Handle) × (t : State W T) × (hand_over p v hs s ≡ done (copies, serving s t))
        × (length copies ≡ length hs)
        × IsSound p t (delete_all hs f)
  unfolding hand_over
  hand_over-IsSound [] s f sound = ([], s.library, refl, refl, sound)
  hand_over-IsSound (h ∷ hs) s f sound =
      let (copy, w) = v.dup_to_aidl s.library.world h in
      let copied =
        world-IsSound p s.library f sound w (λ bo ne. objects.dup s.library.world h bo) in
      let (t, e, after) = release_lem h (serving s (record s.library { world = w })) f copied in
      let (copies, u, e', l, rest) = hand_over-IsSound hs (serving s t) _ after in
      (copy ∷ copies, u, rw (e, e') refl, ap suc l, rest)
