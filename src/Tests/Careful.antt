-- ===== src/Tests/Careful.antt =====
-- A platform whose objects are new: it makes and imports one only at an address without user data.
use gralloc_gbm.Base.{
  ◌≡◌, ◌≢◌, refl, List, ◌==◌, if◌then◌else◌, Bool-cases, inl, inr, eq_of_==, ==_ne, false,
}
use gralloc_gbm.Machine.{Ptr, null}
use gralloc_gbm.Platform.{Platform, Buffer}
use gralloc_gbm.Platform.Laws.{KeepsUserData, MapsWhole, MakesNewObjects}
use gralloc_gbm.State.{update}
use gralloc_gbm.Table.Entries.{IsHash}
use gralloc_gbm.Tests.{sample, sample-KeepsUserData, sample-MapsWhole, sample-IsHash}

-- An object at an address, or `NULL`.
abbrev object_at : Ptr → (Ptr → Ptr) → Ptr × (Ptr → Ptr)
object_at bo w = if w bo == null then (bo, w) else (null, update w null null)

abbrev pub careful : Platform (Ptr → Ptr) (List Buffer)
careful = record sample {
  bo_create = λ w dev size format flags. object_at 70 w;
  bo_import = λ w dev i flags. object_at 80 w;
}

object_at_other :
    (bo : Ptr) (w : Ptr → Ptr) (other : Ptr)
    → other ≢ (object_at bo w).0
    → (object_at bo w).1 other ≡ w other
object_at_other bo w other ne = elim (Bool-cases (w bo == null)) [
  | inl free ↦ rw free refl
  | inr taken ↦ rw (taken, ==_ne other null (taken_ne taken)) refl
]
  where
    taken_ne : (w bo == null) ≡ false → other ≢ null
    taken_ne taken e = ne (rw taken e)

object_at_bare : (bo : Ptr) (w : Ptr → Ptr) → (object_at bo w).1 (object_at bo w).0 ≡ null
object_at_bare bo w = elim (Bool-cases (w bo == null)) [
  | inl free ↦ rw free (eq_of_== _ _ free)
  | inr taken ↦ rw taken refl
]

object_at_new : (bo : Ptr) (w : Ptr → Ptr) → (object_at bo w).0 ≢ null → w (object_at bo w).0 ≡ null
object_at_new bo w ne = elim (Bool-cases (w bo == null)) [
  | inl free ↦ rw free (eq_of_== _ _ free)
  | inr taken ↦ absurd (ne (rw taken refl))
]

pub careful-KeepsUserData : KeepsUserData careful
careful-KeepsUserData = record {
  set_self = sample-KeepsUserData.set_self;
  set_other = sample-KeepsUserData.set_other;
  map = sample-KeepsUserData.map;
  unmap = sample-KeepsUserData.unmap;
  fd = sample-KeepsUserData.fd;
  handle = sample-KeepsUserData.handle;
  create = λ w dev size format flags other ne. object_at_other 70 w other ne;
  create_new = λ w dev size format flags. object_at_bare 70 w;
  import = λ w dev i flags other ne. object_at_other 80 w other ne;
  import_new = λ w dev i flags. object_at_bare 80 w;
  destroy = sample-KeepsUserData.destroy;
}

pub careful-MapsWhole : MapsWhole careful
careful-MapsWhole = record { failed = sample-MapsWhole.failed; made = sample-MapsWhole.made }

pub careful-IsHash : IsHash careful
careful-IsHash = record {
  iter_add = sample-IsHash.iter_add;
  iter_del = sample-IsHash.iter_del;
  find = sample-IsHash.find;
}

pub careful-MakesNewObjects : MakesNewObjects careful
careful-MakesNewObjects = record {
  create = λ w dev size format flags ne. object_at_new 70 w ne;
  import = λ w dev i flags ne. object_at_new 80 w ne;
}
