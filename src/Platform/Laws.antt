-- ===== src/Platform/Laws.antt =====
-- What the proofs rely on of libgbm and uthash, as their headers document it.
use gralloc_gbm.Base.{ℕ, ◌≡◌, ◌≢◌}
use gralloc_gbm.Machine.{Ptr, null}
use gralloc_gbm.Size.{Size}
use gralloc_gbm.Platform.{Platform, ImportData}

-- The user data of a buffer object is what was set last; other calls leave it alone, and a new
-- object has none.
pub record KeepsUserData {W T : Type 0} (p : Platform W T) : Type 0 where
  pub set_self : (w : W) (bo d : Ptr) → p.get_user_data (p.set_user_data w bo d) bo ≡ d
  pub set_other :
      (w : W) (bo d other : Ptr)
      → other ≢ bo
      → p.get_user_data (p.set_user_data w bo d) other ≡ p.get_user_data w other
  pub map :
      (w : W) (bo : Ptr) (size : Size) (flags : ℕ) (other : Ptr)
      → p.get_user_data (p.bo_map w bo size flags).1 other ≡ p.get_user_data w other
  pub unmap :
      (w : W) (bo m other : Ptr)
      → p.get_user_data (p.bo_unmap w bo m) other ≡ p.get_user_data w other
  pub fd :
      (w : W) (bo other : Ptr) → p.get_user_data (p.bo_fd w bo).1 other ≡ p.get_user_data w other
  pub handle :
      (w : W) (other : Ptr) → p.get_user_data (p.handle_create w).1 other ≡ p.get_user_data w other
  pub create :
      (w : W) (dev : Ptr) (size : Size) (format flags : ℕ) (other : Ptr)
      → other ≢ (p.bo_create w dev size format flags).0
      → p.get_user_data (p.bo_create w dev size format flags).1 other ≡ p.get_user_data w other
  pub create_new :
      (w : W) (dev : Ptr) (size : Size) (format flags : ℕ)
      → p.get_user_data
          (p.bo_create w dev size format flags).1
          (p.bo_create w dev size format flags).0
        ≡ null
  pub import :
      (w : W) (dev : Ptr) (i : ImportData) (flags : ℕ) (other : Ptr)
      → other ≢ (p.bo_import w dev i flags).0
      → p.get_user_data (p.bo_import w dev i flags).1 other ≡ p.get_user_data w other
  pub import_new :
      (w : W) (dev : Ptr) (i : ImportData) (flags : ℕ)
      → p.get_user_data (p.bo_import w dev i flags).1 (p.bo_import w dev i flags).0 ≡ null
  pub destroy :
      (w : W) (bo other : Ptr)
      → other ≢ bo
      → p.get_user_data (p.bo_destroy w bo) other ≡ p.get_user_data w other

-- A mapping gives map data exactly if it gives an address.
pub record MapsWhole {W T : Type 0} (p : Platform W T) : Type 0 where
  pub failed :
      (w : W) (bo : Ptr) (size : Size) (flags : ℕ)
      → (p.bo_map w bo size flags).0.address ≡ null
      → (p.bo_map w bo size flags).0.map_data ≡ null
  pub made :
      (w : W) (bo : Ptr) (size : Size) (flags : ℕ)
      → (p.bo_map w bo size flags).0.address ≢ null
      → (p.bo_map w bo size flags).0.map_data ≢ null

-- An object that libgbm makes or imports is a new one: no object that has user data.
pub record MakesNewObjects {W T : Type 0} (p : Platform W T) : Type 0 where
  pub create :
      (w : W) (dev : Ptr) (size : Size) (format flags : ℕ)
      → (p.bo_create w dev size format flags).0 ≢ null
      → p.get_user_data w (p.bo_create w dev size format flags).0 ≡ null
  pub import :
      (w : W) (dev : Ptr) (i : ImportData) (flags : ℕ)
      → (p.bo_import w dev i flags).0 ≢ null
      → p.get_user_data w (p.bo_import w dev i flags).0 ≡ null
