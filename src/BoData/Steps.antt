-- ===== src/BoData/Steps.antt =====
-- What the operations of `BoData` do to a state in which a buffer object carries live data.
use gralloc_gbm.Base.{
  ◌==◌, false, ◌≡◌, ◌≢◌, Bool, none, some, bit_or, ==_refl, ==_ne, if◌then◌else◌,
}
use gralloc_gbm.Machine.{Ptr, fault, assertion_failed, null, ok, einval, enomem, done}
use gralloc_gbm.Gbm.Use
use gralloc_gbm.Platform.{Platform, Mapping}
use gralloc_gbm.State.{State, BoData, update, load}
use gralloc_gbm.BoData.{
  get_user_data, gralloc_gbm_bo_user_data_init, gralloc_gbm_bo_map, gralloc_gbm_bo_unmap,
}

-- From `s` to `t` the data at `d` becomes `y`, and nothing else changes that the program keeps.
pub record Changes {W T : Type 0} (p : Platform W T) (s : State W T) (d : Ptr) (y : BoData)
    (t : State W T) : Type 0 where
  pub at : t.bo_data d ≡ some y
  pub elsewhere : (q : Ptr) → q ≢ d → t.bo_data q ≡ s.bo_data q
  pub user_data : (bo : Ptr) → p.get_user_data t.world bo ≡ p.get_user_data s.world bo
  pub table : t.table ≡ s.table
  pub driver : t.driver ≡ s.driver
  pub block : t.block ≡ s.block
  pub next : t.next ≡ s.next

-- The buffer object `bo` has the live data `x` at `d`.
pub record Carries {W T : Type 0} (p : Platform W T) (s : State W T) (bo d : Ptr) (x : BoData)
    : Type 0 where
  pub bo_ne : bo ≢ null
  pub data_ne : d ≢ null
  pub points : p.get_user_data s.world bo ≡ d
  pub holds : s.bo_data d ≡ some x

abbrev pub put : {W T : Type 0} → State W T → Ptr → BoData → State W T
put s d y = record s { bo_data = update s.bo_data d (some y) }

module _ {W T : Type 0} where
  pub load_lem :
      (s : State W T) (x : BoData) (d : Ptr)
      → d ≢ null
      → s.bo_data d ≡ some x
      → load d s ≡ done (x, s)
  unfolding load
  load_lem s x d ne e = rw (==_ne d null ne, e)

-- The mapping that is asked for, as an answer and the platform's next state.
abbrev pub mapping : {W T : Type 0} → Platform W T → State W T → Ptr → Bool → Mapping × W
mapping p s bo write =
    p.bo_map s.world bo (record { width = p.bo_width s.world bo; height = p.bo_height s.world bo })
      (if write then bit_or Use.transfer_read Use.transfer_write else Use.transfer_read)

module _ {W T : Type 0} {p : Platform W T} {s : State W T} {bo d : Ptr} {x : BoData}
    (c : Carries p s bo d x) where
  pub user_data_init_lem : gralloc_gbm_bo_user_data_init p bo s ≡ done (d, s)
  unfolding gralloc_gbm_bo_user_data_init get_user_data
  user_data_init_lem = rw (==_ne bo null c.bo_ne, c.points, ==_ne d null c.data_ne)

  pub map_busy :
      (write : Bool)
      → x.map_data ≢ null
      → gralloc_gbm_bo_map p bo write s ≡ done ((einval, none), s)
  unfolding gralloc_gbm_bo_map get_user_data
  map_busy write busy = rw (
    ==_ne bo null c.bo_ne,
    c.points,
    load_lem s x d c.data_ne c.holds,
    ==_ne x.map_data null busy,
  )

  module _ (write : Bool) (unmapped : x.map_data ≡ null) where
    -- The state after a mapping, and the two results of one.
    abbrev mapped_state : State W T
    mapped_state =
        put (record s { world = (mapping p s bo write).1 }) d
          (record x { map_data = (mapping p s bo write).0.map_data })

    pub map_failed :
        (mapping p s bo write).0.address ≡ null
        → gralloc_gbm_bo_map p bo write s ≡ done ((enomem, some null), mapped_state)
    unfolding gralloc_gbm_bo_map get_user_data
    map_failed failed =
        rw (==_ne bo null c.bo_ne, c.points, load_lem s x d c.data_ne c.holds, unmapped, failed)

    pub map_made :
        (mapping p s bo write).0.address ≢ null
        → (mapping p s bo write).0.stride ≡ p.bo_stride (mapping p s bo write).1 bo
        → gralloc_gbm_bo_map p bo write s
          ≡ done ((ok, some (mapping p s bo write).0.address), mapped_state)
    unfolding gralloc_gbm_bo_map get_user_data
    map_made made fits = rw (
      ==_ne bo null c.bo_ne,
      c.points,
      load_lem s x d c.data_ne c.holds,
      unmapped,
      ==_ne (mapping p s bo write).0.address null made,
      fits,
      ==_refl (p.bo_stride (mapping p s bo write).1 bo),
    )

    pub map_asserts :
        (mapping p s bo write).0.address ≢ null
        → ((mapping p s bo write).0.stride == p.bo_stride (mapping p s bo write).1 bo) ≡ false
        → gralloc_gbm_bo_map p bo write s ≡ fault assertion_failed
    unfolding gralloc_gbm_bo_map get_user_data
    map_asserts made differs = rw (
      ==_ne bo null c.bo_ne,
      c.points,
      load_lem s x d c.data_ne c.holds,
      unmapped,
      ==_ne (mapping p s bo write).0.address null made,
      differs,
    )

  pub unmap_lem :
      gralloc_gbm_bo_unmap p bo s
      ≡ done (
        tt,
        put
            (record s { world = p.bo_unmap s.world bo x.map_data })
            d
            (record x { map_data = null }),
      )
  unfolding gralloc_gbm_bo_unmap get_user_data
  unmap_lem = rw (c.points, load_lem s x d c.data_ne c.holds)
