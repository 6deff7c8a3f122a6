-- ===== src/Driver.antt =====
-- The driver singleton of common/gralloc_gbm.c.
pub mod Lifecycle
use gralloc_gbm.Base.{ℕ, Bool, true, false, Option, none, some, ◌==◌, if◌then◌else◌}
use gralloc_gbm.Machine.{
  Ptr, null, Status, ok, einval, enodev, enomem, null_deref, use_after_free, Action, pure, stop,
  ◌>>=◌, ◌>>◌, modify, gets, done,
}
use gralloc_gbm.Word.{is_negative}
use gralloc_gbm.Platform.{Platform}
use gralloc_gbm.State.{State, Driver, DriverPtr, no_driver, live, dangling, outside, allocate}

module _ {W T : Type 0} where
  abbrev pub set_driver : DriverPtr → Action (State W T) (Unit {0})
  set_driver d = modify λ s. record s { driver = d }

  -- `g_driver && g_driver->ready`.
  unfoldable pub is_gralloc_gbm_ready : Action (State W T) Bool
  is_gralloc_gbm_ready s = elim s.driver [
    | no_driver ↦ done (false, s)
    | live d ↦ done (d.ready, s)
    | dangling ↦ stop use_after_free s
  ]

  -- `gralloc_gbm_get`: the driver, or none for `nullptr`.
  unfoldable pub gralloc_gbm_get : Action (State W T) (Option Driver)
  unfolding is_gralloc_gbm_ready
  gralloc_gbm_get = do
    ready ← is_gralloc_gbm_ready
    if ready
        then gets (λ s. elim s.driver [ no_driver ↦ none | live d ↦ some d | dangling ↦ none ])
        else pure none

  -- `g_driver->gbm_dev`.
  unfoldable pub gbm_dev : Action (State W T) Ptr
  gbm_dev s = elim s.driver [
    | no_driver ↦ stop null_deref s
    | live d ↦ done (d.gbm_dev, s)
    | dangling ↦ stop use_after_free s
  ]

module _ {W T : Type 0} (p : Platform W T) where
  -- The part of `gralloc_gbm_init` behind `gbm_create_device`.
  unfoldable pub finish_init : (fd : ℕ) → Ptr → Action (State W T) Status
  finish_init fd dev s = done (
    ok,
    record s {
      driver = live (record {
        ready = true;
        dri_fd = fd;
        gbm_dev = dev;
        gbm_dev_fd = p.device_fd s.world dev;
        gbm_backend_name = p.backend_name s.world dev;
      });
    },
  )

  -- The part of `gralloc_gbm_init` behind `open`.
  unfoldable pub open_device : (fd : ℕ) → Action (State W T) Status
  unfolding finish_init
  open_device fd = do
    dev ← outside λ w. p.create_device w fd
    if dev == null
        then (do outside λ w. (tt, p.close_fd w fd); set_driver dangling; pure einval)
        else finish_init fd dev

  unfoldable pub gralloc_gbm_init : Action (State W T) Status
  unfolding is_gralloc_gbm_ready allocate open_device
  gralloc_gbm_init = do
    ready ← is_gralloc_gbm_ready
    if ready then pure ok else do
      object ← allocate p
      if object == null then (do set_driver no_driver; pure enomem) else do
        fd ← outside p.open_render_node
        if is_negative fd then (do set_driver dangling; pure enodev) else open_device fd

  -- The driver is destroyed whether it is ready or not.
  unfoldable pub gralloc_gbm_deinit : Action (State W T) Status
  gralloc_gbm_deinit s = elim s.driver [
    | no_driver ↦ stop null_deref s
    | dangling ↦ stop use_after_free s
    | live d ↦ done (ok, record s { world = p.destroy_device s.world d.gbm_dev; driver = dangling })
  ]
