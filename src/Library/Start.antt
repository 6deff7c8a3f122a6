-- ===== src/Library/Start.antt =====
-- The state of common/gralloc_gbm.c before and behind gralloc_gbm_init.
use gralloc_gbm.Base.{
  ℕ, suc, ◌≡◌, ◌≢◌, ◌∙◌, refl, true, false, none, [], arith, ◌==◌, if◌then◌else◌, Bool-cases, inl,
  inr, eq_of_==,
}
use gralloc_gbm.Machine.{
  Ptr, null, Status, ok, einval, enodev, enomem, is_ok, Outcome, done, fault, use_after_free, pure,
  ◌>>=◌, ◌>>◌,
}
use gralloc_gbm.Word.{is_negative}
use gralloc_gbm.Platform.{Platform}
use gralloc_gbm.State.{State, Driver, no_driver, live, dangling, outside}
use gralloc_gbm.Driver.{
  is_gralloc_gbm_ready, gralloc_gbm_init, finish_init, open_device, set_driver,
}
use gralloc_gbm.Table.Entries.{IsHash, IsTable, lookup}
use gralloc_gbm.Table.Map.{BufferMap, represents}
use gralloc_gbm.Library.{IsSound}

-- A state with a ready driver and an empty table, as the initialisation leaves it.
pub record IsStart {W T : Type 0} (p : Platform W T) (s : State W T) (dr : Driver) : Type 0 where
  pub is_live : s.driver ≡ live dr
  pub is_ready : dr.ready ≡ true
  pub empty : p.hash_iter s.table ≡ []
  pub started : s.next ≢ null

-- The state is sound, for the buffers of some map.
abbrev pub IsSoundState : {W T : Type 0} → Platform W T → State W T → Type 0
IsSoundState p s = (f : BufferMap) × IsSound p s f

lookup_nothing : (k : ℕ) → lookup k [] ≡ none
unfolding lookup
lookup_nothing k = refl

module _ {W T : Type 0} (p : Platform W T) (hash : IsHash p) where
  pub start-IsSound : (s : State W T) (dr : Driver) → IsStart p s dr → IsSound p s (λ k. none)
  start-IsSound s dr i = record {
    driver = dr;
    is_live = i.is_live;
    is_ready = i.is_ready;
    table = represents p s _ no_entries (λ k. hash.find s.table k no_entries ∙ empty_lookup k);
    owner = λ k b e. cc;
    apart = λ j k b e hb he ne. cc;
    started = i.started;
    addresses = rw i.empty tt;
  }
    where
      no_entries : IsTable (p.hash_iter s.table)
      no_entries = rw i.empty tt

      empty_lookup : (k : ℕ) → lookup k (p.hash_iter s.table) ≡ none
      empty_lookup k = rw i.empty (lookup_nothing k)

-- A process that has not opened the device: no driver, and nothing in the table.
pub record IsUnopened {W T : Type 0} (p : Platform W T) (s : State W T) : Type 0 where
  pub absent : s.driver ≡ no_driver
  pub empty : p.hash_iter s.table ≡ []
  pub started : s.next ≢ null

-- A process whose driver was freed, by an initialisation that failed or by the end of the library: the
-- pointer to it is left.
pub record IsBroken {W T : Type 0} (p : Platform W T) (s : State W T) : Type 0 where
  pub freed : s.driver ≡ dangling

-- The three kinds of states of the library.
pub data HasPhase {W T : Type 0} (p : Platform W T) (s : State W T) : Type 0 where
  unopened : IsUnopened p s → HasPhase p s
  opened : (f : BufferMap) → IsSound p s f → HasPhase p s
  broken : IsBroken p s → HasPhase p s

-- The run returns, in a state of one of these kinds, and in a sound state if it returns 0.
abbrev pub Opens : {W T : Type 0} → Platform W T → Outcome (Status × State W T) → Type 0
Opens {W} {T} p o =
    (r : Status) × (t : State W T) × (o ≡ done (r, t))
    × HasPhase p t
    × (is_ok r ≡ true → IsSoundState p t)

module _ {W T : Type 0} (p : Platform W T) (hash : IsHash p) where
  -- The state with a driver for a device.
  abbrev with_device : ℕ → Ptr × W → State W T → State W T
  with_device fd made s = record s {
    world = made.1;
    driver = live (record {
      ready = true;
      dri_fd = fd;
      gbm_dev = made.0;
      gbm_dev_fd = p.device_fd made.1 made.0;
      gbm_backend_name = p.backend_name made.1 made.0;
    });
  }

  with_device-IsSound :
      (fd : ℕ) (made : Ptr × W) (s : State W T)
      → IsUnopened p s
      → IsSound p (with_device fd made s) (λ k. none)
  with_device-IsSound fd made s i =
      start-IsSound p hash (with_device fd made s) _
        (record { is_live = refl; is_ready = refl; empty = i.empty; started = i.started })

  device-Opens : (fd : ℕ) (s : State W T) → IsUnopened p s → Opens p (open_device p fd s)
  unfolding open_device finish_init
  device-Opens fd s i = elim (Bool-cases ((p.create_device s.world fd).0 == null)) [
    | inl failed ↦ rw failed (einval, _, refl, broken (record { freed = refl }), (λ e. absurd (cc)))
    | inr made ↦
        let sound = with_device-IsSound fd (p.create_device s.world fd) s i in
        rw made (ok, _, refl, opened _ sound, (λ e. (_, sound)))
  ]

  node-Opens :
      (s : State W T)
      → IsUnopened p s
      → Opens p (
          (outside p.open_render_node >>= λ fd.
          if is_negative fd then (set_driver dangling >> pure enodev) else open_device p fd)
            s)
  node-Opens s i = elim (Bool-cases (is_negative (p.open_render_node s.world).0)) [
    | inl failed ↦ rw failed (enodev, _, refl, broken (record { freed = refl }), (λ e. absurd (cc)))
    | inr node ↦
        rw node
          (device-Opens _ _ (record { absent = i.absent; empty = i.empty; started = i.started }))
  ]

  -- Initialising the library in a process that has not opened the device always returns. If it
  -- returns 0, the state is sound; else there is still no driver, or the pointer to a freed one.
  pub init-Opens : (s : State W T) → IsUnopened p s → Opens p (gralloc_gbm_init p s)
  unfolding gralloc_gbm_init
  init-Opens s i = rw i.absent (elim (Bool-cases (p.no_memory s.next)) [
    | inl full ↦ rw full (
      enomem,
      _,
      refl,
      unopened (record { absent = refl; empty = i.empty; started = λ e. omega (arith, e) }),
      (λ e. absurd (cc)),
    )
    | inr room ↦ rw room (elim (Bool-cases (s.next == null)) [
      | inl zero_address ↦ absurd (i.started (eq_of_== _ _ zero_address))
      | inr object ↦ rw object (
          node-Opens (record s { driver = no_driver; next = suc s.next })
            (record { absent = refl; empty = i.empty; started = λ e. omega (arith, e) }))
    ])
  ])

module _ {W T : Type 0} (p : Platform W T) where
  pub no_driver_lem : (s : State W T) → IsUnopened p s → is_gralloc_gbm_ready s ≡ done (false, s)
  unfolding is_gralloc_gbm_ready
  no_driver_lem s i = rw i.absent refl

  pub freed_driver_lem :
      (s : State W T) → IsBroken p s → is_gralloc_gbm_ready s ≡ fault use_after_free
  unfolding is_gralloc_gbm_ready
  freed_driver_lem s i = rw i.freed
