-- ===== src/Library/Outside.antt =====
-- Calls of libgbm, of the kernel and of libc's allocator between the calls of common/gralloc_gbm.c.
use gralloc_gbm.Base.{◌≡◌, ◌≢◌, ◌≤◌, ◌<◌, ◌∙◌, refl, arith, Bool}
use gralloc_gbm.Machine.{Ptr, null}
use gralloc_gbm.Platform.{Platform}
use gralloc_gbm.State.{State}
use gralloc_gbm.Table.Map.{BufferMap, represents, at_key}
use gralloc_gbm.Library.{IsSound, Owns-after, distinct_after, older_entries}

module _ {W T : Type 0} (p : Platform W T) (s : State W T) (f : BufferMap) (v : IsSound p s f)
    (w : W) where
  -- A step of the world that keeps the user data of the objects in the table, and blocks that are
  -- allocated and not freed, keep the state sound.
  pub outside-IsSound :
      (g : Ptr → Bool) (n : Ptr)
      → ((bo : Ptr) → bo ≢ null → p.get_user_data w bo ≡ p.get_user_data s.world bo)
      → ((q : Ptr) → q < s.next → g q ≡ s.block q)
      → s.next ≤ n
      → IsSound p (record s { world = w; block = g; next = n }) f
  outside-IsSound g n same blocks grows = record {
    driver = v.driver;
    is_live = v.is_live;
    is_ready = v.is_ready;
    table = represents p _ f v.table.table (at_key p v.table);
    owner = λ k b e.
        let (d, x, o) = v.owner k b e in
        (
          d,
          x,
          Owns-after o x
              (record {
                bo_ne = o.carries.bo_ne;
                data_ne = o.carries.data_ne;
                points = same b.bo o.carries.bo_ne ∙ o.carries.points;
                holds = o.carries.holds;
              })
              o.consistent (refl, refl, refl)
              (λ q above below. blocks q (omega (arith, o.below, below))) grows,
        );
    apart = λ j k b c hb hc ne.
        let (d, x, o) = v.owner j b hb in
        let (e, y, q) = v.owner k c hc in
        distinct_after p s (record s { world = w; block = g; next = n }) b c
          (same b.bo o.carries.bo_ne) (same c.bo q.carries.bo_ne) (v.apart j k b c hb hc ne);
    started = λ e. v.started (omega (arith, e, grows));
    addresses = older_entries s.next n _ grows v.addresses;
  }

  pub world-IsSound :
      ((bo : Ptr) → bo ≢ null → p.get_user_data w bo ≡ p.get_user_data s.world bo)
      → IsSound p (record s { world = w }) f
  world-IsSound same = outside-IsSound s.block s.next same (λ q below. refl) (omega arith)
