-- ===== src/Library/Freed.antt =====
-- gralloc_gbm_android_buffer_free of common/gralloc_gbm.c in a sound state, on any handle.
use gralloc_gbm.Base.{
  ℕ, ◌<◌, ◌+◌, ◌≡◌, ◌≢◌, ◌∙◌, refl, subst, none, some, arith, ==_ne, Option-cases, inl, inr,
}
use gralloc_gbm.Machine.{Ptr, ok, done}
use gralloc_gbm.Platform.{Platform, Buffer}
use gralloc_gbm.Platform.Laws.{KeepsUserData}
use gralloc_gbm.State.{State, BoData}
use gralloc_gbm.Handle.{Handle}
use gralloc_gbm.Table.{find_buffer_k}
use gralloc_gbm.Table.Entries.{IsHash, All-without}
use gralloc_gbm.Table.Map.{BufferMap, delete, at_key}
use gralloc_gbm.Buffer.{free_found, gralloc_gbm_android_buffer_free}
use gralloc_gbm.Buffer.Made.{is_ready_lem}
use gralloc_gbm.Buffer.Release.{HasBlocks, freed, freed_lem}
use gralloc_gbm.Library.{Owns, IsSound, sound-Manages, data_apart, Owns-after, distinct_after}

pub owns-HasBlocks :
    {W T : Type 0} {p : Platform W T} {s : State W T} {b : Buffer} {d : Ptr} {x : BoData}
    → Owns p s b d x
    → HasBlocks s x
owns-HasBlocks {W} {T} {p} {s} {b} {d} o = record {
  smpte2086_ne = omega (arith, o.smpte2086);
  cta861_3_ne = omega (arith, o.cta861_3);
  smpte2086 = rw o.smpte2086 (o.blocks (d + 1) (omega arith) (omega arith));
  cta861_3 = rw o.cta861_3 (o.blocks (d + 2) (omega arith) (omega arith));
  smpte2094_50 = rw o.smpte2094_50 (o.blocks (d + 3) (omega arith) (omega arith));
  apart = omega (arith, o.smpte2086, o.cta861_3);
  apart_first = omega (arith, o.smpte2086, o.smpte2094_50);
  apart_second = omega (arith, o.cta861_3, o.smpte2094_50);
}

module _ {W T : Type 0} (p : Platform W T) (hash : IsHash p) (keeps : KeepsUserData p)
    (s : State W T) (f : BufferMap) (v : IsSound p s f) (h : Handle) where
  module _ (b : Buffer) (d : Ptr) (x : BoData) (at : f h.prime_fd ≡ some b)
      (o : Owns p s b d x) where
    -- The state after the buffer has been freed.
    abbrev pub after_free : State W T
    after_free = freed p hash s h b d x (sound-Manages v h b d x at o) (owns-HasBlocks o) f v.table

    remaining :
        (j : ℕ) (e : Buffer) → delete h.prime_fd f j ≡ some e → (j ≢ h.prime_fd) × (f j ≡ some e)
    remaining j e he = ground arith

    user_data_kept :
        (j : ℕ) (e : Buffer)
        → j ≢ h.prime_fd
        → f j ≡ some e
        → p.get_user_data after_free.world e.bo ≡ p.get_user_data s.world e.bo
    user_data_kept j e ne he = keeps.destroy s.world b.bo e.bo (v.apart j h.prime_fd e b he at ne).0

    owner_kept :
        (j : ℕ) (e : Buffer) (d' : Ptr) (z : BoData)
        → j ≢ h.prime_fd
        → f j ≡ some e
        → Owns p s e d' z
        → Owns p after_free e d' z
    owner_kept j e d' z ne he q =
        let far = data_apart v j h.prime_fd e b d' d z x he at ne q o in
        Owns-after q z
          (record {
            bo_ne = q.carries.bo_ne;
            data_ne = q.carries.data_ne;
            points = user_data_kept j e ne he ∙ q.carries.points;
            holds = rw (==_ne d' d (omega (arith, far))) q.carries.holds;
          })
          q.consistent (refl, refl, refl)
          (λ a above below.
            rw
              (
                ==_ne a x.metadata.cta861_3 (omega (arith, far, o.cta861_3, above, below)),
                ==_ne a x.metadata.smpte2086 (omega (arith, far, o.smpte2086, above, below)),
              )
              refl)
          (omega arith)

    freed-IsSound : IsSound p after_free (delete h.prime_fd f)
    freed-IsSound = record {
      driver = v.driver;
      is_live = v.is_live;
      is_ready = v.is_ready;
      table =
          (freed_lem p hash s h b d x (sound-Manages v h b d x at o) (owns-HasBlocks o) f
            v.table).1;
      owner = λ j e he.
          let (ne, held) = remaining j e he in
          let (d', z, q) = v.owner j e held in (d', z, owner_kept j e d' z ne held q);
      apart = λ j l e g he hg ne.
          let (ne_j, held_j) = remaining j e he in
          let (ne_l, held_l) = remaining l g hg in
          distinct_after p s after_free e g (user_data_kept j e ne_j held_j)
            (user_data_kept l g ne_l held_l) (v.apart j l e g held_j held_l ne);
      started = v.started;
      addresses =
          rw (hash.iter_del s.table b)
            (All-without (λ c. c.address < s.next) b.address _ v.addresses);
    }

  missing_free :
      p.hash_find s.table h.prime_fd ≡ none → gralloc_gbm_android_buffer_free p h s ≡ done (ok, s)
  unfolding gralloc_gbm_android_buffer_free find_buffer_k free_found
  missing_free gone = rw (is_ready_lem s v.driver v.is_live v.is_ready, gone) refl

  absent_key : f h.prime_fd ≡ none → (k : ℕ) → f k ≡ delete h.prime_fd f k
  absent_key e k = ground arith

  -- In a sound state every free, of any handle, returns 0 and leaves a sound state in whose table the
  -- handle's descriptor is not, and all others are as before.
  pub free-IsSound :
      (t : State W T) × (gralloc_gbm_android_buffer_free p h s ≡ done (ok, t))
      × IsSound p t (delete h.prime_fd f)
  free-IsSound = elim (Option-cases (f h.prime_fd)) [
    | inl gone ↦ (
      s,
      missing_free (at_key p v.table h.prime_fd ∙ gone),
      subst (IsSound p s) (λ i. λ k. absent_key gone k i) v,
    )
    | inr (b, e) ↦
        let (d, x, o) = v.owner h.prime_fd b e in
        (
          after_free b d x e o,
          (freed_lem p hash s h b d x (sound-Manages v h b d x e o) (owns-HasBlocks o) f v.table).0,
          freed-IsSound b d x e o,
        )
  ]
