-- ===== src/Library/Created.antt =====
-- gralloc_gbm_android_buffer_new of common/gralloc_gbm.c in a sound state.
use gralloc_gbm.Base.{
  ℕ, suc, ◌+◌, ◌≡◌, ◌≢◌, ◌≤◌, ◌<◌, ◌∙◌, refl, sym, subst, true, none, some, ◌==◌, arith, ==_ne,
  Bool-cases, inl, inr, All, List, [], ◌∷◌,
}
use gralloc_gbm.Machine.{Ptr, ok, done}
use gralloc_gbm.Flags.{Config}
use gralloc_gbm.Platform.{Platform, Buffer}
use gralloc_gbm.Platform.Laws.{KeepsUserData}
use gralloc_gbm.State.{State, Driver}
use gralloc_gbm.Handle.{Descriptor}
use gralloc_gbm.Table.Entries.{IsHash, lookup, lookup_new}
use gralloc_gbm.Table.Map.{BufferMap, insert, entries_at}
use gralloc_gbm.BoData.Steps.{Carries}
use gralloc_gbm.Buffer.{gralloc_gbm_android_buffer_new}
use gralloc_gbm.Buffer.Creation.{new_data, with_data}
use gralloc_gbm.Buffer.Made.{
  made, with_object, new_handle, new_buffer, last, Grants, new_data-IsConsistent,
  buffer_new-Manages,
}
use gralloc_gbm.Library.{Owns, IsSound}
use gralloc_gbm.Library.Added.{Adds, added-IsSound}

found_All :
    (P : Buffer → Type 0) (k : ℕ) (bs : List Buffer) (b : Buffer)
    → All P bs
    → lookup k bs ≡ some b
    → P b
unfolding lookup
found_All P k [] b h e = cc
found_All P k (c ∷ bs) b h e = elim (Bool-cases (c.fd == k)) [
  | inl hit ↦ let same : c ≡ b = cc in subst P same h.0
  | inr miss ↦ let later : lookup k bs ≡ some b = cc in found_All P k bs b h.1 later
]

module _ {W T : Type 0} (p : Platform W T) (u : State W T) (bo : Ptr) where
  old_bo_data : (q : Ptr) → q < u.next → (with_data p u bo).bo_data q ≡ u.bo_data q
  old_bo_data q before = rw (==_ne q u.next (omega (arith, before))) refl

  old_block : (q : Ptr) → q < u.next → (with_data p u bo).block q ≡ u.block q
  old_block q before =
      rw
        (
          ==_ne q (suc u.next) (omega (arith, before)),
          ==_ne q (suc (suc u.next)) (omega (arith, before)),
          ==_ne q (suc (suc (suc u.next))) (omega (arith, before)),
        )
        refl

  new_block : (q : Ptr) → u.next < q → q < u.next + 4 → (with_data p u bo).block q ≡ true
  new_block q above below = ground (arith, above, below)

  new_owner :
      (t : State W T) (b : Buffer)
      → Carries p t b.bo u.next (new_data u.next)
      → ((q : Ptr) → t.block q ≡ (with_data p u bo).block q)
      → u.next + 4 ≤ t.next
      → Owns p t b u.next (new_data u.next)
  new_owner t b c same below = record {
    carries = c;
    consistent = new_data-IsConsistent u.next;
    smpte2086 = omega arith;
    cta861_3 = omega arith;
    smpte2094_50 = omega arith;
    blocks = λ q above under. same q ∙ new_block q above under;
    below = below;
  }

module _ {W T : Type 0} (c : Config) (p : Platform W T) (hash : IsHash p) (keeps : KeepsUserData p)
    (s : State W T) (f : BufferMap) (v : IsSound p s f) where
  -- No buffer of the table is on the object `bo`.
  abbrev pub IsFreshObject : Ptr → Type 0
  IsFreshObject bo = All (λ b. b.bo ≢ bo) (p.hash_iter s.table)

  unused : (bo : Ptr) → IsFreshObject bo → (k : ℕ) (b : Buffer) → f k ≡ some b → b.bo ≢ bo
  unused bo fresh k b e = found_All (λ b. b.bo ≢ bo) k _ b fresh (entries_at p hash v.table k ∙ e)

  module _ (desc : Descriptor) (dr : Driver) (g : Grants c p s desc dr)
      (fresh : IsFreshObject (made c p s desc dr).0) where
    new-Adds : Adds p s (last c p s desc dr) (new_buffer c p s desc dr) s.next
    new-Adds = record {
      user_data = λ bo ne.
          keeps.fd _ _ bo
          ∙ keeps.fd _ _ bo
          ∙ keeps.set_other _ _ _ bo ne
          ∙ keeps.create _ _ _ _ _ bo ne
          ∙ keeps.handle _ bo;
      bo_data = old_bo_data p (with_object c p s desc dr) (made c p s desc dr).0;
      block = old_block p (with_object c p s desc dr) (made c p s desc dr).0;
      driver = refl;
      start = omega arith;
      next = omega arith;
      entries = hash.iter_add _ _;
      address = omega arith;
    }

    -- The new descriptor is not in the table before.
    pub absent : f (new_buffer c p s desc dr).fd ≡ none
    absent = sym (entries_at p hash v.table _) ∙ lookup_new (new_buffer c p s desc dr) _ g.fresh

    -- In a sound state a creation for which everything is granted, on an object that is new, returns and
    -- leaves a sound state with the new buffer.
    pub new-IsSound :
        (gralloc_gbm_android_buffer_new c p desc s
          ≡ done (
            (ok, some ((new_handle c p s desc dr), (new_handle c p s desc dr).stride)),
            (last c p s desc dr),
          ))
        × IsSound p (last c p s desc dr) (insert (new_buffer c p s desc dr) f)
    new-IsSound =
        let (e, table, m, consistent, idle) =
          buffer_new-Manages c p hash keeps s f v.table desc dr g in
        (
          e,
          added-IsSound v new-Adds
              (new_owner p (with_object c p s desc dr) (made c p s desc dr).0 _ _ m.carries
                (λ q. refl) (omega arith))
              table (unused _ fresh),
        )
