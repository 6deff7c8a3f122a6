-- ===== src/Library/Fresh.antt =====
-- What a new object, a new descriptor and a new allocation have in common with the entries of the
-- table in a sound state: nothing.
use gralloc_gbm.Base.{◌≡◌, ◌≢◌, ◌≤◌, ◌<◌, ◌∙◌, sym, ap, none, some, arith, All, List, [], ◌∷◌}
use gralloc_gbm.Machine.{Ptr, null}
use gralloc_gbm.Platform.{Platform, Buffer}
use gralloc_gbm.State.{State}
use gralloc_gbm.Table.Entries.{IsHash, Differs, lookup, absent_fd, All-lookup}
use gralloc_gbm.Table.Map.{BufferMap, entries_at}
use gralloc_gbm.Library.{IsSound}

differing :
    (b : Buffer) (n : Ptr) (bs : List Buffer)
    → All (λ c. c.fd ≢ b.fd) bs
    → All (λ c. c.address < n) bs
    → n ≤ b.address
    → All (λ c. Differs c b) bs
differing b n [] keys addresses late = tt
differing b n (c ∷ bs) keys addresses late =
    ((keys.0, omega (arith, addresses.0, late)), differing b n bs keys.1 addresses.1 late)

module _ {W T : Type 0} (p : Platform W T) (hash : IsHash p) (s : State W T) (f : BufferMap)
    (v : IsSound p s f) where
  -- No buffer of the table is on an object without user data.
  pub fresh_object :
      (bo : Ptr) → p.get_user_data s.world bo ≡ null → All (λ b. b.bo ≢ bo) (p.hash_iter s.table)
  fresh_object bo bare =
      All-lookup (λ b. b.bo ≢ bo) _ v.table.table
        λ k b e same.
          let held : f k ≡ some b = sym (entries_at p hash v.table k) ∙ e in
          let (d, x, o) = v.owner k b held in
          o.carries.data_ne
            (sym o.carries.points ∙ ap (λ (q : Ptr). p.get_user_data s.world q) same ∙ bare)

  -- A later buffer with a new descriptor differs from all entries.
  pub fresh_entry :
      (b : Buffer)
      → lookup b.fd (p.hash_iter s.table) ≡ none
      → s.next ≤ b.address
      → All (λ c. Differs c b) (p.hash_iter s.table)
  fresh_entry b gone late = differing b s.next _ (absent_fd b.fd _ gone) v.addresses late
