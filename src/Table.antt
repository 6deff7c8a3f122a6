-- ===== src/Table.antt =====
-- The table of managed buffers of common/gralloc_gbm.c: `android_buffer_table`, keyed by the
-- descriptor. A `NULL` buffer is `none`.
pub mod Entries
pub mod Map
use gralloc_gbm.Base.{ℕ, Bool, true, false, List, [], ◌∷◌, Option, none, some, ◌==◌, if◌then◌else◌}
use gralloc_gbm.Machine.{
  Ptr, null, Status, ok, einval, null_deref, assertion_failed, Action, pure, stop, ◌>>=◌, ◌>>◌,
  modify, gets, done,
}
use gralloc_gbm.Word.{is_negative}
use gralloc_gbm.Platform.{Platform, Buffer}
use gralloc_gbm.State.{State}

-- The loop of `find_buffer_v` over the rest of the table.
unfoldable pub first_with_bo : Ptr → List Buffer → Option Buffer
first_with_bo v [] = none
first_with_bo v (b ∷ bs) = if b.bo == v then some b else first_with_bo v bs

module _ {W T : Type 0} (p : Platform W T) where
  unfoldable pub find_buffer_k : ℕ → Action (State W T) (Option Buffer)
  find_buffer_k fd = gets λ s. p.hash_find s.table fd

  unfoldable pub find_buffer_v : Ptr → Action (State W T) (Option Buffer)
  unfolding first_with_bo
  find_buffer_v v =
      if v == null then pure none else gets (λ s. first_with_bo v (p.hash_iter s.table))

  -- `HASH_FIND_INT` and the `assert` on what it finds.
  check_added : Buffer → Action (State W T) Status
  check_added b s = elim (p.hash_find s.table b.fd) [
    | none ↦ stop null_deref s
    | some found ↦ if b.fd == found.fd then done (ok, s) else stop assertion_failed s
  ]

  -- A buffer whose key is in the table already is added all the same.
  unfoldable pub add_buffer : Option Buffer → Action (State W T) Status
  unfolding check_added
  add_buffer none = pure einval
  add_buffer (some b) = do modify λ s. record s { table = p.hash_add s.table b }; check_added b

  -- The object that is freed here is the value itself.
  unfoldable pub delete_buffer : Option Buffer → Action (State W T) Status
  delete_buffer none = pure einval
  delete_buffer (some b) = do modify λ s. record s { table = p.hash_del s.table b }; pure ok

  -- `HASH_DEL` of what was found: a fault at `NULL`.
  delete_found : Option Buffer → Action (State W T) Status
  delete_found none = stop null_deref
  delete_found (some b) = do modify λ s. record s { table = p.hash_del s.table b }; pure ok

  -- The test before the deletion is on the key, not on what was found.
  unfoldable pub delete_buffer_fd : ℕ → Action (State W T) Status
  unfolding delete_found
  delete_buffer_fd fd =
      if is_negative fd
      then pure einval
      else do tmp ← gets λ s. p.hash_find s.table fd; if fd == 0 then pure ok else delete_found tmp
