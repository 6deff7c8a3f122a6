-- ===== src/Table/Map.antt =====
-- The table of common/gralloc_gbm.c as a finite map from descriptors to buffers.
use gralloc_gbm.Base.{
  ℕ, ◌≡◌, ◌≢◌, refl, ap, sym, ◌∙◌, Bool, false, Option, none, some, ◌==◌, ==_refl, ==_ne,
  if◌then◌else◌, All,
}
use gralloc_gbm.Machine.{ok, Outcome, done, fault, null_deref}
use gralloc_gbm.Word.{is_negative}
use gralloc_gbm.Platform.{Platform, Buffer}
use gralloc_gbm.State.{State}
use gralloc_gbm.Table.{find_buffer_k, add_buffer, check_added, delete_buffer, delete_buffer_fd}
use gralloc_gbm.Table.Entries.{
  lookup, Differs, IsTable, IsHash, lookup-append, append-IsTable, without-IsTable, lookup-without,
}

-- A finite map, and its updates.
abbrev pub BufferMap : Type 0
BufferMap = ℕ → Option Buffer

abbrev pub insert : Buffer → BufferMap → BufferMap
insert b m k = if b.fd == k then some b else m k

abbrev pub delete : ℕ → BufferMap → BufferMap
delete fd m k = if k == fd then none else m k

-- No key is repeated in the table, and a search for `k` finds what the map has at `k`.
pub record Represents {W T : Type 0} (p : Platform W T) (s : State W T) (m : BufferMap)
    : Type 0 where
  pub table : IsTable (p.hash_iter s.table)
  pub finds : (k : ℕ) → find_buffer_k p k s ≡ done (m k, s)

value :
    {S : Type 0} {a b : Option Buffer} {s : S}
    → ◌≡◌ {A = Outcome (Option Buffer × S)} (done (a, s)) (done (b, s))
    → a ≡ b
value e = cc

module _ {W T : Type 0} (p : Platform W T) where
  pub represents :
      (s : State W T) (m : BufferMap)
      → IsTable (p.hash_iter s.table)
      → ((k : ℕ) → p.hash_find s.table k ≡ m k)
      → Represents p s m
  unfolding find_buffer_k
  represents s m t f = record {
    table = t;
    finds = λ k. ap (λ (o : Option Buffer). done (o, s)) (f k);
  }

  module _ {s : State W T} {m : BufferMap} (r : Represents p s m) where
    pub at_key : (k : ℕ) → p.hash_find s.table k ≡ m k
    unfolding find_buffer_k
    at_key k = value (r.finds k)

    -- A non-negative descriptor other than 0 that is not in the table makes `delete_buffer_fd` delete
    -- a `NULL` entry; with the descriptor 0 nothing is deleted, whatever the table holds.
    pub delete_buffer_fd_guard :
        ((fd : ℕ)
          → is_negative fd ≡ false
          → fd ≢ 0
          → m fd ≡ none
          → delete_buffer_fd p fd s ≡ fault null_deref)
        × (delete_buffer_fd p 0 s ≡ done (ok, s))
    unfolding delete_buffer_fd
    delete_buffer_fd_guard = (λ fd n ne missing. rw (n, ==_ne fd 0 ne, at_key fd, missing), refl)

  module _ (hash : IsHash p) {s : State W T} {m : BufferMap} (r : Represents p s m) where
    pub entries_at : (k : ℕ) → lookup k (p.hash_iter s.table) ≡ m k
    entries_at k = sym (hash.find s.table k r.table) ∙ at_key r k

    found_added :
        (b : Buffer) (t : State W T)
        → p.hash_find t.table b.fd ≡ some b
        → check_added p b t ≡ done (ok, t)
    unfolding check_added
    found_added b t e = rw (check_added, e, ==_refl b.fd)

    -- Adding a buffer whose key and address no entry has returns 0 and inserts it into the map.
    pub add_buffer-insert :
        (b : Buffer)
        → All (λ c. Differs c b) (p.hash_iter s.table)
        → let t = record s { table = p.hash_add s.table b } in
          (add_buffer p (some b) s ≡ done (ok, t)) × Represents p t (insert b m)
    unfolding add_buffer
    add_buffer-insert b fresh = (
      found_added b _ (found b.fd ∙ ap (λ (t : Bool). if t then some b else m b.fd) (==_refl b.fd)),
      represents _ _ entries found,
    )
      where
        entries : IsTable (p.hash_iter (p.hash_add s.table b))
        entries = rw (hash.iter_add s.table b) (append-IsTable b _ fresh r.table)

        found : (k : ℕ) → p.hash_find (p.hash_add s.table b) k ≡ insert b m k
        found k =
            hash.find _ k entries
            ∙ ap (lookup k) (hash.iter_add s.table b)
            ∙ lookup-append b k _ fresh
            ∙ ap (λ (o : Option Buffer). if b.fd == k then some b else o) (entries_at k)

    -- Deleting a buffer that the map has at `fd` returns 0 and deletes that key from the map.
    pub delete_buffer-delete :
        (b : Buffer) (fd : ℕ)
        → m fd ≡ some b
        → let t = record s { table = p.hash_del s.table b } in
          (delete_buffer p (some b) s ≡ done (ok, t)) × Represents p t (delete fd m)
    unfolding delete_buffer
    delete_buffer-delete b fd held = (refl, represents _ _ entries found)
      where
        entries : IsTable (p.hash_iter (p.hash_del s.table b))
        entries = rw (hash.iter_del s.table b) (without-IsTable b.address _ r.table)

        found : (k : ℕ) → p.hash_find (p.hash_del s.table b) k ≡ delete fd m k
        found k =
            hash.find _ k entries
            ∙ ap (lookup k) (hash.iter_del s.table b)
            ∙ lookup-without fd k _ b r.table (entries_at fd ∙ held)
            ∙ ap (λ (o : Option Buffer). if k == fd then none else o) (entries_at k)
