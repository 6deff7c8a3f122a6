-- ===== src/Library/Added.antt =====
-- Calls of common/gralloc_gbm.c that add a buffer: creation and import.
use gralloc_gbm.Base.{
  ℕ, ◌+◌, ◌≡◌, ◌≢◌, ◌≤◌, ◌<◌, sym, ◌∙◌, refl, subst, true, false, some, ◌==◌, arith, Bool-cases,
  inl, inr, ◌++◌, ◌∷◌, [],
}
use gralloc_gbm.Machine.{Ptr}
use gralloc_gbm.Platform.{Platform, Buffer}
use gralloc_gbm.State.{State, BoData}
use gralloc_gbm.Table.Map.{BufferMap, insert, Represents}
use gralloc_gbm.Library.{
  Owns, AreDistinct, IsSound, Owns-after, distinct_after, older_entries, older_append,
}

-- From `s` to `t`, the buffer `new` is added with data at `n`; the objects, data and blocks that were
-- there are as before.
pub record Adds {W T : Type 0} (p : Platform W T) (s t : State W T) (new : Buffer) (n : Ptr)
    : Type 0 where
  pub user_data : (bo : Ptr) → bo ≢ new.bo → p.get_user_data t.world bo ≡ p.get_user_data s.world bo
  pub bo_data : (q : Ptr) → q < s.next → t.bo_data q ≡ s.bo_data q
  pub block : (q : Ptr) → q < s.next → t.block q ≡ s.block q
  pub driver : t.driver ≡ s.driver
  pub start : s.next ≤ n
  pub next : n + 4 ≤ t.next
  pub entries : p.hash_iter t.table ≡ p.hash_iter s.table ++ new ∷ []
  pub address : new.address < t.next

module _ {W T : Type 0} {p : Platform W T} {s t : State W T} {f : BufferMap} {new : Buffer}
    {n : Ptr} {x : BoData} (v : IsSound p s f) (a : Adds p s t new n) (o : Owns p t new n x)
    (table : Represents p t (insert new f))
    (fresh : (k : ℕ) (b : Buffer) → f k ≡ some b → b.bo ≢ new.bo) where
  old_owner :
      (k : ℕ) (b : Buffer) (d : Ptr) (y : BoData) → f k ≡ some b → Owns p s b d y → Owns p t b d y
  old_owner k b d y e q =
      Owns-after q y
        (record {
          bo_ne = q.carries.bo_ne;
          data_ne = q.carries.data_ne;
          points = a.user_data b.bo (fresh k b e) ∙ q.carries.points;
          holds = a.bo_data d (omega (arith, q.below)) ∙ q.carries.holds;
        })
        q.consistent (refl, refl, refl) (λ c above below. a.block c (omega (arith, q.below, below)))
        (omega (arith, a.start, a.next))

  old_data : (k : ℕ) (b : Buffer) → f k ≡ some b → p.get_user_data t.world b.bo + 4 ≤ n
  old_data k b e =
      let (d, y, q) = v.owner k b e in
      let points = a.user_data b.bo (fresh k b e) ∙ q.carries.points in
      omega (arith, points, q.below, a.start)

  newest : (k : ℕ) (b : Buffer) → (new.fd == k) ≡ true → insert new f k ≡ some b → new ≡ b
  newest k b hit e = cc

  older : (k : ℕ) (b : Buffer) → (new.fd == k) ≡ false → insert new f k ≡ some b → f k ≡ some b
  older k b miss e = cc

  distinct_new : (k : ℕ) (b : Buffer) → f k ≡ some b → AreDistinct p t b new
  distinct_new k b e = (fresh k b e, inl (omega (arith, o.carries.points, old_data k b e)))

  distinct_swap : (b c : Buffer) → AreDistinct p t b c → AreDistinct p t c b
  distinct_swap b c (objects, far) = ((λ same. objects (sym same)), omega (arith, far))

  distinct_added :
      (j k : ℕ) (b c : Buffer)
      → insert new f j ≡ some b
      → insert new f k ≡ some c
      → j ≢ k
      → AreDistinct p t b c
  distinct_added j k b c hb hc ne = elim (Bool-cases (new.fd == j)) [
    | inl hit ↦
        let miss : (new.fd == k) ≡ false = ground arith in
        subst (λ (e : Buffer). AreDistinct p t e c) (newest j b hit hb)
          (distinct_swap c new (distinct_new k c (older k c miss hc)))
    | inr miss ↦ elim (Bool-cases (new.fd == k)) [
      | inl hit ↦
          subst (λ (e : Buffer). AreDistinct p t b e) (newest k c hit hc)
            (distinct_new j b (older j b miss hb))
      | inr also ↦
          let hb' = older j b miss hb in
          let hc' = older k c also hc in
          distinct_after p s t b c (a.user_data b.bo (fresh j b hb'))
            (a.user_data c.bo (fresh k c hc')) (v.apart j k b c hb' hc' ne)
    ]
  ]

  -- Adding a buffer whose object no buffer of the table has, and whose data is new, keeps the state
  -- sound.
  pub added-IsSound : IsSound p t (insert new f)
  added-IsSound = record {
    driver = v.driver;
    is_live = a.driver ∙ v.is_live;
    is_ready = v.is_ready;
    table = table;
    owner = λ k b e. elim (Bool-cases (new.fd == k)) [
      | inl hit ↦ (n, x, subst (λ (c : Buffer). Owns p t c n x) (newest k b hit e) o)
      | inr miss ↦
          let (d, y, q) = v.owner k b (older k b miss e) in
          (d, y, old_owner k b d y (older k b miss e) q)
    ];
    apart = distinct_added;
    started = λ e. v.started (omega (arith, e, a.start, a.next));
    addresses = rw a.entries (
        older_append t.next _ new
          (older_entries s.next t.next _ (omega (arith, a.start, a.next)) v.addresses) a.address);
  }
