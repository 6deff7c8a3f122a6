-- ===== src/Library/Changed.antt =====
-- Calls of common/gralloc_gbm.c that change the data of one buffer: locks, unlocks and queries.
use gralloc_gbm.Base.{
  ℕ, ◌≡◌, ◌≢◌, ap, sym, ◌∙◌, refl, subst, some, ◌==◌, arith, Bool-cases, inl, inr, eq_of_==,
  ne_of_==, All, ◌<◌,
}
use gralloc_gbm.Machine.{Ptr}
use gralloc_gbm.Platform.{Platform, Buffer}
use gralloc_gbm.State.{State, BoData}
use gralloc_gbm.Table.Entries.{IsTable}
use gralloc_gbm.Table.Map.{BufferMap, Represents, represents, at_key}
use gralloc_gbm.BoData.Steps.{Changes}
use gralloc_gbm.Lock.Count.{IsConsistent}
use gralloc_gbm.Library.{
  Owns, IsSound, SharesBlocks, data_apart, Owns-after, distinct_after, older_entries,
}

module _ {W T : Type 0} {p : Platform W T} {s t : State W T} {f : BufferMap} (v : IsSound p s f)
    (k : ℕ) (b : Buffer) (d : Ptr) (x y : BoData) (at : f k ≡ some b) (o : Owns p s b d x)
    (c : Changes p s d y t) where
  same_table : Represents p t f
  same_table =
      represents p t f (subst (λ (u : T). IsTable (p.hash_iter u)) (sym c.table) v.table.table)
        (λ j. ap (λ (u : T). p.hash_find u j) c.table ∙ at_key p v.table j)

  module _ (consistent : IsConsistent y) (same : SharesBlocks y.metadata x.metadata) where
    Owns-changed : Owns p t b d y
    Owns-changed =
        Owns-after o y
          (record {
            bo_ne = o.carries.bo_ne;
            data_ne = o.carries.data_ne;
            points = c.user_data b.bo ∙ o.carries.points;
            holds = c.at;
          })
          consistent same (λ q above below. ap (λ (g : Ptr → _). g q) c.block)
          (omega (arith, c.next))

    Owns-other :
        (j : ℕ) (e : Buffer) (d' : Ptr) (z : BoData)
        → f j ≡ some e
        → j ≢ k
        → Owns p s e d' z
        → Owns p t e d' z
    Owns-other j e d' z he ne q =
        Owns-after q z
          (record {
            bo_ne = q.carries.bo_ne;
            data_ne = q.carries.data_ne;
            points = c.user_data e.bo ∙ q.carries.points;
            holds = c.elsewhere d' (λ same_place. far same_place) ∙ q.carries.holds;
          })
          q.consistent (refl, refl, refl) (λ a above below. ap (λ (g : Ptr → _). g a) c.block)
          (omega (arith, c.next))
      where
        far : d' ≢ d
        far = omega (arith, data_apart v j k e b d' d z x he at ne q o)

    -- A change of the data of one buffer that keeps it consistent, and its blocks, keeps the whole
    -- state sound.
    pub changed-IsSound : IsSound p t f
    changed-IsSound = record {
      driver = v.driver;
      is_live = c.driver ∙ v.is_live;
      is_ready = v.is_ready;
      table = same_table;
      owner = λ j e he. elim (Bool-cases (j == k)) [
        | inl hit ↦ (
          d,
          y,
          subst (λ (a : Buffer). Owns p t a d y) (found_same j e he (eq_of_== j k hit))
              Owns-changed,
        )
        | inr miss ↦
            let (d', z, q) = v.owner j e he in (d', z, Owns-other j e d' z he (ne_of_== j k miss) q)
      ];
      apart = λ j l e g he hg ne.
          distinct_after p s t e g (c.user_data e.bo) (c.user_data g.bo) (v.apart j l e g he hg ne);
      started = λ e. v.started (omega (arith, e, c.next));
      addresses =
          subst (λ (u : T). All (λ a. a.address < t.next) (p.hash_iter u)) (sym c.table)
            (older_entries s.next t.next _ (omega (arith, c.next)) v.addresses);
    }
      where
        found_same : (j : ℕ) (e : Buffer) → f j ≡ some e → j ≡ k → b ≡ e
        found_same j e he same_key = cc
