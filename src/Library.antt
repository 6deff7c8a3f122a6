-- ===== src/Library.antt =====
-- The library of common/gralloc_gbm.c as a whole: what holds of its state between calls, and how a call
-- that touches one buffer keeps it.
pub mod Changed
pub mod Drivers
pub mod Fresh
pub mod Start
pub mod Queried
pub mod Imports
pub mod Creations
pub mod Added
pub mod Outside
pub mod Steps
pub mod Reach
pub mod Freed
pub mod Created
pub mod Locked
use gralloc_gbm.Base.{
  ℕ, ◌+◌, ◌≡◌, ◌≢◌, ◌≤◌, ◌<◌, ap, sym, ◌∙◌, subst, true, none, some, [], ◌==◌, ◌⊎◌, arith,
  Bool-cases, inl, inr, eq_of_==, ne_of_==, suc, All, List, ◌∷◌, ◌++◌,
}
use gralloc_gbm.Machine.{Ptr, null}
use gralloc_gbm.Platform.{Platform, Buffer}
use gralloc_gbm.State.{State, Driver, live, BoData, Metadata}
use gralloc_gbm.Handle.{Handle}
use gralloc_gbm.Table.Entries.{IsTable}
use gralloc_gbm.Table.Map.{BufferMap, Represents, represents, at_key}
use gralloc_gbm.BoData.Steps.{Changes, Carries}
use gralloc_gbm.Lock.Count.{IsConsistent}
use gralloc_gbm.Lock.Calls.{Manages}

-- Two metadata with the same three blocks.
abbrev pub SharesBlocks : Metadata → Metadata → Type 0
SharesBlocks m n =
    (m.smpte2086 ≡ n.smpte2086) × (m.cta861_3 ≡ n.cta861_3) × (m.smpte2094_50 ≡ n.smpte2094_50)

pub shares : {m n : Metadata} → m ≡ n → SharesBlocks m n
shares e = (ap (λ m. m.smpte2086) e, ap (λ m. m.cta861_3) e, ap (λ m. m.smpte2094_50) e)

-- The buffer's object has live, consistent data `x` at `d`, whose three blocks are live and
-- follow it.
pub record Owns {W T : Type 0} (p : Platform W T) (s : State W T) (b : Buffer) (d : Ptr)
    (x : BoData) : Type 0 where
  pub carries : Carries p s b.bo d x
  pub consistent : IsConsistent x
  pub smpte2086 : x.metadata.smpte2086 ≡ d + 1
  pub cta861_3 : x.metadata.cta861_3 ≡ d + 2
  pub smpte2094_50 : x.metadata.smpte2094_50 ≡ d + 3
  pub blocks : (q : Ptr) → d < q → q < d + 4 → s.block q ≡ true
  pub below : d + 4 ≤ s.next

-- The addresses are so far from each other that their data and blocks do not meet.
abbrev pub AreApart : Ptr → Ptr → Type 0
AreApart d e = (d + 4 ≤ e) ⊎ (e + 4 ≤ d)

-- The two buffers share no object, data or block.
abbrev pub AreDistinct : {W T : Type 0} → Platform W T → State W T → Buffer → Buffer → Type 0
AreDistinct p s b c =
    (b.bo ≢ c.bo) × AreApart (p.get_user_data s.world b.bo) (p.get_user_data s.world c.bo)

-- The driver is ready, the table represents `f`, each of its buffers owns its data and its blocks, and
-- no two share an object, data or a block. The entries of the table are older than the next
-- allocation.
pub record IsSound {W T : Type 0} (p : Platform W T) (s : State W T) (f : BufferMap) : Type 0 where
  pub driver : Driver
  pub is_live : s.driver ≡ live driver
  pub is_ready : driver.ready ≡ true
  pub table : Represents p s f
  pub owner : (k : ℕ) (b : Buffer) → f k ≡ some b → (d : Ptr) × (x : BoData) × Owns p s b d x
  pub apart : (j k : ℕ) (b c : Buffer) → f j ≡ some b → f k ≡ some c → j ≢ k → AreDistinct p s b c
  pub started : s.next ≢ null
  pub addresses : All (λ b. b.address < s.next) (p.hash_iter s.table)

module _ {W T : Type 0} {p : Platform W T} {s : State W T} {f : BufferMap} (v : IsSound p s f) where
  -- A handle whose descriptor is in the table is managed.
  pub sound-Manages :
      (h : Handle) (b : Buffer) (d : Ptr) (x : BoData)
      → f h.prime_fd ≡ some b
      → Owns p s b d x
      → Manages p s h b d x
  sound-Manages h b d x e o = record {
    driver = v.driver;
    is_live = v.is_live;
    is_ready = v.is_ready;
    found = at_key p v.table h.prime_fd ∙ e;
    carries = o.carries;
  }

  -- The data of two buffers lies apart.
  pub data_apart :
      (j k : ℕ) (b c : Buffer) (d e : Ptr) (x y : BoData)
      → f j ≡ some b
      → f k ≡ some c
      → j ≢ k
      → Owns p s b d x
      → Owns p s c e y
      → AreApart d e
  data_apart j k b c d e x y hb hc ne o q =
      subst (λ (a : Ptr). AreApart a e) o.carries.points
        (subst (λ (a : Ptr). AreApart (p.get_user_data s.world b.bo) a) q.carries.points
          (v.apart j k b c hb hc ne).1)

module _ {W T : Type 0} {p : Platform W T} {s t : State W T} {b : Buffer} {d : Ptr} {x : BoData}
    (o : Owns p s b d x) where
  -- Data that stays consistent in its place is still owned.
  pub Owns-after :
      (y : BoData)
      → Carries p t b.bo d y
      → IsConsistent y
      → SharesBlocks y.metadata x.metadata
      → ((q : Ptr) → d < q → q < d + 4 → t.block q ≡ s.block q)
      → s.next ≤ t.next
      → Owns p t b d y
  Owns-after y c v same blocks grows = record {
    carries = c;
    consistent = v;
    smpte2086 = same.0 ∙ o.smpte2086;
    cta861_3 = same.1 ∙ o.cta861_3;
    smpte2094_50 = same.2 ∙ o.smpte2094_50;
    blocks = λ q above below. blocks q above below ∙ o.blocks q above below;
    below = omega (arith, o.below, grows);
  }

module _ {W T : Type 0} (p : Platform W T) (s t : State W T) (b c : Buffer) where
  -- Buffers whose objects keep their user data stay distinct.
  pub distinct_after :
      p.get_user_data t.world b.bo ≡ p.get_user_data s.world b.bo
      → p.get_user_data t.world c.bo ≡ p.get_user_data s.world c.bo
      → AreDistinct p s b c
      → AreDistinct p t b c
  distinct_after e e' (objects, far) = (
    objects,
    subst (λ (q : Ptr). AreApart q (p.get_user_data t.world c.bo)) (sym e)
        (subst (λ (q : Ptr). AreApart (p.get_user_data s.world b.bo) q) (sym e') far),
  )

-- Entries older than `n` are older than any later allocation.
pub older_entries :
    (m n : Ptr) (bs : List Buffer)
    → m ≤ n
    → All (λ b. b.address < m) bs
    → All (λ b. b.address < n) bs
older_entries m n [] h a = tt
older_entries m n (b ∷ bs) h a = (omega (arith, a.0), older_entries m n bs h a.1)

pub older_append :
    (n : Ptr) (bs : List Buffer) (b : Buffer)
    → All (λ c. c.address < n) bs
    → b.address < n
    → All (λ c. c.address < n) (bs ++ b ∷ [])
older_append n [] b a h = (h, tt)
older_append n (c ∷ bs) b a h = (a.0, older_append n bs b a.1 h)
