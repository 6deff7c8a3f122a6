-- ===== src/Flags/Bits.antt =====
-- Which flags of common/gralloc_gbm.c a usage gives, bit by bit.
use mathlib.Core.Bool.{and-false, or-false}
use gralloc_gbm.Base.{
  ℕ, ◌-◌, ◌^◌, ◌≡◌, refl, Bool, true, false, bit_and, ◌&&◌, ◌||◌, not, ◌==◌, arith, Bool-cases, inl,
  inr, ap, subst, ◌∙◌,
}
use gralloc_gbm.Base.Bits.{has, has-bit_or, bit_and_assoc, bit_and-zero}
use gralloc_gbm.Hal.Usage
use gralloc_gbm.Gbm.Use
use gralloc_gbm.Flags.{
  Config, add_flag, usage_flags, bad_dumb_buffer, drop_cursor, calculate_gbm_flags,
}

has-add_flag : (t : Bool) (m f k : ℕ) → has (add_flag t m f) k ≡ (has f k || (t && has m k))
unfolding add_flag
has-add_flag true m f k = has-bit_or f m k
has-add_flag false m f k = ground arith

and_true : (b : Bool) → (b && true) ≡ b
and_true b = ground arith

ruleset flag_laws = (has-add_flag, and-false, and_true, or-false)

-- The flags that `flags` has, each by the usage bits that ask for it; `cursor` says whether it has
-- the cursor flag.
pub record Translates (c : Config) (u flags : ℕ) (cursor : Bool) : Type 0 where
  pub linear : has flags Use.linear ≡ (
      has u Usage.sw_read_often
      || has u Usage.sw_read_rarely
      || has u Usage.sw_write_often
      || has u Usage.sw_write_rarely)
  pub write : has flags Use.write ≡ (
      has u Usage.sw_write_often && c.use_sw_render
      || has u Usage.sw_write_rarely && c.use_sw_render)
  pub rendering : has flags Use.rendering ≡ (
      has u Usage.hw_texture
      || has u Usage.hw_render
      || has u Usage.hw_2d
      || has u Usage.hw_composer)
  pub scanout : has flags Use.scanout ≡ (has u Usage.hw_composer || has u Usage.hw_fb)
  pub protected : has flags Use.protected ≡ has u Usage.protected
  pub cursor_flag : has flags Use.cursor ≡ cursor

usage_flags-Translates :
    (c : Config) (u : ℕ) → Translates c u (usage_flags c u) (has u Usage.cursor && c.has_cursor)
unfolding usage_flags
usage_flags-Translates c u = record {
  linear = simp flag_laws;
  write = simp flag_laws;
  rendering = simp flag_laws;
  scanout = simp flag_laws;
  protected = simp flag_laws;
  cursor_flag = simp flag_laws;
}

-- Clearing the cursor flag leaves the others.
clear-has :
    (f k : ℕ)
    → bit_and (2 ^ 32 - 1 - Use.cursor) k ≡ k
    → has (bit_and f (2 ^ 32 - 1 - Use.cursor)) k ≡ has f k
clear-has f k e =
    ap (λ (t : ℕ). not (t == 0)) (bit_and_assoc f (2 ^ 32 - 1 - Use.cursor) k ∙ ap (bit_and f) e)

clear-cursor : (f : ℕ) → has (bit_and f (2 ^ 32 - 1 - Use.cursor)) Use.cursor ≡ false
clear-cursor f = ap (λ (t : ℕ). not (t == 0)) (bit_and_assoc f _ Use.cursor ∙ bit_and-zero f)

module _ {c : Config} {u f : ℕ} {b : Bool} (t : Translates c u f b) where
  retag : {b' : Bool} → b ≡ b' → Translates c u f b'
  retag e = subst (Translates c u f) e t

  clear-Translates : Translates c u (bit_and f (2 ^ 32 - 1 - Use.cursor)) false
  clear-Translates = record {
    linear = clear-has f Use.linear refl ∙ t.linear;
    write = clear-has f Use.write refl ∙ t.write;
    rendering = clear-has f Use.rendering refl ∙ t.rendering;
    scanout = clear-has f Use.scanout refl ∙ t.scanout;
    protected = clear-has f Use.protected refl ∙ t.protected;
    cursor_flag = clear-cursor f;
  }

  drop_cursor-Translates :
      Translates c u (drop_cursor c f) (b && not (c.no_cursor_rendering && has f Use.rendering))
  unfolding drop_cursor
  drop_cursor-Translates =
      elim (Bool-cases ((has f Use.cursor && has f Use.rendering) && c.no_cursor_rendering)) [
        | inl e ↦
            rw (e, drop_cursor)
              (subst (Translates c u (bit_and f (2 ^ 32 - 1 - Use.cursor)))
                (dropped b _ c.no_cursor_rendering _ t.cursor_flag e) clear-Translates)
        | inr e ↦ rw (e, drop_cursor) (retag (kept b _ c.no_cursor_rendering _ t.cursor_flag e))
      ]
    where
      dropped : (b r n x : Bool) → x ≡ b → ((x && r) && n) ≡ true → false ≡ (b && not (n && r))
      dropped b r n x e h = ground arith

      kept : (b r n x : Bool) → x ≡ b → ((x && r) && n) ≡ false → b ≡ (b && not (n && r))
      kept b r n x e h = ground arith

-- Whether the cursor flag is dropped again.
abbrev pub drops : Config → ℕ → ℕ → Bool
drops c u g =
    c.no_cursor_rendering
    && has (usage_flags c u) Use.rendering
    && not (bad_dumb_buffer (usage_flags c u) g)

-- For every usage, format and build, the flags are those that the usage bits ask for; the cursor
-- flag is dropped exactly if the build drops it beside rendering, the usage asks for rendering, and
-- the flags do not clash with GBM_BO_USE_WRITE.
pub calculate_gbm_flags-Translates :
    (c : Config) (u g : ℕ)
    → Translates c u
        (calculate_gbm_flags c u g)
        (has u Usage.cursor && c.has_cursor && not (drops c u g))
unfolding calculate_gbm_flags
calculate_gbm_flags-Translates c u g = elim (Bool-cases (bad_dumb_buffer (usage_flags c u) g)) [
  | inl bad ↦ rw bad (retag (usage_flags-Translates c u) (ground arith))
  | inr fine ↦ rw fine (retag (drop_cursor-Translates (usage_flags-Translates c u)) (ground arith))
]

-- In a build that drops the cursor flag beside rendering, the flags hold both only where they clash
-- with GBM_BO_USE_WRITE.
calculate_gbm_flags_exclusive :
    (c : Config) (u g : ℕ)
    → c.no_cursor_rendering ≡ true
    → bad_dumb_buffer (usage_flags c u) g ≡ false
    → (has (calculate_gbm_flags c u g) Use.cursor && has (calculate_gbm_flags c u g) Use.rendering)
      ≡ false
calculate_gbm_flags_exclusive c u g drop fine =
    let t = calculate_gbm_flags-Translates c u g in
    let r = usage_flags-Translates c u in ground (arith, t.cursor_flag, t.rendering, r.rendering)
