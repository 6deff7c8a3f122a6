-- ===== src/Format/Search.antt =====
-- color_fmt_a2g and color_fmt_g2a of include/gralloc_gbm_format.h as maps between formats.
use gralloc_gbm.Base.{
  ℕ, ◌<◌, ◌≡◌, refl, ap, ◌≢◌, ◌⊎◌, inl, inr, ◌∙◌, List, [], ◌∷◌, All, arith, ◌==◌, ==_iff,
  Bool-cases,
}
use gralloc_gbm.Machine.{neg_einval}
use gralloc_gbm.Format.{
  ColorFormat, color_format_map, search_android, search_gbm, color_fmt_a2g, color_fmt_g2a,
}

module _ (P : ColorFormat → Type 0) (f : ℕ) where
  -- A search fails, or ends at an entry with the key.
  abbrev pub FoundAndroid : ℕ → Type 0
  FoundAndroid r =
      (r ≡ neg_einval) ⊎ ((c : ColorFormat) × P c × (c.android_format ≡ f) × (r ≡ c.gbm_format))

  abbrev FoundGbm : ℕ → Type 0
  FoundGbm r =
      (r ≡ neg_einval) ⊎ ((c : ColorFormat) × P c × (c.gbm_format ≡ f) × (r ≡ c.android_format))

  search_android-Found : (cs : List ColorFormat) → All P cs → FoundAndroid (search_android cs f)
  unfolding search_android
  search_android-Found [] h = inl refl
  search_android-Found (c ∷ cs) h = elim (Bool-cases (c.android_format == f)) [
    | inl hit ↦ rw hit (inr (c, h.0, (==_iff _ _).0 hit, refl))
    | inr miss ↦ rw miss (search_android-Found cs h.1)
  ]

  search_gbm-Found : (cs : List ColorFormat) → All P cs → FoundGbm (search_gbm cs f)
  unfolding search_gbm
  search_gbm-Found [] h = inl refl
  search_gbm-Found (c ∷ cs) h = elim (Bool-cases (c.gbm_format == f)) [
    | inl hit ↦ rw hit (inr (c, h.0, (==_iff _ _).0 hit, refl))
    | inr miss ↦ rw miss (search_gbm-Found cs h.1)
  ]

  pub color_fmt_a2g-Found : All P color_format_map → FoundAndroid (color_fmt_a2g f)
  unfolding color_fmt_a2g
  color_fmt_a2g-Found h = search_android-Found color_format_map h

  color_fmt_g2a-Found : All P color_format_map → FoundGbm (color_fmt_g2a f)
  unfolding color_fmt_g2a
  color_fmt_g2a-Found h = search_gbm-Found color_format_map h

-- What the entries satisfy, checked entry by entry.
abbrev Returns : ColorFormat → Type 0
Returns c = color_fmt_g2a c.gbm_format ≡ c.android_format

abbrev Leaves : ColorFormat → Type 0
Leaves c = color_fmt_a2g c.android_format ≡ c.gbm_format

table-Returns : All Returns color_format_map
unfolding color_format_map color_fmt_g2a
table-Returns = (
  refl,
  (
    refl,
    (
      refl,
      (
        refl,
        (
          refl,
          (
            refl,
            (refl, (refl, (refl, (refl, (refl, (refl, (refl, (refl, (refl, (refl, tt)))))))))),
          ),
        ),
      ),
    ),
  ),
)

table-Leaves : All Leaves color_format_map
unfolding color_format_map color_fmt_a2g
table-Leaves = (
  refl,
  (
    refl,
    (
      refl,
      (
        refl,
        (
          refl,
          (
            refl,
            (refl, (refl, (refl, (refl, (refl, (refl, (refl, (refl, (refl, (refl, tt)))))))))),
          ),
        ),
      ),
    ),
  ),
)

-- Translating a format that the table lists to GBM and back gives the format again.
pub g2a-a2g : (f : ℕ) → color_fmt_a2g f ≢ neg_einval → color_fmt_g2a (color_fmt_a2g f) ≡ f
g2a-a2g f listed = elim (color_fmt_a2g-Found Returns f table-Returns) [
  | inl e ↦ absurd (listed e)
  | inr (c, back, key, e) ↦ ap color_fmt_g2a e ∙ back ∙ key
]

-- Translating a GBM format that the table lists to Android and back gives the format again.
a2g-g2a : (g : ℕ) → color_fmt_g2a g ≢ neg_einval → color_fmt_a2g (color_fmt_g2a g) ≡ g
a2g-g2a g listed = elim (color_fmt_g2a-Found Leaves g table-Leaves) [
  | inl e ↦ absurd (listed e)
  | inr (c, back, key, e) ↦ ap color_fmt_a2g e ∙ back ∙ key
]

abbrev IsPositive : ColorFormat → Type 0
IsPositive c = 0 < c.gbm_format

table-IsPositive : All IsPositive color_format_map
unfolding color_format_map
table-IsPositive = omega arith

-- The result is never 0, also for a format that is not in the table, so the callers' test
-- `gbm_format <= 0` on the unsigned result never holds.
pub a2g_pos : (f : ℕ) → 0 < color_fmt_a2g f
a2g_pos f = elim (color_fmt_a2g-Found IsPositive f table-IsPositive) [
  | inl e ↦ omega (arith, e)
  | inr (c, p, key, e) ↦ omega (arith, e, p)
]
