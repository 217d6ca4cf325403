-- ===== src/Run/Paths/Confined.antt =====
-- An accepted path stays where it should (manager.go: ValidateWorkPath; cache.go: NormalizeSlug,
-- ValidateWarmPath).
use teploy_sandbox.Prelude.{
  ℕ, ◌≡◌, refl, ap, ◌∙◌, true, not, ◌&&◌, ◌||◌, List, [], ◌∷◌, arith, ltb, ◌==◌, if◌then◌else◌,
  Bool-cases, all, any, all_mono, Text, codes, text_eq, is_space, trim_space, is_empty, split,
  CaseTable, to_lower, split-all, trim_space-Spaceless, ok,
}
use teploy_sandbox.Run.Paths.{
  is_slug_segment, is_slug_char, is_slug_start, has_slug_shape, is_dotted, normalize_slug,
  check_slug,
}

-- How a kernel walks a path: `dirs` are the directories that it is in, the innermost first.
pub enter : List Text → Text → List Text
enter dirs segment =
    if is_empty segment || text_eq segment (codes ".")
    then dirs
    else if text_eq segment (codes "..")
    then leave dirs
    else segment ∷ dirs
  where
    leave : List Text → List Text
    leave [] = []
    leave (d ∷ ds) = ds

pub walk : List Text → List Text → List Text
walk dirs [] = dirs
walk dirs (segment ∷ rest) = walk (enter dirs segment) rest

slug_segment-chars :
    (segments : List Text)
    → all is_slug_segment segments ≡ true
    → all (all is_slug_char) segments ≡ true
unfolding is_slug_segment is_slug_char
slug_segment-chars [] h = refl
slug_segment-chars ([] ∷ segments) h = cc
slug_segment-chars ((c ∷ s) ∷ segments) h = ground (arith, slug_segment-chars segments)

slug_char-range : (c : ℕ) → (is_slug_char c || c == b'/') ≡ true → (ltb 0x20 c && ltb c 0x80) ≡ true
unfolding is_slug_char is_slug_start
slug_char-range c h = ground arith

range-not_space : (c : ℕ) → (ltb 0x20 c && ltb c 0x80) ≡ true → not (is_space c) ≡ true
range-not_space c h = ground arith

spaceless :
    (s : Text)
    → all (λ c. is_slug_char c || c == b'/') s ≡ true
    → all (λ c. not (is_space c)) s ≡ true
spaceless s h = all_mono _ _ s (λ c k. range-not_space c (slug_char-range c k)) h

shape-spaceless : (slug : Text) → has_slug_shape slug ≡ true → trim_space slug ≡ slug
unfolding has_slug_shape
shape-spaceless slug h =
    let segments : all is_slug_segment (split slug b'/') ≡ true = ground arith in
    trim_space-Spaceless slug (
      spaceless slug
        (split-all is_slug_char slug b'/' (slug_segment-chars (split slug b'/') segments)))

checked : (low slug : Text) → check_slug low ≡ ok slug → (has_slug_shape low ≡ true) × (slug ≡ low)
unfolding check_slug
checked low slug h =
    ground (arith, Bool-cases (has_slug_shape low), Bool-cases (any is_dotted (split low b'/')))

module _ ⦃u : CaseTable⦄ (lower_idem : (s : Text) → to_lower (to_lower s) ≡ to_lower s) where
  -- NormalizeSlug maps what it returned to itself, if ToLower leaves what is in lower case as it is:
  -- one repository has one slug, and so one directory in the cache.
  pub normalize_slug-fixed :
      (repo slug : Text) → normalize_slug repo ≡ ok slug → normalize_slug slug ≡ ok slug
  unfolding normalize_slug
  normalize_slug-fixed repo slug h =
      let low = to_lower (trim_space repo) in
      let parts = checked low slug h in
      let same : to_lower (trim_space slug) ≡ low =
        rw parts.1 (ap to_lower (shape-spaceless low parts.0) ∙ lower_idem (trim_space repo)) in
      ap check_slug same ∙ h
