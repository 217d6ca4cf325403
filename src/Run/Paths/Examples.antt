-- ===== src/Run/Paths/Examples.antt =====
-- The checks on names and paths at concrete texts.
use teploy_sandbox.Prelude.{
  ℕ, ◌≡◌, refl, [], ◌∷◌, arith, Text, codes, text_eq, trim_space, starts, ends, contains_any,
  has_part, split, CaseTable, lower_rune, to_lower, ok, err, bad_request,
}
use teploy_sandbox.Run.Types.{network_allowlist}
use teploy_sandbox.Run.Paths.{parse_network, normalize_slug, validate_warm_path, work_dir}

instance abbrev caseless : CaseTable
caseless = record { lower_beyond_ascii = λ c. c }

caseless_rune : (c : ℕ) → lower_rune (lower_rune c) ≡ lower_rune c
unfolding lower_rune
caseless_rune c = ground arith

caseless_idem : (s : Text) → to_lower (to_lower s) ≡ to_lower s
unfolding to_lower
caseless_idem [] = refl
caseless_idem (c ∷ s) = cc (caseless_rune c, caseless_idem s)

alias : parse_network (codes "egress") ≡ ok network_allowlist
unfolding parse_network text_eq
alias = refl

slug : normalize_slug (codes " Org/Repo.js ") ≡ ok (codes "org/repo.js")
unfolding normalize_slug to_lower trim_space split starts ends
slug = refl

no_owner : normalize_slug (codes "repo") ≡ err bad_request
unfolding normalize_slug to_lower trim_space split
no_owner = refl

warm_paths :
    (validate_warm_path [] ≡ ok work_dir)
    × (validate_warm_path (codes "/cache/a") ≡ ok (codes "/cache/a"))
    × (validate_warm_path (codes "/usr/lib") ≡ err bad_request)
    × (validate_warm_path (codes "/a/../etc") ≡ err bad_request)
unfolding validate_warm_path starts ends has_part split text_eq contains_any
warm_paths = (refl, refl, refl, refl)
