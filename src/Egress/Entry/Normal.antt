-- ===== src/Egress/Entry/Normal.antt =====
-- An accepted entry is in normal form: it is accepted again as it is, and it survives being written
-- into a comma-separated list (proxy.go: ValidateEntry, ValidateAllowlist, ParseAllowlist).
use teploy_sandbox.Prelude.{
  ℕ, ◌≡◌, refl, ap, ◌∙◌, not, List, [], ◌∷◌, All, all_mono, Text, is_space, trim_space, join,
  CaseTable, lower_rune, to_lower, trim_space-Spaceless,
}
use teploy_sandbox.Egress.Allowlist.{parse_allowlist}
use teploy_sandbox.Egress.Allowlist.Reparse.{no_list_char, Plain, parse_allowlist-join}
use teploy_sandbox.Egress.Entry.{accepted, validate_entry, validate_allowlist}
use teploy_sandbox.Egress.Entry.Grammar.{
  is_entry_char, check_entry-Valid, Valid-chars, >>=-eq-accepted, entry_char-not_space,
  entry_char-not_list_char, check_shape-nonempty,
}

module _ ⦃u : CaseTable⦄ (lower_idem : (c : ℕ) → lower_rune (lower_rune c) ≡ lower_rune c) where
  to_lower_idem : (s : Text) → to_lower (to_lower s) ≡ to_lower s
  unfolding to_lower
  to_lower_idem [] = refl
  to_lower_idem (c ∷ s) = cc (lower_idem c, to_lower_idem s)

  pub validate_entry-Plain : (raw e : Text) → validate_entry raw ≡ accepted e → Plain e
  unfolding validate_entry
  validate_entry-Plain raw e h =
      let (same, (host, port, valid)) = check_entry-Valid (to_lower (trim_space raw)) e h in
      let chars = Valid-chars (to_lower (trim_space raw)) host port valid in
      rw same (record {
        nonempty = check_shape-nonempty (to_lower (trim_space raw)) valid.shape;
        unbroken =
            all_mono is_entry_char no_list_char (to_lower (trim_space raw)) entry_char-not_list_char
              chars;
        trimmed =
            ap to_lower (
              trim_space-Spaceless (to_lower (trim_space raw)) (
                all_mono is_entry_char (λ c. not (is_space c)) (to_lower (trim_space raw))
                  entry_char-not_space chars))
            ∙ to_lower_idem (trim_space raw);
      })

  -- The entry that ValidateEntry returns is accepted again and comes back unchanged, if ToLower
  -- leaves what is in lower case as it is.
  pub validate_entry-fixed :
      (raw e : Text) → validate_entry raw ≡ accepted e → validate_entry e ≡ accepted e
  unfolding validate_entry
  validate_entry-fixed raw e h =
      let plain = validate_entry-Plain raw e h in
      let (same, _) = check_entry-Valid (to_lower (trim_space raw)) e h in
      rw (plain.trimmed, same) (rw same at h)

  validate_allowlist-Plain :
      (raws es : List Text) → validate_allowlist raws ≡ accepted es → All Plain es
  unfolding validate_allowlist
  validate_allowlist-Plain [] es h = let e : es ≡ [] = cc in rw e tt
  validate_allowlist-Plain (raw ∷ raws) es h =
      let (e, first, h₁) = >>=-eq-accepted (validate_entry raw) _ h in
      let (rest, later, h₂) = >>=-eq-accepted (validate_allowlist raws) _ h₁ in
      let shape : es ≡ e ∷ rest = cc in
      rw shape (validate_entry-Plain raw e first, validate_allowlist-Plain raws rest later)

  -- What ValidateAllowlist returns is read back by ParseAllowlist from the entries joined by commas,
  -- entry by entry and in order, if ToLower leaves what is in lower case as it is.
  pub parse_allowlist-validated :
      (raws es : List Text)
      → validate_allowlist raws ≡ accepted es
      → parse_allowlist (join es b',') ≡ es
  parse_allowlist-validated raws es h = parse_allowlist-join es (validate_allowlist-Plain raws es h)
