-- ===== src/Egress/Allowlist/Reparse.antt =====
-- Entries that are written into a comma-separated list come back from it (pool.go: OpenFor joins a
-- run's extra entries and parses them again; proxy.go: ParseAllowlist).
use mathlib.Core.List.{append-nil, append_assoc}
use teploy_sandbox.Prelude.{
  ℕ, ◌≡◌, refl, sym, ap, ◌∙◌, Bool, true, false, not, ◌&&◌, List, [], ◌∷◌, ◌++◌, arith, ◌==◌, all,
  All, Text, trim_space, is_empty, join, CaseTable, to_lower,
}
use teploy_sandbox.Egress.Allowlist.{is_separator, flush, fields, keep_entries, parse_allowlist}

abbrev pub no_list_char : ℕ → Bool
no_list_char c = not (c == b',') && not (c == b' ') && not (c == b'\n')

fields-append :
    (e rest field : Text)
    → all no_list_char e ≡ true
    → fields (e ++ rest) field ≡ fields rest (field ++ e)
unfolding fields is_separator
fields-append [] rest field h = rw append-nil
fields-append (c ∷ e) rest field h =
    ground (arith, fields-append e rest (field ++ c ∷ []), append_assoc field (c ∷ []) e)

fields_comma : (rest field : Text) → fields (b',' ∷ rest) field ≡ flush field (fields rest [])
unfolding fields is_separator
fields_comma rest field = refl

flush-nonempty :
    (field : Text) (rest : List Text) → is_empty field ≡ false → flush field rest ≡ field ∷ rest
unfolding flush
flush-nonempty field rest h = rw h

module _ ⦃u : CaseTable⦄ where
  -- Not empty, free of separators, and left alone by trimming and ToLower.
  pub record Plain (e : Text) : Type 0 where
    pub nonempty : is_empty e ≡ false
    pub unbroken : all no_list_char e ≡ true
    pub trimmed : to_lower (trim_space e) ≡ e

  fields-join : (es : List Text) → All Plain es → fields (join es b',') [] ≡ es
  unfolding join
  fields-join [] h = unfold fields flush in refl
  fields-join (e ∷ []) (p, _) =
      ap (λ t. fields t []) (sym (append-nil e))
      ∙ fields-append e [] [] p.unbroken
      ∙ unfold fields in flush-nonempty e [] p.nonempty
  fields-join (e ∷ e' ∷ es) (p, ps) =
      fields-append e (b',' ∷ join (e' ∷ es) b',') [] p.unbroken
      ∙ fields_comma (join (e' ∷ es) b',') e
      ∙ flush-nonempty e _ p.nonempty
      ∙ ap (◌∷◌ e) (fields-join (e' ∷ es) ps)

  keep_entries-Plain : (es : List Text) → All Plain es → keep_entries es ≡ es
  unfolding keep_entries
  keep_entries-Plain [] h = refl
  keep_entries-Plain (e ∷ es) (p, ps) = rw (p.trimmed, p.nonempty, keep_entries-Plain es ps)

  pub parse_allowlist-join : (es : List Text) → All Plain es → parse_allowlist (join es b',') ≡ es
  unfolding parse_allowlist
  parse_allowlist-join es h = rw (fields-join es h) (keep_entries-Plain es h)
