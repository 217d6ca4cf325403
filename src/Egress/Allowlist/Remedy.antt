-- ===== src/Egress/Allowlist/Remedy.antt =====
-- A denial names an entry that would have admitted the request (proxy.go: SuggestEntry).
use mathlib.Core.List.{reverse}
use teploy_sandbox.Prelude.{
  ℕ, ◌≡◌, refl, ◌≢◌, inl, inr, Bool, true, [], ◌∷◌, ◌++◌, arith, Bool-cases, all, all-reverse, Text,
  text_eq, text_eq_refl, trim_prefix, trim_suffix, CaseTable, lower_rune, to_lower,
}
use teploy_sandbox.Egress.Address.Parts.{
  is_plain, split_host_port-plain, split_host_port-bare, join_host_port-plain,
}
use teploy_sandbox.Egress.Allowlist.{
  https_port, is_web_port, entry_parts, parts_admit, entry_admits, normal_host, request_parts,
  permits, suggest_entry,
}
use teploy_sandbox.Egress.Allowlist.Hosts.{host_matches_self}

trim_prefix-all :
    (p : ℕ → Bool) (c : ℕ) (s : Text) → all p s ≡ true → all p (trim_prefix c s) ≡ true
unfolding trim_prefix
trim_prefix-all p c [] h = refl
trim_prefix-all p c (d ∷ s) h = ground arith

entry_admits_self :
    (host port : Text)
    → all is_plain host ≡ true
    → is_web_port port ≡ true
    → entry_admits host port host ≡ true
unfolding entry_admits entry_parts parts_admit
entry_admits_self host port h web =
    rw (split_host_port-bare host h, entry_parts, web) (host_matches_self host)

entry_admits_port :
    (host port : Text)
    → all is_plain host ≡ true
    → all is_plain port ≡ true
    → port ≢ []
    → entry_admits host port (host ++ b':' ∷ port) ≡ true
unfolding entry_admits entry_parts parts_admit
entry_admits_port host [] h p given = absurd (given refl)
entry_admits_port host (c ∷ s) h p given =
    rw
      (split_host_port-plain host (c ∷ s) h p, entry_parts, text_eq_refl (c ∷ s), text_eq_refl host)

module _ ⦃u : CaseTable⦄ where
  lower-plain : (s : Text) → all is_plain s ≡ true → all is_plain (to_lower s) ≡ true
  unfolding to_lower lower_rune
  lower-plain [] h = refl
  lower-plain (c ∷ s) h = ground (arith, lower-plain s)

  normal_host-plain : (s : Text) → all is_plain s ≡ true → all is_plain (normal_host s) ≡ true
  unfolding normal_host trim_suffix
  normal_host-plain s h = lower-plain _ (
      all-reverse is_plain (trim_prefix b'.' (reverse s))
        (trim_prefix-all is_plain b'.' (reverse s) (all-reverse is_plain s h)))

  -- For a request whose host and port are ASCII without colons and brackets, the port given or not,
  -- an allowlist that holds nothing but SuggestEntry's answer admits the request.
  pub permits-suggest_entry :
      (host port : Text)
      → all is_plain host ≡ true
      → all is_plain port ≡ true
      → port ≢ []
      → (permits (suggest_entry (host ++ b':' ∷ port) ∷ []) (host ++ b':' ∷ port) ≡ true)
        × (permits (suggest_entry host ∷ []) host ≡ true)
  unfolding permits suggest_entry request_parts
  permits-suggest_entry host port h p given = (with_port, bare)
    where
      with_port : permits (suggest_entry (host ++ b':' ∷ port) ∷ []) (host ++ b':' ∷ port) ≡ true
      with_port = elim (Bool-cases (is_web_port port)) [
        | inl web ↦
            rw (split_host_port-plain host port h p, suggest_entry, request_parts, web)
              (ground
                (arith, entry_admits_self (normal_host host) port (normal_host-plain host h) web))
        | inr other ↦
            rw
              (
                split_host_port-plain host port h p,
                suggest_entry,
                request_parts,
                other,
                join_host_port-plain (normal_host host) port (normal_host-plain host h),
              )
              (ground (
                arith,
                entry_admits_port (normal_host host) port (normal_host-plain host h) p given,
              ))
      ]

      bare : permits (suggest_entry host ∷ []) host ≡ true
      bare =
          rw (split_host_port-bare host h, suggest_entry, request_parts)
            (ground (
              arith,
              entry_admits_self (normal_host host) https_port (normal_host-plain host h)
                  (unfold is_web_port text_eq in refl),
            ))
