-- ===== src/Run/Manager/Snapshots/Deletable.antt =====
-- What the snapshot calls may delete (manager.go: Snapshot, DeleteSnapshot; runtime.go:
-- ImageIsSnapshot).
use mathlib.Core.List.{append_assoc}
use teploy_sandbox.Prelude.{
  ◌≡◌, refl, sym, ap, ◌∙◌, inl, inr, Bool, true, false, ◌++◌, arith, Bool-cases, Option-cases, Text,
  codes, text_eq, text_eq_iff, text_eq_refl, starts, CaseTable, to_lower, starts-append, lookup, ok,
  err, not_found, internal,
}
use teploy_sandbox.Run.Runtime.Args.{snapshot_repo, image_is_snapshot}
use teploy_sandbox.Run.Manager.World.{World, with_member, without_member}
use teploy_sandbox.Run.Manager.Create.Undo.{added-removed}
use teploy_sandbox.Run.Manager.Snapshots.{ImageAnswers, snapshot, delete_snapshot}

ref-prefixed :
    (t : Text) → starts (snapshot_repo ++ codes ":") (snapshot_repo ++ (codes ":" ++ t)) ≡ true
ref-prefixed t =
    ap (starts (snapshot_repo ++ codes ":")) (sym (append_assoc snapshot_repo (codes ":") t))
    ∙ starts-append (snapshot_repo ++ codes ":") t

-- DeleteSnapshot takes away no image but the one that it is asked for, and that only if its
-- reference is one under the snapshot repository.
pub delete_snapshot-confined :
    (a : ImageAnswers) (ref other : Text) (images : Text → Bool)
    → images other ≡ true
    → (delete_snapshot a ref images).1 other ≡ false
    → (ref ≡ other) × (image_is_snapshot other ≡ true)
unfolding delete_snapshot image_is_snapshot
delete_snapshot-confined a ref other images there gone =
    elim (Bool-cases (starts (snapshot_repo ++ codes ":") ref)) [
      | inr foreign ↦
          let kept : images other ≡ false = sym (rw (foreign, delete_snapshot) refl) ∙ gone in
          ground (arith, there, kept)
      | inl own ↦ elim (Bool-cases (a.remove_image ref)) [
        | inr stays ↦
            let kept : images other ≡ false =
              sym (rw (own, delete_snapshot) (rw (stays, delete_snapshot) refl)) ∙ gone in
            ground (arith, there, kept)
        | inl removed ↦ elim (Bool-cases (text_eq ref other)) [
          | inl same ↦ let e = (text_eq_iff ref other).0 same in (e, rw (sym e) own)
          | inr differs ↦
              let kept : images other ≡ false =
                sym (rw (own, delete_snapshot) (rw (removed, delete_snapshot) (rw differs refl)))
                ∙ gone in
              ground (arith, there, kept)
        ]
      ]
    ]

module _ ⦃u : CaseTable⦄ where
  snapshot_made :
      (a : ImageAnswers) (ulid id ref : Text) (w : World) (images images' : Text → Bool)
      → snapshot a ulid id w images ≡ (ok ref, images')
      → (ref ≡ snapshot_repo ++ (codes ":" ++ to_lower ulid)) × (images' ≡ with_member ref images)
  unfolding snapshot
  snapshot_made a ulid id ref w images images' h = elim (Option-cases (lookup id w.runs)) [
    | inl absent ↦
        let outcome : snapshot a ulid id w images ≡ (err not_found, images) =
          rw (absent, snapshot) refl in
        let bad : err not_found ≡ ok ref = ap (λ r. r.0) (sym outcome ∙ h) in ground arith
    | inr (run, known) ↦
        let made = snapshot_repo ++ (codes ":" ++ to_lower ulid) in
        elim (Bool-cases (a.snapshot run.container_id run.cache_path made)) [
          | inr failed ↦
              let outcome : snapshot a ulid id w images ≡ (err internal, images) =
                rw (known, snapshot) (rw (failed, snapshot) refl) in
              let bad : err internal ≡ ok ref = ap (λ r. r.0) (sym outcome ∙ h) in ground arith
          | inl done ↦
              let outcome : snapshot a ulid id w images ≡ (ok made, with_member made images) =
                rw (known, snapshot) (rw (done, snapshot) refl) in
              let both : (ok made, with_member made images) ≡ (ok ref, images') = sym outcome ∙ h in
              let same : ok made ≡ ok ref = ap (λ r. r.0) both in
              let e : made ≡ ref = ground arith in
              (sym e, sym (ap (λ r. r.1) both) ∙ ap (λ t. with_member t images) e)
        ]
  ]

  -- The reference that Snapshot returns is that of an image that exists, is recognised as a
  -- snapshot by Create, and is one that DeleteSnapshot accepts: if the image can be removed, the
  -- images are then those that there were, had there been none of that name.
  pub delete-snapshot :
      (a : ImageAnswers) (ulid id ref : Text) (w : World) (images images' : Text → Bool)
      → snapshot a ulid id w images ≡ (ok ref, images')
      → images ref ≡ false
      → a.remove_image ref ≡ true
      → (images' ref ≡ true)
        × (image_is_snapshot ref ≡ true)
        × ((delete_snapshot a ref images').0 ≡ ok tt)
        × ((other : Text) → (delete_snapshot a ref images').1 other ≡ images other)
  unfolding snapshot delete_snapshot image_is_snapshot
  delete-snapshot a ulid id ref w images images' h new removable =
      let (named, there) = snapshot_made a ulid id ref w images images' h in
      let own : starts (snapshot_repo ++ codes ":") ref ≡ true =
        rw named (ref-prefixed (to_lower ulid)) in
      (
        ap (λ f. f ref) there ∙ rw (text_eq_refl ref) refl,
        own,
        rw (own, delete_snapshot) (rw (removable, delete_snapshot) refl),
        λ other.
            rw (own, delete_snapshot)
              (rw (removable, delete_snapshot)
                (ap (λ f. without_member ref f other) there
                  ∙ added-removed ref images true other new)),
      )
