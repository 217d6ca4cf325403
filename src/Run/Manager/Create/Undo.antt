-- ===== src/Run/Manager/Create/Undo.antt =====
-- What a create takes, and what it gives back when it fails (manager.go: Create).
use teploy_sandbox.Prelude.{
  ◌≡◌, refl, sym, ap, ◌∙◌, inl, inr, Bool, true, false, none, some, arith, if◌then◌else◌,
  Bool-cases, Option-cases, Text, text_eq, text_eq_iff, ok, err, Error,
}
use teploy_sandbox.Run.Manager.Request.{CreateSpec, Config}
use teploy_sandbox.Run.Manager.World.{
  World, with_member, without_member, Answers, release, close_egress,
}
use teploy_sandbox.Run.Manager.Create.{Draft, release_draft, undo}

-- Two worlds with the same runs, containers, volumes and proxies.
unfoldable pub Same : World → World → Type 0
Same v w =
    (v.runs ≡ w.runs)
    × ((c : Text) → v.containers c ≡ w.containers c)
    × ((b : Text) → v.volumes b ≡ w.volumes b)
    × ((b : Text) → v.proxies b ≡ w.proxies b)

-- The worlds that a create that failed may leave behind `w`.
pub data Undone (a : Answers) (v w : World) : Type 0 where
  restored : Same v w → Undone a v w
  with_leftover :
      (spec : CreateSpec) (e : Error) (container : Text)
      → a.create spec ≡ err e
      → a.leftover spec ≡ some container
      → Same v (record w { containers = with_member container w.containers })
      → Undone a v w

unfoldable pub is_warm : Draft → Bool
is_warm d = elim d.warm [ none ↦ false | some warm ↦ true ]

-- The world `w` with a volume, and with a proxy, for the run `id`.
unfoldable pub holding : Text → World → Bool → Bool → World
holding id w volume proxy = record w {
  volumes = if volume then with_member id w.volumes else w.volumes;
  proxies = if proxy then with_member id w.proxies else w.proxies;
}

pub added-removed :
    (id : Text) (set : Text → Bool) (added : Bool) (b : Text)
    → set id ≡ false
    → without_member id (if added then with_member id set else set) b ≡ set b
added-removed id set added b h = elim (Bool-cases (text_eq id b)) [
  | inl same ↦
      let e = (text_eq_iff id b).0 same in
      let absent : set b ≡ false = sym (ap set e) ∙ h in ground arith
  | inr other ↦ elim added [ true ↦ ground arith | false ↦ ground arith ]
]

-- `id` owns nothing in `w`, and the answers of the collaborators let what is taken be taken back.
unfoldable pub Fresh : Answers → Text → World → Type 0
Fresh a id w =
    (w.volumes id ≡ false)
    × (w.proxies id ≡ false)
    × (a.volume_in_use id ≡ false)
    × ((spec : CreateSpec) (c : Text) → a.create spec ≡ ok c → w.containers c ≡ false)
    × ((c : Text) → a.remove c ≡ true)

pub release_draft-holding :
    (a : Answers) (id : Text) (d : Draft) (volume proxy : Bool) (w : World)
    → is_warm d ≡ volume
    → w.volumes id ≡ false
    → a.volume_in_use id ≡ false
    → let v = release_draft a id d (holding id w volume proxy) in
      (v.runs ≡ w.runs)
      × (v.containers ≡ w.containers)
      × ((b : Text) → v.volumes b ≡ w.volumes b)
      × (v.proxies ≡ (if proxy then with_member id w.proxies else w.proxies))
unfolding release_draft release holding is_warm
release_draft-holding a id d volume proxy w has no_volume free = elim (Option-cases d.warm) [
  | inl absent ↦
      let off : volume ≡ false = sym has ∙ rw (absent, is_warm) refl in
      rw (absent, release_draft) (refl, refl, λ b. rw (off, holding) refl, refl)
  | inr (warm, e) ↦
      rw (e, release_draft)
        (rw (free, release) (refl, refl, λ b. added-removed id w.volumes volume b no_volume, refl))
]

pub undo-Same :
    (config : Config) (a : Answers) (id : Text) (d : Draft) (volume proxy : Bool) (w : World)
    → w.volumes id ≡ false
    → w.proxies id ≡ false
    → a.volume_in_use id ≡ false
    → is_warm d ≡ volume
    → (proxy ≡ true → config.has_egress ≡ true)
    → Same (undo config a id d (holding id w volume proxy)) w
unfolding undo Same close_egress
undo-Same config a id d volume proxy w no_volume no_proxy free v k =
    let (runs, containers, volumes, proxies) =
      release_draft-holding a id d volume proxy w v no_volume free in
    elim (Bool-cases config.has_egress) [
      | inl has ↦
          rw (has, Same, undo, close_egress)
            (
              runs,
              λ c. ap (λ f. f c) containers,
              volumes,
              λ b.
                  ap (λ f. without_member id f b) proxies
                  ∙ added-removed id w.proxies proxy b no_proxy,
            )
      | inr lacks ↦
          let off : proxy ≡ false = ground (arith, Bool-cases proxy, k) in
          rw (lacks, Same, undo, close_egress)
            (
              runs,
              λ c. ap (λ f. f c) containers,
              volumes,
              λ b.
                  ap (λ f. f b) proxies
                  ∙ ap (λ p. (if p then with_member id w.proxies else w.proxies) b) off,
            )
    ]
