-- ===== src/Run/Cache/Sweep/Found.antt =====
-- What Sweep of cache.go finds in <root>/repos, and the order in which it goes through it.
use mathlib.Core.List.{Perm}
use mathlib.Core.List.Perm
use mathlib.Core.Path.{subst}
use teploy_sandbox.Prelude.{
  ℕ, ◌+◌, ◌≤◌, ◌≡◌, refl, sym, ap, ◌∙◌, ◌≢◌, ◌↔◌, ◌⊎◌, inl, inr, Bool, true, ◌&&◌, ◌||◌, Option,
  none, some, List, [], ◌∷◌, arith, ltb, leb, ◌==◌, Bool-cases, Option-cases, length, all, All,
  Text, Table,
}
use teploy_sandbox.Run.Types.{WarmManifest}
use teploy_sandbox.Run.Cache.Tree.{Tree}
use teploy_sandbox.Run.Cache.Store.{Repo, Document, holds, unreadable, garbled}
use teploy_sandbox.Run.Cache.Sweep.{
  Candidate, total_size, is_repo_key, used_at, gather, place_candidate, sort_candidates,
}

-- A directory's name of 64 digits and letters from a to f.
pub record IsRepoKey (name : Text) : Type 0 where
  pub long : length name ≡ 64
  pub hex : All (λ c. ((b'0' ≤ c) × (c ≤ b'9')) ⊎ ((b'a' ≤ c) × (c ≤ b'f'))) name

-- When a template was used last: the time of its `.last-used`, if that is not the zero time, else
-- the time at which its manifest says that it was made, else the zero time.
pub data LastUsed (repo : Repo) (time : ℕ) : Type 0 where
  touched : repo.last_used ≡ some time → time ≢ 0 → LastUsed repo time
  made :
      (mf : WarmManifest)
      → (repo.last_used ≡ none) ⊎ (repo.last_used ≡ some 0)
      → repo.manifest ≡ some (holds mf)
      → time ≡ mf.created_at
      → LastUsed repo time
  unknown :
      (repo.last_used ≡ none) ⊎ (repo.last_used ≡ some 0)
      → ((mf : WarmManifest) → repo.manifest ≢ some (holds mf))
      → time ≡ 0
      → LastUsed repo time

-- The templates in <root>/repos, one for each directory with such a name, in order.
pub data Gathered : Table Repo → List Candidate → Type 0 where
  done : Gathered [] []
  passed :
      (entry : Text × Repo) {rest : Table Repo} {found : List Candidate}
      → ¬ IsRepoKey entry.0
      → Gathered rest found
      → Gathered (entry ∷ rest) found
  taken :
      (entry : Text × Repo) (c : Candidate) {rest : Table Repo} {found : List Candidate}
      → IsRepoKey entry.0
      → c.key ≡ entry.0
      → LastUsed entry.1 c.last_used
      → c.size ≡ entry.1.loose_bytes + total_size entry.1.entries
      → Gathered rest found
      → Gathered (entry ∷ rest) (c ∷ found)

all_hex :
    (name : Text)
    → (all (λ c. (leb b'0' c && leb c b'9') || (leb b'a' c && leb c b'f')) name ≡ true)
      ↔ All (λ c. ((b'0' ≤ c) × (c ≤ b'9')) ⊎ ((b'a' ≤ c) × (c ≤ b'f'))) name
all_hex [] = (λ h. tt, λ h. refl)
all_hex (c ∷ name) =
    let later = all_hex name in
    (
      λ h. (one c (ground (arith, h)), later.0 (ground (arith, h))),
      λ (here, more). rw (other c here) (later.1 more),
    )
  where
    one :
        (c : ℕ)
        → ((leb b'0' c && leb c b'9') || (leb b'a' c && leb c b'f')) ≡ true
        → ((b'0' ≤ c) × (c ≤ b'9')) ⊎ ((b'a' ≤ c) × (c ≤ b'f'))
    one c h = elim (Bool-cases (leb b'0' c && leb c b'9')) [
      | inl digit ↦ inl (ground (arith, digit), ground (arith, digit))
      | inr letter ↦ inr (ground (arith, h, letter), ground (arith, h, letter))
    ]

    other :
        (c : ℕ)
        → ((b'0' ≤ c) × (c ≤ b'9')) ⊎ ((b'a' ≤ c) × (c ≤ b'f'))
        → ((leb b'0' c && leb c b'9') || (leb b'a' c && leb c b'f')) ≡ true
    other c (inl (low, high)) = ground arith
    other c (inr (low, high)) = ground arith

is_repo_key_iff : (name : Text) → (is_repo_key name ≡ true) ↔ IsRepoKey name
unfolding is_repo_key
is_repo_key_iff name = (
  λ h. record { long = ground (arith, h); hex = (all_hex name).0 (ground (arith, h)) },
  λ k. ground (arith, k.long, (all_hex name).1 k.hex),
)

abbrev repo_of : Option ℕ → Option Document → Table Tree → ℕ → Repo
repo_of last doc entries bytes = record {
  manifest = doc;
  entries = entries;
  loose_bytes = bytes;
  last_used = last;
}

untouched-LastUsed :
    (last : Option ℕ) (doc : Option Document) (entries : Table Tree) (bytes : ℕ)
    → (last ≡ none) ⊎ (last ≡ some 0)
    → LastUsed (repo_of last doc entries bytes) (used_at (repo_of last doc entries bytes))
unfolding used_at
untouched-LastUsed last doc entries bytes (inl e) = rw e (no_mark doc)
  where
    no_mark :
        (doc : Option Document)
        → LastUsed (repo_of none doc entries bytes) (used_at (repo_of none doc entries bytes))
    no_mark none = unknown (inl refl) (λ mf e. cc) refl
    no_mark (some unreadable) = unknown (inl refl) (λ mf e. cc) refl
    no_mark (some garbled) = unknown (inl refl) (λ mf e. cc) refl
    no_mark (some (holds mf)) = made mf (inl refl) refl refl
untouched-LastUsed last doc entries bytes (inr e) = rw e (zero_mark doc)
  where
    zero_mark :
        (doc : Option Document)
        → LastUsed
            (repo_of (some 0) doc entries bytes)
            (used_at (repo_of (some 0) doc entries bytes))
    zero_mark none = unknown (inr refl) (λ mf e. cc) refl
    zero_mark (some unreadable) = unknown (inr refl) (λ mf e. cc) refl
    zero_mark (some garbled) = unknown (inr refl) (λ mf e. cc) refl
    zero_mark (some (holds mf)) = made mf (inr refl) refl refl

used_at-LastUsed : (repo : Repo) → LastUsed repo (used_at repo)
unfolding used_at
used_at-LastUsed repo = elim (Option-cases repo.last_used) [
  | inl e ↦ untouched-LastUsed repo.last_used repo.manifest repo.entries repo.loose_bytes (inl e)
  | inr (time, e) ↦ elim (Bool-cases (time == 0)) [
    | inl z ↦
        let zero_time : time ≡ 0 = ground (arith, z) in
        untouched-LastUsed repo.last_used repo.manifest repo.entries repo.loose_bytes
          (inr (e ∙ ap some zero_time))
    | inr n ↦
        let marked : used_at repo ≡ time = rw (e, n, used_at) refl in
        subst (LastUsed repo) (sym marked) (touched e (λ z. ground (arith, z, n)))
  ]
]

pub gather-Gathered :
    (cancelled : Text → Bool) (repos : Table Repo) (found : List Candidate)
    → gather cancelled repos ≡ some found
    → Gathered repos found
unfolding gather
gather-Gathered cancelled [] found h = let e : [] ≡ found = cc h in subst (Gathered []) e done
gather-Gathered cancelled (entry ∷ rest) found h = elim (Bool-cases (is_repo_key entry.0)) [
  | inr unfit ↦
      passed entry (λ k. ground (arith, (is_repo_key_iff entry.0).1 k, unfit))
        (gather-Gathered cancelled rest found (rw (unfit, gather) at h))
  | inl fits ↦ elim (Bool-cases (cancelled entry.0)) [
    | inl over ↦
        let nothing : none ≡ some found = rw (fits, over, gather) at h in absurd (cc nothing)
    | inr on ↦ elim (Option-cases (gather cancelled rest)) [
      | inl e ↦
          let nothing : none ≡ some found = rw (fits, on, e, gather) at h in absurd (cc nothing)
      | inr (later, e) ↦
          let c : Candidate = record {
            key = entry.0;
            last_used = used_at entry.1;
            size = entry.1.loose_bytes + total_size entry.1.entries;
          } in
          let all_found : some (c ∷ later) ≡ some found = rw (fits, on, e, gather) at h in
          let same : c ∷ later ≡ found = cc all_found in
          subst (Gathered (entry ∷ rest)) same (
            taken entry c ((is_repo_key_iff entry.0).0 fits) refl (used_at-LastUsed entry.1) refl
              (gather-Gathered cancelled rest later e))
    ]
  ]
]

place_candidate-perm : (c : Candidate) (cs : List Candidate) → Perm (place_candidate c cs) (c ∷ cs)
unfolding place_candidate
place_candidate-perm c [] = Perm.refl (c ∷ [])
place_candidate-perm c (first ∷ rest) = elim (Bool-cases (ltb first.last_used c.last_used)) [
  | inr e ↦ rw (e, place_candidate) (Perm.refl (c ∷ first ∷ rest))
  | inl e ↦
      rw (e, place_candidate)
        (Perm.trans (Perm.cons first (place_candidate-perm c rest)) (Perm.swap c first rest))
]

pub sort_candidates-perm : (cs : List Candidate) → Perm (sort_candidates cs) cs
unfolding sort_candidates
sort_candidates-perm [] = Perm.refl []
sort_candidates-perm (c ∷ cs) =
    Perm.trans (place_candidate-perm c (sort_candidates cs)) (Perm.cons c (sort_candidates-perm cs))
