-- ===== src/Run/Cache/Sweep/Evict.antt =====
-- What Sweep of cache.go evicts, and what it spares.
use mathlib.Core.List.{Perm}
use teploy_sandbox.Prelude.{
  ℕ, ◌+◌, ◌-◌, ◌≤◌, ◌<◌, ◌≡◌, refl, sym, ap, ◌∙◌, ◌⊎◌, inl, inr, Bool, true, false, none, some,
  List, [], ◌∷◌, ◌++◌, arith, ltb, leb, ◌==◌, if◌then◌else◌, leb→le, Bool-cases, All, Text, text_eq,
  text_eq_iff, text_eq_refl, erase, lookup-erase, pos,
}
use teploy_sandbox.Run.Cache.Tree.{Disk}
use teploy_sandbox.Run.Cache.Store.{Store, repo_at, repo_path, busy_under}
use teploy_sandbox.Run.Cache.Sweep.Found.{Gathered, gather-Gathered, sort_candidates-perm}
use teploy_sandbox.Run.Cache.Sweep.{
  Candidate, total_size, gather, sum_sizes, place_candidate, sort_candidates, Swept, evict, sweep,
}

-- The least recently used first.
unfoldable pub IsSorted : List Candidate → Type 0
IsSorted [] = Unit
IsSorted (c ∷ rest) =
    All (λ (later : Candidate). c.last_used ≤ later.last_used) rest × IsSorted rest

place_candidate-All :
    (P : Candidate → Type 0) (c : Candidate) (cs : List Candidate)
    → P c
    → All P cs
    → All P (place_candidate c cs)
unfolding place_candidate
place_candidate-All P c [] p h = (p, tt)
place_candidate-All P c (first ∷ rest) p h = elim (Bool-cases (ltb first.last_used c.last_used)) [
  | inl e ↦ rw (e, place_candidate) (h.0, place_candidate-All P c rest p h.1)
  | inr e ↦ rw (e, place_candidate) (p, h)
]

All-le :
    (a b : ℕ) (cs : List Candidate)
    → a ≤ b
    → All (λ (c : Candidate). b ≤ c.last_used) cs
    → All (λ (c : Candidate). a ≤ c.last_used) cs
All-le a b [] h k = tt
All-le a b (c ∷ cs) h k = (omega (arith, h, k.0), All-le a b cs h k.1)

place_candidate-IsSorted :
    (c : Candidate) (cs : List Candidate) → IsSorted cs → IsSorted (place_candidate c cs)
unfolding place_candidate IsSorted
place_candidate-IsSorted c [] h = (tt, tt)
place_candidate-IsSorted c (first ∷ rest) h = elim (Bool-cases (ltb first.last_used c.last_used)) [
  | inl e ↦
      rw (e, place_candidate)
        (place_candidate-All _ c rest (ground (arith, e)) h.0, place_candidate-IsSorted c rest h.1)
  | inr e ↦
      let le : c.last_used ≤ first.last_used = ground (arith, e) in
      rw (e, place_candidate) ((le, All-le _ _ rest le h.0), h)
]

pub sort_candidates-IsSorted : (cs : List Candidate) → IsSorted (sort_candidates cs)
unfolding sort_candidates IsSorted
sort_candidates-IsSorted [] = tt
sort_candidates-IsSorted (c ∷ cs) =
    place_candidate-IsSorted c (sort_candidates cs) (sort_candidates-IsSorted cs)

sort_candidates-All :
    (P : Candidate → Type 0) (cs : List Candidate) → All P cs → All P (sort_candidates cs)
unfolding sort_candidates
sort_candidates-All P [] h = tt
sort_candidates-All P (c ∷ cs) h =
    place_candidate-All P c (sort_candidates cs) h.0 (sort_candidates-All P cs h.1)

-- The four ways in which a round of the eviction goes.
pub data Round (disk : Disk) (max : ℕ) (c : Candidate) (rest : List Candidate) (total : ℕ)
    (s : Store) (r : Swept) : Type 0 where
  enough :
      total ≤ max
      → r ≡ record { removed = []; total = total; store = s }
      → Round disk max c rest total s r
  in_use :
      busy_under (repo_path c.key) s ≡ true
      → r ≡ evict disk max rest total s
      → Round disk max c rest total s r
  stuck :
      disk.removes (repo_path c.key) ≡ false
      → r ≡ evict disk max rest total s
      → Round disk max c rest total s r
  evicted :
      (swept : Swept)
      → max < total
      → busy_under (repo_path c.key) s ≡ false
      → swept ≡ evict disk max rest (total - c.size) (record s { repos = erase c.key s.repos })
      → r ≡ record swept { removed = c ∷ swept.removed }
      → Round disk max c rest total s r

evict-Round :
    (disk : Disk) (max : ℕ) (c : Candidate) (rest : List Candidate) (total : ℕ) (s : Store)
    → Round disk max c rest total s (evict disk max (c ∷ rest) total s)
unfolding evict
evict-Round disk max c rest total s = elim (Bool-cases (leb total max)) [
  | inl e ↦ enough (leb→le total max e) (rw (e, evict) refl)
  | inr e ↦ elim (Bool-cases (busy_under (repo_path c.key) s)) [
    | inl b ↦ in_use b (rw (e, b, evict) refl)
    | inr b ↦ elim (Bool-cases (disk.removes (repo_path c.key))) [
      | inr r ↦ stuck r (rw (e, b, r, evict) refl)
      | inl r ↦ evicted _ (ground (arith, e)) b refl (rw (e, b, r, evict) refl)
    ]
  ]
]

-- The candidates that nothing is copied from.
unfoldable pub idle_candidates : Store → List Candidate → List Candidate
idle_candidates s [] = []
idle_candidates s (c ∷ rest) =
    let idle = idle_candidates s rest in if busy_under (repo_path c.key) s then idle else c ∷ idle

-- Without the last of the removals the total would be above `max`.
abbrev pub Needed : ℕ → List Candidate → ℕ → Type 0
Needed max removed total =
    (front : List Candidate) × (last : Candidate) × (removed ≡ front ++ (last ∷ []))
    × (max < total + last.size)

-- What an eviction from `s` with the total `total` leaves: it has removed the first of the idle
-- candidates, as many as it takes to come to `max` and no more, or all.
pub record Evicts (max total : ℕ) (cs : List Candidate) (s : Store) (r : Swept) : Type 0 where
  pub kept : List Candidate
  pub split : idle_candidates s cs ≡ r.removed ++ kept
  pub enough : (kept ≡ []) ⊎ (r.total ≤ max)
  pub needed : (r.removed ≡ []) ⊎ Needed max r.removed r.total
  pub sizes : r.total + sum_sizes r.removed ≡ total
  pub gone : All (λ (c : Candidate). repo_at c.key r.store ≡ none) r.removed
  pub spares :
      (key : Text) → busy_under (repo_path key) s ≡ true → repo_at key r.store ≡ repo_at key s
  pub volumes : r.store.volumes ≡ s.volumes
  pub in_use : r.store.in_use ≡ s.in_use

sum_sizes-idle : (s : Store) (cs : List Candidate) → sum_sizes (idle_candidates s cs) ≤ sum_sizes cs
unfolding sum_sizes idle_candidates
sum_sizes-idle s [] = omega arith
sum_sizes-idle s (c ∷ cs) = ground (arith, sum_sizes-idle s cs)

busy_under-in_use :
    (dir : Text) (s s' : Store) → s'.in_use ≡ s.in_use → busy_under dir s' ≡ busy_under dir s
unfolding busy_under
busy_under-in_use dir s s' e = rw e refl

idle_candidates-in_use :
    (cs : List Candidate) (s s' : Store)
    → s'.in_use ≡ s.in_use
    → idle_candidates s' cs ≡ idle_candidates s cs
unfolding idle_candidates
idle_candidates-in_use [] s s' e = refl
idle_candidates-in_use (c ∷ cs) s s' e = λ i.
    if busy_under-in_use (repo_path c.key) s s' e i
    then idle_candidates-in_use cs s s' e i
    else c ∷ idle_candidates-in_use cs s s' e i

erased : (key : Text) (s : Store) → repo_at key (record s { repos = erase key s.repos }) ≡ none
unfolding repo_at
erased key s = lookup-erase key key s.repos ∙ rw (text_eq_refl key) refl

-- Removing an idle directory spares one that is in use.
erase-spares :
    (key other : Text) (s : Store)
    → busy_under (repo_path key) s ≡ false
    → busy_under (repo_path other) s ≡ true
    → repo_at other (record s { repos = erase key s.repos }) ≡ repo_at other s
unfolding repo_at
erase-spares key other s h k = elim (Bool-cases (text_eq key other)) [
  | inr e ↦ lookup-erase key other s.repos ∙ rw e refl
  | inl e ↦
      let same : key ≡ other = (text_eq_iff key other).0 e in
      let idle : busy_under (repo_path other) s ≡ false = rw same at h in
      absurd (ground (arith, idle, k))
]

-- A removed directory stays away.
evict-absent :
    (disk : Disk) (max : ℕ) (cs : List Candidate) (total : ℕ) (s : Store) (key : Text)
    → repo_at key s ≡ none
    → repo_at key (evict disk max cs total s).store ≡ none
unfolding evict repo_at
evict-absent disk max [] total s key h = h
evict-absent disk max (c ∷ rest) total s key h = elim (evict-Round disk max c rest total s) [
  | enough l e ↦ rw e h
  | in_use b e ↦ rw e (evict-absent disk max rest total s key h)
  | stuck r e ↦ rw e (evict-absent disk max rest total s key h)
  | evicted swept m b k e ↦
      rw (e, k)
        (evict-absent disk max rest (total - c.size) _ key
          (lookup-erase c.key key s.repos ∙ ground (arith, h)))
]

Needed-cons :
    (max before : ℕ) (c : Candidate) (removed : List Candidate) (total : ℕ)
    → max < before
    → c.size ≤ before
    → total + sum_sizes removed ≡ before - c.size
    → (removed ≡ []) ⊎ Needed max removed total
    → Needed max (c ∷ removed) total
unfolding sum_sizes
Needed-cons max before c removed total m h k (inl none_left) =
    let count : total + sum_sizes [] ≡ before - c.size = rw none_left at k in
    ([], c, ap (λ t. c ∷ t) none_left, omega (arith, m, h, count))
Needed-cons max before c removed total m h k (inr (front, last, e, l)) =
    (c ∷ front, last, ap (λ t. c ∷ t) e, l)

pub evict-Evicts :
    (disk : Disk) (max : ℕ) (cs : List Candidate) (total : ℕ) (s : Store)
    → ((path : Text) → disk.removes path ≡ true)
    → sum_sizes cs ≤ total
    → Evicts max total cs s (evict disk max cs total s)
unfolding evict idle_candidates sum_sizes
evict-Evicts disk max [] total s q h = record {
  kept = [];
  split = refl;
  enough = inl refl;
  needed = inl refl;
  sizes = omega arith;
  gone = tt;
  spares = λ key b. refl;
  volumes = refl;
  in_use = refl;
}
evict-Evicts disk max (c ∷ rest) total s q h = elim (evict-Round disk max c rest total s) [
  | enough l e ↦ rw e (record {
    kept = idle_candidates s (c ∷ rest);
    split = refl;
    enough = inr l;
    needed = inl refl;
    sizes = omega arith;
    gone = tt;
    spares = λ key b. refl;
    volumes = refl;
    in_use = refl;
  })
  | in_use b e ↦
      let later = evict-Evicts disk max rest total s q (omega (arith, h)) in
      rw e (record {
        kept = later.kept;
        split = rw b later.split;
        enough = later.enough;
        needed = later.needed;
        sizes = later.sizes;
        gone = later.gone;
        spares = later.spares;
        volumes = later.volumes;
        in_use = later.in_use;
      })
  | stuck r e ↦ absurd (ground (arith, q (repo_path c.key), r))
  | evicted swept m b k e ↦
      let s' : Store = record s { repos = erase c.key s.repos } in
      let later = evict-Evicts disk max rest (total - c.size) s' q (omega (arith, h)) in
      rw (e, k)
        (record {
          kept = later.kept;
          split =
              rw b (ap (λ t. c ∷ t) (sym (idle_candidates-in_use rest s s' refl) ∙ later.split));
          enough = later.enough;
          needed = inr (Needed-cons max total c _ _ m (omega (arith, h)) later.sizes later.needed);
          sizes = omega (arith, later.sizes, h);
          gone =
              (evict-absent disk max rest (total - c.size) s' c.key (erased c.key s), later.gone);
          spares = λ key busy_key.
              later.spares key (busy_under-in_use (repo_path key) s s' refl ∙ busy_key)
              ∙ erase-spares c.key key s b busy_key;
          volumes = later.volumes;
          in_use = later.in_use;
        })
]

place_candidate-sum_sizes :
    (c : Candidate) (cs : List Candidate) → sum_sizes (place_candidate c cs) ≡ c.size + sum_sizes cs
unfolding place_candidate sum_sizes
place_candidate-sum_sizes c [] = refl
place_candidate-sum_sizes c (first ∷ rest) = ground (arith, place_candidate-sum_sizes c rest)

sort_candidates-sum_sizes : (cs : List Candidate) → sum_sizes (sort_candidates cs) ≡ sum_sizes cs
unfolding sort_candidates sum_sizes
sort_candidates-sum_sizes [] = refl
sort_candidates-sum_sizes (c ∷ cs) =
    place_candidate-sum_sizes c (sort_candidates cs)
    ∙ ap (λ n. c.size + n) (sort_candidates-sum_sizes cs)

-- Where RemoveAll succeeds, a sweep that is not cancelled and finds, with the runs' volumes, more
-- than the positive bound, finds one template for each directory with a key for its name, last used
-- at the time of its `.last-used` or, without one, of its manifest; of those that are not in use it
-- removes the least recently used, as many as it takes to come to the bound and no more, or all of
-- them; what it returns as the total is what is left; templates in use, run volumes and marks stay
-- as they were.
pub sweep-Evicts :
    (disk : Disk) (cancelled : Text → Bool) (max : ℕ) (found : List Candidate) (s : Store)
    → ((path : Text) → disk.removes path ≡ true)
    → 0 < max
    → gather cancelled s.repos ≡ some found
    → max < total_size s.volumes + sum_sizes found
    → Gathered s.repos found
      × ((order : List Candidate) × Perm order found
          × IsSorted order
          × Evicts max
              (total_size s.volumes + sum_sizes found)
              order
              s
              (sweep disk cancelled (pos max) s))
unfolding sweep
sweep-Evicts disk cancelled max found s q h g l =
    let total = total_size s.volumes + sum_sizes found in
    let bound : (max == 0) ≡ false = ground (arith, h) in
    let above : leb total max ≡ false = ground (arith, l) in
    let order = sort_candidates found in
    let fits : sum_sizes order ≤ total = omega (arith, sort_candidates-sum_sizes found) in
    (
      gather-Gathered cancelled s.repos found g,
      (
        order,
        sort_candidates-perm found,
        sort_candidates-IsSorted found,
        rw (bound, g, above, sweep) (evict-Evicts disk max order total s q fits),
      ),
    )
