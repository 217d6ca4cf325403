-- ===== src/Egress/Proxy/Sound.antt =====
-- What holds of the proxy after any requests and any steps of its goroutines (proxy.go).
use teploy_sandbox.Prelude.{
  ℕ, zero, suc, ◌+◌, ◌≡◌, refl, Bool, true, false, not, ◌&&◌, ◌||◌, List, [], ◌∷◌, ◌++◌, map, arith,
  all,
}
use teploy_sandbox.Egress.Proxy.{
  Pair, Copier, copying, returned, client_closed, upstream_closed, deleted, finished, Tunnel,
}
use teploy_sandbox.Egress.Proxy.Tunnels.{
  Side, upward, downward, unblocked, next, work, done, move, move_at, done_at, close_if,
  close_tunnel,
}

-- Both connections are closed.
abbrev pub is_closed : Pair → Bool
is_closed p = not p.client_open && not p.upstream_open

-- What a goroutine has done by now.
unfoldable pub past : Copier → Pair → Bool
past copying p = true
past returned p = true
past client_closed p = not p.client_open
past upstream_closed p = is_closed p
past deleted p = is_closed p && not p.listed
past finished p = is_closed p && not p.listed

-- A tunnel with an open side is listed, and its goroutines have done what they are past.
unfoldable pub sound : Tunnel → Bool
unfolding past
sound t = past t.up t.pair && past t.down t.pair && (t.pair.listed || is_closed t.pair)

-- 1 while the goroutine runs.
unfoldable pub active : Copier → ℕ
active copying = 1
active returned = 1
active client_closed = 1
active upstream_closed = 1
active deleted = 1
active finished = 0

unfoldable pub active_total : List Tunnel → ℕ
unfolding active
active_total [] = 0
active_total (t ∷ ts) = active t.up + active t.down + active_total ts

past_less :
    (d : Copier) (p q : Pair)
    → (q.client_open ≡ true → p.client_open ≡ true)
    → (q.upstream_open ≡ true → p.upstream_open ≡ true)
    → (q.listed ≡ true → p.listed ≡ true)
    → past d p ≡ true
    → past d q ≡ true
unfolding past
past_less copying p q c u l h = refl
past_less returned p q c u l h = refl
past_less client_closed p q c u l h = ground arith
past_less upstream_closed p q c u l h = ground arith
past_less deleted p q c u l h = ground arith
past_less finished p q c u l h = ground arith

false_true : {A : Type 0} → false ≡ true → A
false_true h = ground arith

past-work : (c d : Copier) (p : Pair) → past d p ≡ true → past d (work c p) ≡ true
unfolding work
past-work copying d p h = h
past-work returned d p h = past_less d p _ false_true (λ x. x) (λ x. x) h
past-work client_closed d p h = past_less d p _ (λ x. x) false_true (λ x. x) h
past-work upstream_closed d p h = past_less d p _ (λ x. x) (λ x. x) false_true h
past-work deleted d p h = h
past-work finished d p h = h

past-next :
    (c : Copier) (free : Bool) (p : Pair) → past c p ≡ true → past (next free c) (work c p) ≡ true
unfolding past work next
past-next copying true p h = refl
past-next copying false p h = refl
past-next returned free p h = refl
past-next client_closed free p h = ground arith
past-next upstream_closed free p h = ground arith
past-next deleted free p h = h
past-next finished free p h = h

listed-work :
    (c : Copier) (p : Pair)
    → past c p ≡ true
    → (p.listed || is_closed p) ≡ true
    → ((work c p).listed || is_closed (work c p)) ≡ true
unfolding past work
listed-work copying p c h = h
listed-work returned p c h = ground arith
listed-work client_closed p c h = ground arith
listed-work upstream_closed p c h = ground arith
listed-work deleted p c h = h
listed-work finished p c h = h

sound-move :
    (side : Side) (free : Bool) (t : Tunnel) → sound t ≡ true → sound (move side free t) ≡ true
unfolding sound move
sound-move upward free t h =
    let u : past t.up t.pair ≡ true = ground arith in
    let d : past t.down t.pair ≡ true = ground arith in
    let l : (t.pair.listed || is_closed t.pair) ≡ true = ground arith in
    rw
      (
        past-next t.up (free || unblocked upward t.pair) t.pair u,
        past-work t.up t.down t.pair d,
        listed-work t.up t.pair u l,
      )
      refl
sound-move downward free t h =
    let u : past t.up t.pair ≡ true = ground arith in
    let d : past t.down t.pair ≡ true = ground arith in
    let l : (t.pair.listed || is_closed t.pair) ≡ true = ground arith in
    rw
      (
        past-next t.down (free || unblocked downward t.pair) t.pair d,
        past-work t.down t.up t.pair u,
        listed-work t.down t.pair d l,
      )
      refl

sound-close_if : (listed : Bool) (t : Tunnel) → sound t ≡ true → sound (close_if listed t) ≡ true
unfolding sound close_if
sound-close_if false t h = h
sound-close_if true t h =
    let u : past t.up t.pair ≡ true = ground arith in
    let d : past t.down t.pair ≡ true = ground arith in
    let or_true : (b : Bool) → (b || true) ≡ true = λ b. ground arith in
    rw
      (
        past_less t.up t.pair _ false_true false_true (λ x. x) u,
        past_less t.down t.pair _ false_true false_true (λ x. x) d,
      )
      (or_true t.pair.listed)

pub all-move_at :
    (i : ℕ) (side : Side) (free : Bool) (ts : List Tunnel)
    → all sound ts ≡ true
    → all sound (move_at i side free ts) ≡ true
unfolding move_at
all-move_at i side free [] h = refl
all-move_at zero side free (t ∷ ts) h =
    let first : sound t ≡ true = ground arith in
    let rest : all sound ts ≡ true = ground arith in rw (sound-move side free t first) rest
all-move_at (suc i) side free (t ∷ ts) h =
    let first : sound t ≡ true = ground arith in
    let rest : all sound ts ≡ true = ground arith in rw first (all-move_at i side free ts rest)

pub all-map_close :
    (ts : List Tunnel) → all sound ts ≡ true → all sound (map close_tunnel ts) ≡ true
unfolding close_tunnel
all-map_close [] h = refl
all-map_close (t ∷ ts) h =
    let first : sound t ≡ true = ground arith in
    let rest : all sound ts ≡ true = ground arith in
    rw (sound-close_if t.pair.listed t first) (all-map_close ts rest)

active-next : (c : Copier) (free : Bool) → active (next free c) + done c ≡ active c
unfolding active next done
active-next copying true = refl
active-next copying false = refl
active-next returned free = refl
active-next client_closed free = refl
active-next upstream_closed free = refl
active-next deleted free = refl
active-next finished free = refl

pub active-move_at :
    (i : ℕ) (side : Side) (free : Bool) (ts : List Tunnel)
    → active_total (move_at i side free ts) + done_at i side ts ≡ active_total ts
unfolding move_at done_at active_total move
active-move_at i side free [] = refl
active-move_at zero upward free (t ∷ ts) =
    let n = active-next t.up (free || unblocked upward t.pair) in omega arith
active-move_at zero downward free (t ∷ ts) =
    let n = active-next t.down (free || unblocked downward t.pair) in omega arith
active-move_at (suc i) side free (t ∷ ts) = let later = active-move_at i side free ts in omega arith

active-close_if :
    (listed : Bool) (t : Tunnel)
    → active (close_if listed t).up + active (close_if listed t).down ≡ active t.up + active t.down
unfolding close_if
active-close_if true t = refl
active-close_if false t = refl

pub active-close : (ts : List Tunnel) → active_total (map close_tunnel ts) ≡ active_total ts
unfolding active_total close_tunnel
active-close [] = refl
active-close (t ∷ ts) =
    let first = active-close_if t.pair.listed t in let later = active-close ts in omega arith

pub active-append :
    (ts us : List Tunnel) → active_total (ts ++ us) ≡ active_total ts + active_total us
unfolding active_total
active-append [] us = omega arith
active-append (t ∷ ts) us = let later = active-append ts us in omega arith
