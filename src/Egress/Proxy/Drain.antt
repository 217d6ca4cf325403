-- ===== src/Egress/Proxy/Drain.antt =====
-- How CloseTunnels comes to its end (proxy.go: CloseTunnels, the goroutines of tunnel).
use teploy_sandbox.Prelude.{
  ℕ, zero, suc, ◌+◌, ◌*◌, ◌≤◌, ◌≡◌, refl, sym, ◌∙◌, Bool, true, false, not, ◌&&◌, ◌||◌, List, [],
  ◌∷◌, map, arith, length, all, CaseTable,
}
use teploy_sandbox.Egress.Allowlist.{Allowlist}
use teploy_sandbox.Egress.Proxy.{
  Pair, Copier, copying, returned, client_closed, upstream_closed, deleted, finished, Tunnel, Proxy,
  no_tunnels,
}
use teploy_sandbox.Egress.Proxy.Tunnels.{
  Side, upward, downward, unblocked, next, work, copier, move, Move, move_at, advance, close_if,
  close_tunnel, close_tunnels, Event, run, run_moves,
}
use teploy_sandbox.Egress.Proxy.Sound.{is_closed, past, sound, active, active_total}
use teploy_sandbox.Egress.Proxy.History.{IsKept, advance-IsKept, close_tunnels-IsKept, run-IsKept}

-- The steps that a goroutine has before it.
unfoldable pub left : Copier → ℕ
left copying = 5
left returned = 4
left client_closed = 3
left upstream_closed = 2
left deleted = 1
left finished = 0

unfoldable pub left_total : List Tunnel → ℕ
unfolding left
left_total [] = 0
left_total (t ∷ ts) = left t.up + left t.down + left_total ts

-- 1 if the move is one of a goroutine that runs.
unfoldable pub works_at : ℕ → Side → List Tunnel → ℕ
unfolding active
works_at i side [] = 0
works_at zero side (t ∷ ts) = active (copier side t)
works_at (suc i) side (t ∷ ts) = works_at i side ts

-- How many of the moves are.
unfoldable pub progress : List Move → Proxy → ℕ
unfolding works_at
progress [] p = 0
progress (m ∷ ms) p = works_at m.index m.side p.tunnels + progress ms (advance m p)

pub closed : Tunnel → Bool
closed t = is_closed t.pair

-- Both connections are closed and the registry no longer has them.
unfoldable pub gone : Tunnel → Bool
gone t = is_closed t.pair && not t.pair.listed

work-closed : (c : Copier) (p : Pair) → is_closed p ≡ true → is_closed (work c p) ≡ true
unfolding work
work-closed copying p h = h
work-closed returned p h = ground arith
work-closed client_closed p h = ground arith
work-closed upstream_closed p h = h
work-closed deleted p h = h
work-closed finished p h = h

close_if-closed :
    (listed : Bool) (t : Tunnel)
    → t.pair.listed ≡ listed
    → sound t ≡ true
    → closed (close_if listed t) ≡ true
unfolding close_if closed sound
close_if-closed true t l h = refl
close_if-closed false t l h = ground arith

closed-map_close :
    (ts : List Tunnel) → all sound ts ≡ true → all closed (map close_tunnel ts) ≡ true
unfolding close_tunnel
closed-map_close [] h = refl
closed-map_close (t ∷ ts) h =
    let first : sound t ≡ true = ground arith in
    let rest : all sound ts ≡ true = ground arith in
    rw (close_if-closed t.pair.listed t refl first) (closed-map_close ts rest)

left-next : (c : Copier) (free : Bool) → free ≡ true → left (next free c) + active c ≡ left c
unfolding left next active
left-next copying free h = rw (h, next) refl
left-next returned free h = refl
left-next client_closed free h = refl
left-next upstream_closed free h = refl
left-next deleted free h = refl
left-next finished free h = refl

unblocked-closed :
    (side : Side) (free : Bool) (p : Pair) → is_closed p ≡ true → (free || unblocked side p) ≡ true
unfolding unblocked
unblocked-closed upward free p h = ground arith
unblocked-closed downward free p h = ground arith

move-closed :
    (side : Side) (free : Bool) (t : Tunnel) → closed t ≡ true → closed (move side free t) ≡ true
unfolding move closed
move-closed upward free t h = work-closed t.up t.pair h
move-closed downward free t h = work-closed t.down t.pair h

move_at-closed :
    (i : ℕ) (side : Side) (free : Bool) (ts : List Tunnel)
    → all closed ts ≡ true
    → all closed (move_at i side free ts) ≡ true
unfolding move_at
move_at-closed i side free [] h = refl
move_at-closed zero side free (t ∷ ts) h =
    let first : closed t ≡ true = ground arith in
    let rest : all closed ts ≡ true = ground arith in rw (move-closed side free t first) rest
move_at-closed (suc i) side free (t ∷ ts) h =
    let first : closed t ≡ true = ground arith in
    let rest : all closed ts ≡ true = ground arith in rw first (move_at-closed i side free ts rest)

left-move_at :
    (i : ℕ) (side : Side) (free : Bool) (ts : List Tunnel)
    → all closed ts ≡ true
    → left_total (move_at i side free ts) + works_at i side ts ≡ left_total ts
unfolding move_at works_at left_total move closed
left-move_at i side free [] h = refl
left-move_at zero upward free (t ∷ ts) h =
    let first : is_closed t.pair ≡ true = ground arith in
    let n = left-next t.up _ (unblocked-closed upward free t.pair first) in omega arith
left-move_at zero downward free (t ∷ ts) h =
    let first : is_closed t.pair ≡ true = ground arith in
    let n = left-next t.down _ (unblocked-closed downward free t.pair first) in omega arith
left-move_at (suc i) side free (t ∷ ts) h =
    let rest : all closed ts ≡ true = ground arith in
    let later = left-move_at i side free ts rest in omega arith

left-run_moves :
    (ms : List Move) (p : Proxy)
    → all closed p.tunnels ≡ true
    → left_total (run_moves ms p).tunnels + progress ms p ≡ left_total p.tunnels
unfolding run_moves progress advance
left-run_moves [] p h = omega arith
left-run_moves (m ∷ ms) p h =
    let now = left-move_at m.index m.side m.free p.tunnels h in
    let later =
      left-run_moves ms (advance m p) (move_at-closed m.index m.side m.free p.tunnels h) in
    omega arith

left_bound : (c : Copier) → left c ≤ 5
unfolding left
left_bound copying = omega arith
left_bound returned = omega arith
left_bound client_closed = omega arith
left_bound upstream_closed = omega arith
left_bound deleted = omega arith
left_bound finished = omega arith

left_total_bound : (ts : List Tunnel) → left_total ts ≤ 10 * length ts
unfolding left_total
left_total_bound [] = omega arith
left_total_bound (t ∷ ts) =
    let up = left_bound t.up in
    let down = left_bound t.down in let rest = left_total_bound ts in omega arith

active_bound : (c : Copier) → active c ≤ left c
unfolding active left
active_bound copying = omega arith
active_bound returned = omega arith
active_bound client_closed = omega arith
active_bound upstream_closed = omega arith
active_bound deleted = omega arith
active_bound finished = omega arith

active_total_bound : (ts : List Tunnel) → active_total ts ≤ left_total ts
unfolding active_total left_total
active_total_bound [] = omega arith
active_total_bound (t ∷ ts) =
    let up = active_bound t.up in
    let down = active_bound t.down in let rest = active_total_bound ts in omega arith

-- A goroutine that no longer runs has done its work.
past_idle :
    (c : Copier) (p : Pair) → active c ≡ 0 → past c p ≡ true → (is_closed p && not p.listed) ≡ true
unfolding active past
past_idle copying p a h = ground arith
past_idle returned p a h = ground arith
past_idle client_closed p a h = ground arith
past_idle upstream_closed p a h = ground arith
past_idle deleted p a h = ground arith
past_idle finished p a h = h

all_gone : (ts : List Tunnel) → active_total ts ≡ 0 → all sound ts ≡ true → all gone ts ≡ true
unfolding active_total gone sound
all_gone [] a h = refl
all_gone (t ∷ ts) a h =
    let up : past t.up t.pair ≡ true = ground arith in
    let idle : active t.up ≡ 0 = omega arith in
    let rest : all sound ts ≡ true = ground arith in
    rw (past_idle t.up t.pair idle up) (all_gone ts (omega arith) rest)

module _ ⦃u : CaseTable⦄ (allow : Allowlist) where
  run_moves-IsKept : (ms : List Move) (p : Proxy) → IsKept allow p → IsKept allow (run_moves ms p)
  unfolding run_moves
  run_moves-IsKept [] p k = k
  run_moves-IsKept (m ∷ ms) p k = run_moves-IsKept ms (advance m p) (advance-IsKept allow m p k)

  -- After any history, once CloseTunnels has closed the listed connections, every step of a
  -- goroutine that still runs brings the end nearer, whatever the order of the steps and even if no
  -- endpoint ends a copy: at most ten steps per tunnel are left, after them nothing runs, so Wait
  -- returns, and when it does, both connections of every tunnel are closed and the registry is
  -- empty. No request comes meanwhile.
  pub close_tunnels-drains :
      (es : List Event) (ms : List Move)
      → let start = close_tunnels (run allow es no_tunnels) in
        let p = run_moves ms start in
        (left_total p.tunnels + progress ms start ≡ left_total start.tunnels)
        × (left_total start.tunnels ≤ 10 * length start.tunnels)
        × (left_total p.tunnels ≡ 0 → p.running ≡ 0)
        × (p.running ≡ 0 → all gone p.tunnels ≡ true)
  unfolding close_tunnels
  close_tunnels-drains es ms =
      let before = run-IsKept allow es in
      let start = close_tunnels (run allow es no_tunnels) in
      let kept = run_moves-IsKept ms start (close_tunnels-IsKept allow _ before) in
      let counted = kept.counted in
      let shut = closed-map_close (run allow es no_tunnels).tunnels before.tunnels_sound in
      let small = active_total_bound (run_moves ms start).tunnels in
      (
        left-run_moves ms start shut,
        left_total_bound start.tunnels,
        (λ none_left. omega arith),
        λ idle. all_gone (run_moves ms start).tunnels (sym counted ∙ idle) kept.tunnels_sound,
      )
