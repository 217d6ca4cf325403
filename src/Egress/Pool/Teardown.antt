-- ===== src/Egress/Pool/Teardown.antt =====
-- Nothing is served after a shutdown (pool.go: Close, Shutdown).
use teploy_sandbox.Prelude.{
  ◌≡◌, refl, ap, ◌∙◌, inl, inr, Bool, true, false, Option, none, some, List, [], ◌∷◌, map, arith,
  if◌then◌else◌, Bool-cases, Option-cases, any, Text, text_eq, text_eq_iff, Table, lookup, erase,
  lookup-erase,
}
use teploy_sandbox.Egress.Pool.{Server, Pool, close_server, close, close_ids, shutdown}
use teploy_sandbox.Egress.Pool.Isolation.{Closed}

close-per_run : (id : Text) (p : Pool) → (close id p).per_run ≡ erase id p.per_run
unfolding close close_server
close-per_run id p = elim (Option-cases (lookup id p.per_run)) [
  | inl absent ↦ rw (absent, close, close_server) refl
  | inr (server, known) ↦ rw (known, close, close_server) refl
]

close-Closed :
    (id : Text) (p : Pool) (server : Server)
    → lookup id p.per_run ≡ some server
    → Closed server (close id p)
unfolding close close_server Closed
close-Closed id p server known = rw (known, close, close_server) (inl refl)

close_kept : (id : Text) (p : Pool) (server : Server) → Closed server p → Closed server (close id p)
unfolding close close_server Closed
close_kept id p server c = elim (Option-cases (lookup id p.per_run)) [
  | inl absent ↦ rw (absent, close, close_server) c
  | inr (other, known) ↦ rw (known, close, close_server) (inr c)
]

names : Text → List Text → Bool
names key ids = any (λ id. text_eq id key) ids

close_ids-per_run :
    (ids : List Text) (p : Pool) (key : Text)
    → lookup key (close_ids ids p).per_run ≡ (if names key ids then none else lookup key p.per_run)
unfolding close_ids names
close_ids-per_run [] p key = refl
close_ids-per_run (id ∷ ids) p key =
    let later = close_ids-per_run ids (close id p) key in
    let first : lookup key (close id p).per_run
        ≡ (if text_eq id key then none else lookup key p.per_run) =
      ap (lookup key) (close-per_run id p) ∙ lookup-erase id key p.per_run in
    later
    ∙ ap (λ o. if any (λ i. text_eq i key) ids then none else o) first
    ∙ (elim (Bool-cases (text_eq id key)) [
      | inl same ↦ rw same (if_same (any (λ i. text_eq i key) ids) none)
      | inr other ↦ rw other refl
    ])
  where
    if_same : (b : Bool) (o : Option Server) → (if b then o else o) ≡ o
    if_same true o = refl
    if_same false o = refl

close_ids_kept :
    (ids : List Text) (p : Pool) (server : Server)
    → Closed server p
    → Closed server (close_ids ids p)
unfolding close_ids
close_ids_kept [] p server c = c
close_ids_kept (id ∷ ids) p server c =
    close_ids_kept ids (close id p) server (close_kept id p server c)

close_ids-Closed :
    (ids : List Text) (p : Pool) (key : Text) (server : Server)
    → names key ids ≡ true
    → lookup key p.per_run ≡ some server
    → Closed server (close_ids ids p)
unfolding close_ids names
close_ids-Closed [] p key server h known = ground arith
close_ids-Closed (id ∷ ids) p key server h known = elim (Bool-cases (text_eq id key)) [
  | inl same ↦
      let e = (text_eq_iff id key).0 same in
      close_ids_kept ids (close id p) server
        (close-Closed id p server (ap (λ k. lookup k p.per_run) e ∙ known))
  | inr other ↦
      let still : lookup key (close id p).per_run ≡ some server =
        ap (lookup key) (close-per_run id p) ∙ lookup-erase id key p.per_run ∙ rw other known in
      close_ids-Closed ids (close id p) key server (ground (arith, other, h)) still
]

-- The ids that Shutdown collects name every key that reads something.
ids_name :
    (t : Table Server) (key : Text) (server : Server)
    → lookup key t ≡ some server
    → names key (map (λ entry. entry.0) t) ≡ true
unfolding names lookup
ids_name [] key server h = ground arith
ids_name (entry ∷ rest) key server h =
    ground (arith, ids_name rest key server, Bool-cases (text_eq entry.0 key))

close_server-per_run : (o : Option Server) (p : Pool) → (close_server o p).per_run ≡ p.per_run
unfolding close_server
close_server-per_run none p = refl
close_server-per_run (some s) p = refl

close_server_kept :
    (o : Option Server) (p : Pool) (server : Server)
    → Closed server p
    → Closed server (close_server o p)
unfolding close_server Closed
close_server_kept none p server c = c
close_server_kept (some s) p server c = inr c

all_gone :
    (key : Text) (t : Table Server)
    → (if names key (map (λ entry. entry.0) t) then none else lookup key t) ≡ none
all_gone key t = elim (Option-cases (lookup key t)) [
  | inr (server, known) ↦ rw (ids_name t key server known) refl
  | inl absent ↦ elim (Bool-cases (names key (map (λ entry. entry.0) t))) [
    | inl named ↦ rw named refl
    | inr unnamed ↦ rw unnamed absent
  ]
]

-- Shutdown leaves no run with a proxy, and closes every proxy that a run had and the shared one.
pub shutdown-closes :
    (p : Pool)
    → let q = shutdown p in
      ((key : Text) → lookup key q.per_run ≡ none)
      × ((key : Text) (server : Server) → lookup key p.per_run ≡ some server → Closed server q)
      × ((server : Server) → p.shared_server ≡ some server → Closed server q)
unfolding shutdown close_server Closed
shutdown-closes p =
    let ids = map (λ entry. entry.0) p.per_run in
    let rest = close_ids ids p in
    (
      λ key.
          ap (lookup key) (close_server-per_run p.shared_server rest)
          ∙ close_ids-per_run ids p key
          ∙ all_gone key p.per_run,
      λ key server known.
          close_server_kept p.shared_server rest server
            (close_ids-Closed ids p key server (ids_name p.per_run key server known) known),
      λ server known. rw (known, close_server) (inl refl),
    )
