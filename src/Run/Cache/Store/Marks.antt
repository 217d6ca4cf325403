-- ===== src/Run/Cache/Store/Marks.antt =====
-- The in-use marks of cache.go (CacheStore.mark, unmark).
use teploy_sandbox.Prelude.{
  ℕ, ◌+◌, ◌-◌, ◌≡◌, refl, arith, if◌then◌else◌, Text, text_eq, text_eq_iff, lookup-insert,
  lookup-erase,
}
use teploy_sandbox.Run.Cache.Store.{Store, marks_on, mark, unmark, touch_last_used, with_repo}

pub marks_on-mark :
    (dir asked : Text) (s : Store)
    → marks_on asked (mark dir s)
      ≡ (if text_eq dir asked then marks_on asked s + 1 else marks_on asked s)
unfolding mark marks_on
marks_on-mark dir asked s =
    ground (arith, lookup-insert dir asked (marks_on dir s + 1) s.in_use, text_eq_iff dir asked)

pub marks_on-unmark :
    (dir asked : Text) (s : Store)
    → marks_on asked (unmark dir s)
      ≡ (if text_eq dir asked then marks_on asked s - 1 else marks_on asked s)
unfolding unmark marks_on
marks_on-unmark dir asked s = ground (
  arith,
  lookup-insert dir asked (marks_on dir s - 1) s.in_use,
  lookup-erase dir asked s.in_use,
  text_eq_iff dir asked,
)

pub marks_on-in_use :
    (dir : Text) (s s' : Store) → s'.in_use ≡ s.in_use → marks_on dir s' ≡ marks_on dir s
unfolding marks_on
marks_on-in_use dir s s' e = rw e refl

pub unmark-repos : (dir : Text) (s : Store) → (unmark dir s).repos ≡ s.repos
unfolding unmark
unmark-repos dir s = ground arith

pub unmark-volumes : (dir : Text) (s : Store) → (unmark dir s).volumes ≡ s.volumes
unfolding unmark
unmark-volumes dir s = ground arith

pub touch_last_used-volumes :
    (key : Text) (now : ℕ) (s : Store) → (touch_last_used key now s).volumes ≡ s.volumes
unfolding touch_last_used with_repo
touch_last_used-volumes key now s = ground arith
