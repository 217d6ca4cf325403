-- ===== src/Run/Runtime/Docker/Settled.antt =====
-- What the calls with temporary containers leave behind (runtime.go: Snapshot, SeedVolume).
use teploy_sandbox.Prelude.{◌≡◌, inl, inr, Bool, true, false, [], ◌∷◌, if◌then◌else◌, Text, text_eq}
use teploy_sandbox.Run.Runtime.Docker.{
  runs, inspects, removes, unlinks, removes_all, commits, commits_labelled, creates, copies, lists,
  Entry, called, made, dropped, Log, Host, staging,
}

-- Whether a container of the name is there behind an entry, if `there` says so before it. A removal
-- that docker was asked for counts as one.
unfoldable pub container_after : Text → Entry → Bool → Bool
container_after name (called (runs args) a) there = there
container_after name (called (inspects id) a) there = there
container_after name (called (removes id) a) there = if text_eq id name then false else there
container_after name (called (unlinks ref) a) there = there
container_after name (called (removes_all ids) a) there = there
container_after name (called (commits id ref) a) there = there
container_after name (called (commits_labelled id ref) a) there = there
container_after name (called (creates id ref) (inl e)) there = there
container_after name (called (creates id ref) (inr out)) there =
    if text_eq id name then true else there
container_after name (called (copies from to) a) there = there
container_after name (called lists a) there = there
container_after name (made dir) there = there
container_after name (dropped dir) there = there

unfoldable pub image_after : Text → Entry → Bool → Bool
image_after name (called (runs args) a) there = there
image_after name (called (inspects id) a) there = there
image_after name (called (removes id) a) there = there
image_after name (called (unlinks ref) a) there = if text_eq ref name then false else there
image_after name (called (removes_all ids) a) there = there
image_after name (called (commits id ref) (inl e)) there = there
image_after name (called (commits id ref) (inr out)) there =
    if text_eq ref name then true else there
image_after name (called (commits_labelled id ref) (inl e)) there = there
image_after name (called (commits_labelled id ref) (inr out)) there =
    if text_eq ref name then true else there
image_after name (called (creates id ref) a) there = there
image_after name (called (copies from to) a) there = there
image_after name (called lists a) there = there
image_after name (made dir) there = there
image_after name (dropped dir) there = there

unfoldable pub temp_after : Text → Entry → Bool → Bool
temp_after name (called c a) there = there
temp_after name (made dir) there = if text_eq dir name then true else there
temp_after name (dropped dir) there = if text_eq dir name then false else there

unfoldable pub container_left : Text → Log → Bool
unfolding container_after
container_left name [] = false
container_left name (e ∷ log) = container_after name e (container_left name log)

unfoldable pub image_left : Text → Log → Bool
unfolding image_after
image_left name [] = false
image_left name (e ∷ log) = image_after name e (image_left name log)

unfoldable pub temp_left : Text → Log → Bool
unfolding temp_after
temp_left name [] = false
temp_left name (e ∷ log) = temp_after name e (temp_left name log)

module _ (h : Host) (id volume ref seed : Text) where
  -- The temporary container and the staged image are gone.
  pub record Cleared (log : Log) : Type 0 where
    pub container : container_left seed log ≡ false
    pub image : image_left (staging ref) log ≡ false
