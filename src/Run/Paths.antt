-- ===== src/Run/Paths.antt =====
-- The checks on names and paths of internal/run: ParseNetwork and ValidateWorkPath of manager.go,
-- NormalizeSlug and ValidateWarmPath of cache.go, WorkDir of runtime.go.
pub mod Confined
mod Examples
use teploy_sandbox.Prelude.{
  ℕ, ◌/◌, Bool, false, not, ◌&&◌, ◌||◌, none, List, [], ◌∷◌, ◌++◌, leb, ◌==◌, if◌then◌else◌, length,
  all, any, Text, codes, text_eq, trim_space, is_empty, starts, ends, contains_any, has_part, split,
  CaseTable, to_lower, Result, ok, err, bad_request,
}
use teploy_sandbox.Run.Types.{Network, network_none, network_allowlist, network_open}

abbrev pub work_dir : Text
work_dir = codes "/work"

-- ParseNetwork.
unfoldable pub parse_network : Text → Result Network
parse_network raw =
    if is_empty raw || text_eq raw (codes "none")
    then ok network_none
    else if text_eq raw (codes "allowlist") || text_eq raw (codes "egress")
    then ok network_allowlist
    else if text_eq raw (codes "open")
    then ok network_open
    else err bad_request

-- `segment == ".." || segment == ""`.
unfoldable pub is_escape : Text → Bool
is_escape segment = text_eq segment (codes "..") || is_empty segment

-- ValidateWorkPath.
unfoldable pub validate_work_path : Text → Result Text
unfolding is_escape
validate_work_path path =
    if is_empty path || starts (codes "/") path
    then err bad_request
    else if any is_escape (split path b'/')
    then err bad_request
    else ok (work_dir ++ (b'/' ∷ path))

-- `[a-z0-9]`, and `[a-z0-9_.-]`.
is_slug_start : ℕ → Bool
is_slug_start c = (leb b'a' c && leb c b'z') || (leb b'0' c && leb c b'9')

is_slug_char : ℕ → Bool
unfolding is_slug_start
is_slug_char c = is_slug_start c || c == b'_' || c == b'.' || c == b'-'

-- `[a-z0-9][a-z0-9_.-]{0,62}`.
is_slug_segment : Text → Bool
unfolding is_slug_char
is_slug_segment [] = false
is_slug_segment (c ∷ s) = is_slug_start c && all is_slug_char s && leb (length s) 62

-- slugShape: two or more such segments between slashes, none of which a segment can hold.
has_slug_shape : Text → Bool
unfolding is_slug_segment
has_slug_shape slug =
    let segments = split slug b'/' in leb 2 (length segments) && all is_slug_segment segments

-- `strings.HasPrefix(seg, ".") || strings.HasSuffix(seg, ".")`.
is_dotted : Text → Bool
is_dotted segment = starts (codes ".") segment || ends (codes ".") segment

-- NormalizeSlug on a slug in lower case.
check_slug : Text → Result Text
unfolding has_slug_shape is_dotted
check_slug slug =
    if not (has_slug_shape slug)
    then err bad_request
    else if any is_dotted (split slug b'/')
    then err bad_request
    else ok slug

-- NormalizeSlug.
unfoldable pub normalize_slug : ⦃u : CaseTable⦄ → Text → Result Text
unfolding check_slug
normalize_slug repo = check_slug (to_lower (trim_space repo))

-- The segments that a mount point may not have.
is_bad_segment : Text → Bool
is_bad_segment segment =
    is_empty segment
    || text_eq segment (codes ".")
    || text_eq segment (codes "..")
    || contains_any (codes " \t\n'\"\\,:") segment

abbrev pub forbidden_roots : List Text
forbidden_roots =
    codes "/"
    ∷ codes "/proc"
    ∷ codes "/sys"
    ∷ codes "/dev"
    ∷ codes "/etc"
    ∷ codes "/bin"
    ∷ codes "/usr"
    ∷ codes "/lib"
    ∷ codes "/sbin"
    ∷ []

is_under : Text → Text → Bool
is_under path root = text_eq path root || starts (root ++ codes "/") path

tail_of : Text → Text
tail_of [] = []
tail_of (c ∷ s) = s

-- ValidateWarmPath.
unfoldable pub validate_warm_path : Text → Result Text
unfolding is_bad_segment is_under tail_of
validate_warm_path path =
    if is_empty path
    then ok work_dir
    else if not (starts (codes "/") path) || has_part (codes "//") path || ends (codes "/") path
    then err bad_request
    else if any is_bad_segment (split (tail_of path) b'/')
    then err bad_request
    else if any (is_under path) forbidden_roots
    then err bad_request
    else ok path
