-- ===== src/Egress/Entry.antt =====
-- ValidateEntry and ValidateAllowlist of internal/egress/proxy.go.
pub mod Grammar
pub mod Normal
use teploy_sandbox.Prelude.{
  ℕ, Bool, true, false, not, ◌&&◌, ◌||◌, none, some, List, [], ◌∷◌, ltb, leb, ◌==◌, if◌then◌else◌,
  length, all, Text, codes, trim_space, is_empty, starts, ends, trim_prefix, contains, contains_any,
  has_part, split, byte_length, CaseTable, to_lower, pos, negsuc,
}
use teploy_sandbox.Egress.Address.{split_host_port, atoi}
use teploy_sandbox.Egress.Ip.{is_ip}
use teploy_sandbox.Egress.Allowlist.{Allowlist}

-- The reason that ValidateEntry gives; the texts of the errors are not kept.
pub data EntryError : Type 0 where
  empty_entry is_url is_wildcard many_hosts bad_host_port bad_port no_host whole_tld bad_label :
      EntryError

-- What a check returns beside an error.
pub data Checked {ℓ} (T : Type ℓ) : Type ℓ where
  accepted : T → Checked T
  refused : EntryError → Checked T

-- A check goes on with what the one before it accepted.
infixl 5 ◌>>=◌
abbrev pub ◌>>=◌ {ℓ κ} :
    {S : Type ℓ} {T : Type κ} (check : Checked S) (next : S → Checked T) → Checked T
refused why >>= next = refused why
accepted found >>= next = next found

infixl 5 ◌>>◌
abbrev pub ◌>>◌ {ℓ} : {T : Type ℓ} (check : Checked (Unit {0})) (next : Checked T) → Checked T
check >> next = check >>= λ _. next

-- `if found { return why }`.
abbrev pub reject_if : (found : Bool) (why : EntryError) → Checked (Unit {0})
reject_if false why = accepted tt
reject_if true why = refused why

-- The characters of a hostname label.
pub is_label_char : ℕ → Bool
is_label_char c = (leb b'a' c && leb c b'z') || (leb b'0' c && leb c b'9') || c == b'-' || c == b'_'

pub is_label : Text → Bool
unfolding is_label_char
is_label label =
    not (
      is_empty label
      || ltb 63 (byte_length label)
      || starts (b'-' ∷ []) label
      || ends (b'-' ∷ []) label)
    && all is_label_char label

-- Whether the text of a port is a number from 1 to 65535.
pub is_port : Text → Bool
is_port port = elim (atoi port) [
  | none ↦ false
  | some n ↦ elim n [ pos k ↦ leb 1 k && leb k 65535 | negsuc k ↦ false ]
]

-- The first switch of ValidateEntry.
pub check_shape : Text → Checked (Unit {0})
check_shape entry = do
  reject_if (is_empty entry) empty_entry
  reject_if (has_part (codes "://") entry || contains b'/' entry) is_url
  reject_if (contains b'*' entry) is_wildcard
  reject_if (contains_any (codes " \t\n,@?#") entry) many_hosts

-- The host and the port of an entry, the port empty where there is none.
pub check_parts : Text → Checked (Text × Text)
check_parts entry = elim (split_host_port entry) [
  | some parts ↦ accepted parts
  | none ↦ if contains b':' entry then refused bad_host_port else accepted (entry, [])
]

pub check_labels : Bool → List Text → Checked (Unit {0})
unfolding is_label
check_labels suffix labels = do
  reject_if (suffix && ltb (length labels) 2) whole_tld
  reject_if (not (all is_label labels)) bad_label

pub check_host : Text → Checked (Unit {0})
unfolding check_labels
check_host host =
    let suffix = starts (b'.' ∷ []) host in
    let bare = trim_prefix b'.' host in
    if is_empty bare
    then refused no_host
    else if not suffix && is_ip bare
    then accepted tt
    else check_labels suffix (split bare b'.')

-- What ValidateEntry asks of an entry that is trimmed and in lower case.
pub check_entry : Text → Checked Text
unfolding check_shape check_parts is_port check_host
check_entry entry = do
  check_shape entry
  (host, port) ← check_parts entry
  reject_if (not (is_empty port) && not (is_port port)) bad_port
  check_host host
  accepted entry

module _ ⦃u : CaseTable⦄ where
  -- ValidateEntry.
  unfoldable pub validate_entry : Text → Checked Text
  unfolding check_entry
  validate_entry raw = check_entry (to_lower (trim_space raw))

  -- ValidateAllowlist.
  unfoldable pub validate_allowlist : List Text → Checked Allowlist
  unfolding validate_entry
  validate_allowlist [] = accepted []
  validate_allowlist (raw ∷ rest) = do
    entry ← validate_entry raw
    list ← validate_allowlist rest
    accepted (entry ∷ list)
