-- ===== src/Egress/Entry/Grammar.antt =====
-- What an accepted entry looks like: ValidateEntry returns the entry as it was, trimmed and in lower
-- case, and every character of it is one of the grammar's.
use teploy_sandbox.Prelude.{
  ℕ, ◌≡◌, refl, inl, inr, Bool, true, false, not, ◌&&◌, ◌||◌, List, [], ◌∷◌, arith, ltb, ◌==◌,
  Bool-cases, Option-cases, length, all, all-append, all_mono, Text, is_space, is_empty, starts,
  trim_prefix, split, split-all,
}
use teploy_sandbox.Egress.Address.{atoi, split_host_port}
use teploy_sandbox.Egress.Address.Numbers.{is_number_char, atoi-chars}
use teploy_sandbox.Egress.Address.Parts.{Spells, split_host_port-Spells}
use teploy_sandbox.Egress.Ip.{is_hex, is_ip}
use teploy_sandbox.Egress.Ip.Chars.{is_ip_char, is_ip-chars}
use teploy_sandbox.Egress.Entry.{
  EntryError, Checked, accepted, refused, ◌>>=◌, reject_if, is_label_char, is_label, is_port,
  check_shape, check_parts, check_labels, check_host, check_entry, bad_port,
}

-- Letters, digits, and `- _ . : [ ] +`.
pub is_entry_char : ℕ → Bool
unfolding is_label_char is_hex
is_entry_char c =
    is_label_char c || is_hex c || c == b'.' || c == b':' || c == b'[' || c == b']' || c == b'+'

abbrev EntryText : Text → Type 0
EntryText s = all is_entry_char s ≡ true

ip-entry_char : (c : ℕ) → is_ip_char c ≡ true → is_entry_char c ≡ true
unfolding is_ip_char is_entry_char
ip-entry_char c h = ground arith

label-entry_char : (c : ℕ) → is_label_char c ≡ true → is_entry_char c ≡ true
unfolding is_entry_char
label-entry_char c h = ground arith

number-entry_char : (c : ℕ) → is_number_char c ≡ true → is_entry_char c ≡ true
unfolding is_number_char is_entry_char
number-entry_char c h = ground arith

port-chars : (port : Text) → is_port port ≡ true → EntryText port
unfolding is_port
port-chars port h = elim (Option-cases (atoi port)) [
  | inl e ↦ absurd (ground arith)
  | inr (n, e) ↦ all_mono is_number_char is_entry_char port number-entry_char (atoi-chars port n e)
]

label-chars : (label : Text) → is_label label ≡ true → all is_label_char label ≡ true
unfolding is_label
label-chars label h = ground arith

labels-chars :
    (labels : List Text) → all is_label labels ≡ true → all (all is_label_char) labels ≡ true
labels-chars [] h = refl
labels-chars (l ∷ labels) h = ground (arith, label-chars l, labels-chars labels)

dotted-entry_char : (c : ℕ) → (is_label_char c || c == b'.') ≡ true → is_entry_char c ≡ true
unfolding is_entry_char
dotted-entry_char c h = ground arith

bare-chars : (bare : Text) → all is_label (split bare b'.') ≡ true → EntryText bare
bare-chars bare h =
    all_mono (λ c. is_label_char c || c == b'.') is_entry_char bare dotted-entry_char
      (split-all is_label_char bare b'.' (labels-chars (split bare b'.') h))

check_labels-all :
    (suffix : Bool) (labels : List Text)
    → check_labels suffix labels ≡ accepted tt
    → all is_label labels ≡ true
unfolding check_labels
check_labels-all suffix labels h =
    ground (arith, Bool-cases (suffix && ltb (length labels) 2), Bool-cases (all is_label labels))

dot-chars : (host : Text) → EntryText (trim_prefix b'.' host) → EntryText host
unfolding trim_prefix is_entry_char
dot-chars [] h = refl
dot-chars (c ∷ s) h = ground arith

host-chars : (host : Text) → check_host host ≡ accepted tt → EntryText host
unfolding check_host
host-chars host h = dot-chars host (bare (trim_prefix b'.' host) refl)
  where
    bare : (b : Text) → trim_prefix b'.' host ≡ b → EntryText b
    bare b e = elim (Bool-cases (is_ip b)) [
      | inl ip ↦ all_mono is_ip_char is_entry_char b ip-entry_char (is_ip-chars b ip)
      | inr name ↦
          bare-chars b (check_labels-all (starts (b'.' ∷ []) host) (split b b'.') (ground arith))
    ]

Spells-chars :
    (entry host port : Text)
    → Spells entry host port
    → EntryText host
    → EntryText port
    → EntryText entry
unfolding is_entry_char
Spells-chars entry host port (inl (e, _)) h p =
    rw (e, all-append is_entry_char host (b':' ∷ port)) (ground arith)
Spells-chars entry host port (inr e) h p =
    rw (e, all-append is_entry_char host (b']' ∷ b':' ∷ port)) (ground arith)

check_parts-chars :
    (entry host port : Text)
    → check_parts entry ≡ accepted (host, port)
    → EntryText host
    → EntryText port
    → EntryText entry
unfolding check_parts
check_parts-chars entry host port e h p = elim (Option-cases (split_host_port entry)) [
  | inl bare ↦ let same : host ≡ entry = ground arith in rw same at h
  | inr ((host', port'), found) ↦
      let same : (host' ≡ host) × (port' ≡ port) = ground arith in
      Spells-chars entry host port
        (split_host_port-Spells entry host port (ground (arith, found))).0 h p
]

-- Checks that accept together accept one by one.
pub >>=-eq-accepted {ℓ κ} :
    {S : Type ℓ} {T : Type κ} (check : Checked S) (next : S → Checked T) {result : T}
    → (check >>= next) ≡ accepted result
    → (found : S) × (check ≡ accepted found) × (next found ≡ accepted result)
>>=-eq-accepted (refused why) next e = cc
>>=-eq-accepted (accepted found) next e = (found, refl, e)

-- What the steps of ValidateEntry found in an entry that they accept.
pub record Valid (entry host port : Text) : Type 0 where
  pub shape : check_shape entry ≡ accepted tt
  pub parts : check_parts entry ≡ accepted (host, port)
  pub numbered : (not (is_empty port) && not (is_port port)) ≡ false
  pub named : check_host host ≡ accepted tt

reject_if-inv : (b : Bool) (e : EntryError) → reject_if b e ≡ accepted tt → b ≡ false
reject_if-inv true e h = cc
reject_if-inv false e h = refl

pub check_entry-Valid :
    (entry e : Text)
    → check_entry entry ≡ accepted e
    → (e ≡ entry) × ((host : Text) × (port : Text) × Valid entry host port)
unfolding check_entry
check_entry-Valid entry e h =
    let (_, shape, h₁) = >>=-eq-accepted (check_shape entry) _ h in
    let ((host, port), parts, h₂) = >>=-eq-accepted (check_parts entry) _ h₁ in
    let (_, numbered, h₃) =
      >>=-eq-accepted (reject_if (not (is_empty port) && not (is_port port)) bad_port) _ h₂ in
    let (_, named, h₄) = >>=-eq-accepted (check_host host) _ h₃ in
    (
      cc,
      (
        host,
        port,
        record {
          shape = shape;
          parts = parts;
          numbered = reject_if-inv _ _ numbered;
          named = named;
        },
      ),
    )

empty-chars : (port : Text) → is_empty port ≡ true → EntryText port
empty-chars [] h = refl
empty-chars (c ∷ s) h = cc

pub Valid-chars : (entry host port : Text) → Valid entry host port → all is_entry_char entry ≡ true
Valid-chars entry host port v =
    check_parts-chars entry host port v.parts (host-chars host v.named)
      (elim (Bool-cases (is_empty port)) [
        | inl none_named ↦ empty-chars port none_named
        | inr given ↦ port-chars port (ground (arith, v.numbered))
      ])

pub entry_char-not_space : (c : ℕ) → is_entry_char c ≡ true → not (is_space c) ≡ true
unfolding is_entry_char
entry_char-not_space c h = ground arith

pub entry_char-not_list_char :
    (c : ℕ)
    → is_entry_char c ≡ true
    → (not (c == b',') && not (c == b' ') && not (c == b'\n')) ≡ true
unfolding is_entry_char
entry_char-not_list_char c h = ground arith

pub check_shape-nonempty : (entry : Text) → check_shape entry ≡ accepted tt → is_empty entry ≡ false
unfolding check_shape
check_shape-nonempty [] h = cc
check_shape-nonempty (c ∷ s) h = refl
