-- ===== src/RemoteAccess/Config/Rules.antt =====
-- config.go: which files, commands and privileges a configuration allows.
use mathlib.Core.List.{
  reverse, reverse-cons, reverse-append, append_assoc, append-nil, reverse-reverse,
}
use onli_desk_full.Common.{
  ◌≡◌, ◌≢◌, ◌↔◌, ◌⊎◌, inl, inr, refl, sym, ap, ◌∙◌, ℕ, ℤ, pos, ◌≤ℤ◌, ◌<ℤ◌, String, ◌==◌, eq_iff,
  Bool, true, false, none, some, List, [], ◌∷◌, ◌++◌, arith, nat_beq, All, Bool-cases,
}
use onli_desk_full.Common.Text.{
  Text, codes, text_eq, text_eq_iff, is_listed, lower, lower_char, lower_idem,
}
use onli_desk_full.RemoteAccess.Session.{PrivilegeType}
use onli_desk_full.RemoteAccess.Config.{
  RemoteAccessConfig, is_valid_privilege, is_empty, scan_back, file_ext, is_file_type_allowed,
  before_blank, is_blank, command_name, is_command_allowed, get_privilege_timeout, is_member,
  is_privilege_allowed, validate,
}
use onli_desk_full.RemoteAccess.Config.Validation.{validate-none_iff}

abbrev pub HasNo : ℕ → Text → Type 0
HasNo c = All (λ d. nat_beq d c ≡ false)

scan_back-HasNo :
    (t rest after : Text)
    → HasNo b'.' t
    → scan_back (t ++ rest) after ≡ scan_back rest (reverse t ++ after)
unfolding scan_back
scan_back-HasNo [] rest after h = refl
scan_back-HasNo (c ∷ t) rest after h =
    rw h.0 (rw (reverse-cons c t, append_assoc) (scan_back-HasNo t rest (c ∷ after) h.1))

HasNo-append : (c : ℕ) (s t : Text) → HasNo c s → HasNo c t → HasNo c (s ++ t)
HasNo-append c [] t h k = k
HasNo-append c (d ∷ s) t h k = (h.0, HasNo-append c s t h.1 k)

HasNo-reverse : (c : ℕ) (s : Text) → HasNo c s → HasNo c (reverse s)
HasNo-reverse c [] h = tt
HasNo-reverse c (d ∷ s) h =
    rw (reverse-cons d s) (HasNo-append c (reverse s) (d ∷ []) (HasNo-reverse c s h.1) (h.0, tt))

-- The extension runs from the last dot to the end of the name.
file_ext_lem :
    (before tail : Text) → HasNo b'.' tail → file_ext (before ++ b'.' ∷ tail) ≡ b'.' ∷ tail
unfolding file_ext
file_ext_lem before tail h =
    let suffix =
      scan_back-HasNo (reverse tail) (b'.' ∷ reverse before) [] (HasNo-reverse _ tail h) in
    rw (reverse-append before (b'.' ∷ tail), reverse-cons, append_assoc)
      (suffix ∙ unfold scan_back in rw (reverse-reverse tail, append-nil) refl)

file_ext-nil : (name : Text) → HasNo b'.' name → file_ext name ≡ []
unfolding file_ext
file_ext-nil name h =
    let suffix = scan_back-HasNo (reverse name) [] [] (HasNo-reverse _ name h) in
    rw (← append-nil (reverse name)) (suffix ∙ unfold scan_back in refl)

-- With file transfer on, a file whose last dot is followed by `tail` is allowed exactly when its
-- extension in lower case is not blocked and the list of allowed types is empty or has it.
pub is_file_type_allowed_iff :
    (c : RemoteAccessConfig) (filename : String) (before tail : Text)
    → c.file_transfer_enabled ≡ true
    → codes filename ≡ before ++ b'.' ∷ tail
    → HasNo b'.' tail
    → (is_file_type_allowed c filename ≡ true) ↔ (
        (is_listed (lower (b'.' ∷ tail)) c.blocked_file_types ≡ false)
        × ((c.allowed_file_types ≡ [])
            ⊎ (is_listed (lower (b'.' ∷ tail)) c.allowed_file_types ≡ true)))
unfolding is_file_type_allowed
is_file_type_allowed_iff c filename before tail on name h =
    ground (arith, ap file_ext name, file_ext_lem before tail h)

-- A file without a dot in its name is never allowed, nor is any file when file transfer is off.
pub is_file_type_allowed-false :
    (c : RemoteAccessConfig) (filename : String)
    → (c.file_transfer_enabled ≡ false) ⊎ HasNo b'.' (codes filename)
    → is_file_type_allowed c filename ≡ false
unfolding is_file_type_allowed
is_file_type_allowed-false c filename (inl off) = ground arith
is_file_type_allowed-false c filename (inr h) = ground (arith, file_ext-nil (codes filename) h)

lower-append : (s t : Text) → lower (s ++ t) ≡ lower s ++ lower t
unfolding lower
lower-append [] t = refl
lower-append (c ∷ s) t = ap (◌∷◌ (lower_char c)) (lower-append s t)

lower-reverse : (s : Text) → lower (reverse s) ≡ reverse (lower s)
lower-reverse [] = unfold lower in refl
lower-reverse (c ∷ s) =
    rw (reverse-cons c s, lower-append (reverse s) (c ∷ []), lower-reverse s)
      (unfold lower in sym (reverse-cons (lower_char c) (lower s)))

dot_lower : (c : ℕ) → nat_beq (lower_char c) b'.' ≡ nat_beq c b'.'
unfolding lower_char
dot_lower c = ground arith

lower-scan_back : (s after : Text) → lower (scan_back s after) ≡ scan_back (lower s) (lower after)
unfolding scan_back lower
lower-scan_back [] after = refl
lower-scan_back (c ∷ s) after = elim (Bool-cases (nat_beq c b'.')) [
  | inl e ↦ rw (dot_lower c, e) refl
  | inr e ↦ rw (dot_lower c, e) (lower-scan_back s (c ∷ after))
]

lower-file_ext : (s : Text) → lower (file_ext s) ≡ file_ext (lower s)
unfolding file_ext lower
lower-file_ext s =
    lower-scan_back (reverse s) [] ∙ ap (λ (t : Text). scan_back t []) (lower-reverse s)

is_empty-lower : (s : Text) → is_empty (lower s) ≡ is_empty s
unfolding lower
is_empty-lower [] = refl
is_empty-lower (c ∷ s) = refl

-- The decision does not depend on the case of the ASCII letters in the name.
pub is_file_type_allowed_case :
    (c : RemoteAccessConfig) (a b : String)
    → lower (codes a) ≡ lower (codes b)
    → is_file_type_allowed c a ≡ is_file_type_allowed c b
unfolding is_file_type_allowed
is_file_type_allowed_case c a b e =
    let same : lower (file_ext (codes a)) ≡ lower (file_ext (codes b)) =
      lower-file_ext (codes a) ∙ ap file_ext e ∙ sym (lower-file_ext (codes b)) in
    let none_left : is_empty (file_ext (codes a)) ≡ is_empty (file_ext (codes b)) =
      sym (is_empty-lower (file_ext (codes a)))
      ∙ ap is_empty same
      ∙ is_empty-lower (file_ext (codes b)) in
    ground (arith, same, none_left)

text_eq-lower : (t x : Text) → lower x ≢ x → text_eq (lower t) x ≡ false
text_eq-lower t x h = elim (Bool-cases (text_eq (lower t) x)) [
  | inl e ↦
      absurd (h (ap lower (sym ((text_eq_iff _ _).0 e)) ∙ lower_idem t ∙ (text_eq_iff _ _).0 e))
  | inr e ↦ e
]

-- A blocked file type that is not written in lower case blocks nothing: the decision is the one
-- without it.
pub blocked_file_type_case :
    (c : RemoteAccessConfig) (x : String) (blocked : List String) (filename : String)
    → lower (codes x) ≢ codes x
    → is_file_type_allowed (record c { blocked_file_types = x ∷ blocked }) filename
      ≡ is_file_type_allowed (record c { blocked_file_types = blocked }) filename
unfolding is_file_type_allowed is_listed
blocked_file_type_case c x blocked filename h =
    ground (arith, text_eq-lower (file_ext (codes filename)) (codes x) h)

-- The word before the first blank.
command_name_lem :
    (word rest : Text) (b : ℕ)
    → All (λ c. is_blank c ≡ false) word
    → is_blank b ≡ true
    → before_blank (word ++ b ∷ rest) ≡ some word
unfolding before_blank
command_name_lem [] rest b h e = rw (e, before_blank)
command_name_lem (c ∷ word) rest b h e =
    rw (h.0, before_blank) (rw (command_name_lem word rest b h.1 e))

before_blank-none : (word : Text) → All (λ c. is_blank c ≡ false) word → before_blank word ≡ none
unfolding before_blank
before_blank-none [] h = refl
before_blank-none (c ∷ word) h = rw (h.0, before_blank) (rw (before_blank-none word h.1))

-- The arguments of a command do not matter: a command is allowed exactly if its first word is.
pub is_command_allowed_word :
    (c : RemoteAccessConfig) (command first : String) (d : ℕ) (word rest : Text) (b : ℕ)
    → codes first ≡ d ∷ word
    → codes command ≡ (d ∷ word) ++ b ∷ rest
    → All (λ k. is_blank k ≡ false) (d ∷ word)
    → is_blank b ≡ true
    → is_command_allowed c command ≡ is_command_allowed c first
unfolding is_command_allowed
is_command_allowed_word c command first d word rest b e f h blank =
    let whole : command_name (codes command) ≡ d ∷ word =
      rw f (unfold command_name in rw (command_name_lem (d ∷ word) rest b h blank) refl) in
    let alone : command_name (codes first) ≡ d ∷ word =
      rw e (unfold command_name in rw (before_blank-none (d ∷ word) h) refl) in
    ground (arith, whole, alone)

abbrev pub starts_blank : Text → Bool
starts_blank [] = false
starts_blank (c ∷ _) = is_blank c

text_eq-starts_blank :
    (s t : Text) → starts_blank s ≡ true → starts_blank t ≡ false → text_eq s t ≡ false
unfolding text_eq
text_eq-starts_blank [] t h k = absurd (ground arith)
text_eq-starts_blank (c ∷ s) [] h k = refl
text_eq-starts_blank (c ∷ s) (d ∷ t) h k = ground arith

is_listed-starts_blank :
    (s : Text) (xs : List String)
    → starts_blank s ≡ true
    → All (λ x. starts_blank (codes x) ≡ false) xs
    → is_listed s xs ≡ false
unfolding is_listed
is_listed-starts_blank s [] h k = refl
is_listed-starts_blank s (x ∷ xs) h k =
    rw (text_eq-starts_blank s (codes x) h k.0) (is_listed-starts_blank s xs h k.1)

starts_blank-lower : (s : Text) → starts_blank s ≡ true → starts_blank (lower s) ≡ true
unfolding lower lower_char
starts_blank-lower [] h = h
starts_blank-lower (c ∷ s) h = ground arith

command_name-starts_blank : (s : Text) → starts_blank s ≡ true → command_name s ≡ s
unfolding command_name
command_name-starts_blank [] h = refl
command_name-starts_blank (c ∷ s) h = rw (h, before_blank) refl

-- A command with a blank in front passes every blocked command: with command execution on, no list
-- of allowed commands, and no blocked command that itself starts with a blank, it is allowed.
leading_blank_allowed :
    (c : RemoteAccessConfig) (command : String)
    → c.command_execution_enabled ≡ true
    → c.allowed_commands ≡ []
    → All (λ x. starts_blank (codes x) ≡ false) c.blocked_commands
    → starts_blank (codes command) ≡ true
    → is_command_allowed c command ≡ true
unfolding is_command_allowed
leading_blank_allowed c command on all k h =
    let unlisted =
      is_listed-starts_blank (lower (codes command)) c.blocked_commands
        (starts_blank-lower (codes command) h) k in
    ground (arith, command_name-starts_blank (codes command) h, unlisted)

-- The timeout granted under valid settings is positive and at most the maximum.
pub get_privilege_timeout_bounds :
    (c : RemoteAccessConfig) (type : PrivilegeType) (requested : ℤ)
    → validate c ≡ none
    → c.privilege_escalation.enabled ≡ true
    → (pos 0 <ℤ get_privilege_timeout c type requested)
      × (get_privilege_timeout c type requested ≤ℤ c.privilege_escalation.max_privilege_duration)
unfolding get_privilege_timeout
get_privilege_timeout_bounds c type requested v on =
    let valid = ((validate-none_iff c).0 v).privileges on in ground (arith, valid)

is_member-All :
    (p : PrivilegeType) (ps : List PrivilegeType) (good : PrivilegeType → Bool)
    → is_member p ps ≡ true
    → All (λ q. good q ≡ true) ps
    → good p ≡ true
unfolding is_member
is_member-All p [] good h k = absurd (ground arith)
is_member-All p (q ∷ qs) good h k = elim (Bool-cases (q == p)) [
  | inl same ↦ rw (← (eq_iff q p).0 same) k.0
  | inr other ↦ is_member-All p qs good (ground arith) k.1
]

-- Under a valid configuration only the four known privilege types are ever allowed.
pub is_privilege_allowed_valid :
    (c : RemoteAccessConfig) (type : PrivilegeType)
    → validate c ≡ none
    → is_privilege_allowed c type ≡ true
    → is_valid_privilege type ≡ true
unfolding is_privilege_allowed
is_privilege_allowed_valid c type v h = elim (Bool-cases c.privilege_escalation.enabled) [
  | inl on ↦
      is_member-All type c.privilege_escalation.allowed_privileges is_valid_privilege (ground arith)
        (((validate-none_iff c).0 v).privileges on).known
  | inr off ↦ absurd (ground arith)
]
