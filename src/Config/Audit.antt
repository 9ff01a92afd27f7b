-- ===== src/Config/Audit.antt =====
-- `audit_ovpn_content` and `ovpn_is_auth_required` of eovpn/utils.py. A file is the list of its
-- lines, or `none` where it cannot be opened.
pub mod Reports
use e_ovpn_pro.Base.{
  Bool, true, false, not, ◌&&◌, ◌||◌, Option, none, some, List, [], ◌∷◌, ℕ, Text, codes, same,
  lower, strip, contains, any, ltb, ◌==◌, if◌then◌else◌,
}
use e_ovpn_pro.Config.Parser.{File, line_words}

abbrev pub dangerous_ovpn_directives : List Text
dangerous_ovpn_directives =
    codes "up"
    ∷ codes "down"
    ∷ codes "route-up"
    ∷ codes "route-pre-down"
    ∷ codes "route-post-down"
    ∷ codes "ipchange"
    ∷ codes "learn-address"
    ∷ codes "client-connect"
    ∷ codes "client-disconnect"
    ∷ codes "tls-verify"
    ∷ codes "iproute"
    ∷ codes "script-security"
    ∷ codes "setenv"
    ∷ codes "plugin"
    ∷ codes "management"
    ∷ codes "auth-user-pass"
    ∷ codes "auth-user-pass-verify"
    ∷ codes "tls-crypt-v2-verify"
    ∷ []

-- `key in DANGEROUS_OVPN_DIRECTIVES`
unfoldable pub is_dangerous : Text → Bool
is_dangerous key = any (same key) dangerous_ovpn_directives

-- The directive that a line is reported for; `auth-user-pass` alone is not reported.
unfoldable pub reported : List Text → Option Text
reported [] = none
reported (word ∷ []) =
    let key = lower word in
    if not (is_dangerous key)
    then none
    else if same key (codes "auth-user-pass")
    then none
    else some key
reported (word ∷ _ ∷ _) = let key = lower word in if is_dangerous key then some key else none

-- `found.add(key)`
unfoldable pub add : Option Text → List Text → List Text
add none found = found
add (some key) found = if any (same key) found then found else key ∷ found

-- the loop over the lines
unfoldable pub found_in : List Text → List Text → List Text
unfolding add reported line_words
found_in found [] = found
found_in found (raw ∷ lines) = found_in (add (reported (line_words (strip raw))) found) lines

-- `<` on texts
unfoldable pub text_lt : Text → Text → Bool
text_lt s [] = false
text_lt [] (b ∷ t) = true
text_lt (a ∷ s) (b ∷ t) = ltb a b || (a == b && text_lt s t)

unfoldable pub insert_text : Text → List Text → List Text
insert_text x [] = x ∷ []
insert_text x (y ∷ ys) =
    let later = insert_text x ys in if text_lt y x then y ∷ later else x ∷ y ∷ ys

-- `sorted(found)`
unfoldable pub sort_texts : List Text → List Text
unfolding insert_text
sort_texts [] = []
sort_texts (x ∷ xs) = insert_text x (sort_texts xs)

-- `audit_ovpn_content`
unfoldable pub audit_ovpn_content : File → List Text
unfolding found_in sort_texts
audit_ovpn_content none = []
audit_ovpn_content (some lines) = sort_texts (found_in [] lines)

-- a line that is neither blank nor a comment and names the directive anywhere
unfoldable pub asks_password : Text → Bool
asks_password [] = false
asks_password (c ∷ line) =
    not (c == b'#' || c == b';') && contains (codes "auth-user-pass") (c ∷ line)

-- `ovpn_is_auth_required`
unfoldable pub ovpn_is_auth_required : File → Bool
ovpn_is_auth_required none = false
ovpn_is_auth_required (some lines) = any (λ line. asks_password (strip line)) lines
