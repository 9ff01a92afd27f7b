-- ===== src/Config/Audit/Reports.antt =====
-- The report of an audit: which directives it names, and in what order.
use e_ovpn_pro.Base.{
  Bool, true, false, not, ◌&&◌, ◌||◌, codes, lower, same_refl, Option, none, some, List, [], ◌∷◌,
  Text, same, same_iff, strip, any, All, All-map, Sorted, ◌≡◌, refl, ap, ◌∙◌, arith, Bool-cases,
  inl, inr,
}
use e_ovpn_pro.Config.Parser.{File, line_words}
use e_ovpn_pro.Config.Audit.{
  is_dangerous, reported, add, found_in, text_lt, insert_text, sort_texts, audit_ovpn_content,
}

abbrev is_key : Text → Option Text → Bool
is_key key none = false
is_key key (some k) = same key k

-- a line is reported for `key`
abbrev pub reports : Text → Text → Bool
reports key raw = is_key key (reported (line_words (strip raw)))

any-insert :
    (k x : Text) (ys : List Text) → any (same k) (insert_text x ys) ≡ (same k x || any (same k) ys)
unfolding insert_text
any-insert k x [] = refl
any-insert k x (y ∷ ys) = ground (arith, any-insert k x ys)

pub any-sort : (k : Text) (xs : List Text) → any (same k) (sort_texts xs) ≡ any (same k) xs
unfolding sort_texts
any-sort k [] = refl
any-sort k (x ∷ xs) = any-insert k x (sort_texts xs) ∙ ap (λ b. same k x || b) (any-sort k xs)

pub text_lt_irrefl : (s : Text) → text_lt s s ≡ false
unfolding text_lt
text_lt_irrefl [] = refl
text_lt_irrefl (a ∷ s) = ground (arith, text_lt_irrefl s)

pub text_lt_total : (s t : Text) → text_lt s t ≡ false → same s t ≡ false → text_lt t s ≡ true
unfolding text_lt same
text_lt_total [] [] h g = cc
text_lt_total [] (b ∷ t) h g = cc
text_lt_total (a ∷ s) [] h g = refl
text_lt_total (a ∷ s) (b ∷ t) h g = ground (arith, text_lt_total s t)

pub text_lt_trans : (s t u : Text) → text_lt s t ≡ true → text_lt t u ≡ true → text_lt s u ≡ true
unfolding text_lt
text_lt_trans s t [] h g = cc
text_lt_trans s [] (c ∷ u) h g = cc
text_lt_trans [] (b ∷ t) (c ∷ u) h g = refl
text_lt_trans (a ∷ s) (b ∷ t) (c ∷ u) h g = ground (arith, text_lt_trans s t u)

abbrev TextLt : Text → Text → Type 0
TextLt s t = text_lt s t ≡ true

abbrev Differs : Text → Text → Type 0
Differs s t = same s t ≡ false

All-insert :
    (P : Text → Type 0) (x : Text) (ys : List Text) → P x → All P ys → All P (insert_text x ys)
unfolding insert_text
All-insert P x [] h hs = (h, tt)
All-insert P x (y ∷ ys) h hs = elim (Bool-cases (text_lt y x)) [
  | inl e ↦ rw e (hs.0, All-insert P x ys h hs.1)
  | inr e ↦ rw e (h, hs)
]

All-sort : (P : Text → Type 0) (xs : List Text) → All P xs → All P (sort_texts xs)
unfolding sort_texts
All-sort P [] h = tt
All-sort P (x ∷ xs) h = All-insert P x (sort_texts xs) h.0 (All-sort P xs h.1)

same_sym : (s t : Text) → same s t ≡ false → same t s ≡ false
same_sym s t h = ground (arith, same_iff s t, same_iff t s)

insert-Sorted :
    (x : Text) (ys : List Text)
    → All (Differs x) ys
    → Sorted TextLt ys
    → Sorted TextLt (insert_text x ys)
unfolding insert_text
insert-Sorted x [] h hs = (tt, tt)
insert-Sorted x (y ∷ ys) h hs = elim (Bool-cases (text_lt y x)) [
  | inl e ↦ rw e (All-insert (TextLt y) x ys e hs.0, insert-Sorted x ys h.1 hs.1)
  | inr e ↦
      let below : TextLt x y = text_lt_total y x e (same_sym x y h.0) in
      rw e ((below, All-map (λ z g. text_lt_trans x y z below g) ys hs.0), hs)
]

sort-Sorted : (xs : List Text) → Sorted Differs xs → Sorted TextLt (sort_texts xs)
unfolding sort_texts
sort-Sorted [] h = tt
sort-Sorted (x ∷ xs) h =
    insert-Sorted x (sort_texts xs) (All-sort (Differs x) xs h.0) (sort-Sorted xs h.1)

Differs-of-any : (x : Text) (ys : List Text) → any (same x) ys ≡ false → All (Differs x) ys
Differs-of-any x [] h = tt
Differs-of-any x (y ∷ ys) h = (ground arith, Differs-of-any x ys (ground arith))

add-Distinct :
    (o : Option Text) (found : List Text) → Sorted Differs found → Sorted Differs (add o found)
unfolding add
add-Distinct none found h = h
add-Distinct (some k) found h = elim (Bool-cases (any (same k) found)) [
  | inl e ↦ rw e h
  | inr e ↦ rw e (Differs-of-any k found e, h)
]

found_in-Distinct :
    (found lines : List Text) → Sorted Differs found → Sorted Differs (found_in found lines)
unfolding found_in
found_in-Distinct found [] h = h
found_in-Distinct found (raw ∷ lines) h =
    found_in-Distinct (add (reported (line_words (strip raw))) found) lines
      (add-Distinct (reported (line_words (strip raw))) found h)

any-known :
    (k j : Text) (found : List Text)
    → any (same j) found ≡ true
    → any (same k) found ≡ (any (same k) found || same k j)
any-known k j found e = elim (Bool-cases (same k j)) [
  | inl g ↦ rw ((same_iff k j).0 g, e) refl
  | inr g ↦ rw g (ground arith)
]

any-add :
    (k : Text) (o : Option Text) (found : List Text)
    → any (same k) (add o found) ≡ (any (same k) found || is_key k o)
unfolding add
any-add k none found = ground arith
any-add k (some j) found = elim (Bool-cases (any (same j) found)) [
  | inl e ↦ rw e (any-known k j found e)
  | inr e ↦ rw e (ground arith)
]

any-found_in :
    (k : Text) (found lines : List Text)
    → any (same k) (found_in found lines) ≡ (any (same k) found || any (reports k) lines)
unfolding found_in
any-found_in k found [] = ground arith
any-found_in k found (raw ∷ lines) = ground (
  arith,
  any-add k (reported (line_words (strip raw))) found,
  any-found_in k (add (reported (line_words (strip raw))) found) lines,
)

-- the report names a directive exactly when some line is reported for it
pub audit-reports :
    (key : Text) (lines : List Text)
    → any (same key) (audit_ovpn_content (some lines)) ≡ any (reports key) lines
unfolding audit_ovpn_content
audit-reports key lines = any-sort key (found_in [] lines) ∙ any-found_in key [] lines

-- the words of a line that is to be reported for `key`: the first one is that directive in any case,
-- and `auth-user-pass` has a word after it
abbrev pub has_directive : Text → List Text → Bool
has_directive key [] = false
has_directive key (word ∷ []) =
    same key (lower word) && is_dangerous key && not (same key (codes "auth-user-pass"))
has_directive key (word ∷ _ ∷ _) = same key (lower word) && is_dangerous key

is_key-reported :
    (key : Text) (words : List Text) → is_key key (reported words) ≡ has_directive key words
unfolding reported
is_key-reported key [] = refl
is_key-reported key (word ∷ []) = elim (Bool-cases (same key (lower word))) [
  | inl e ↦ rw (← (same_iff key (lower word)).0 e) (ground (arith, same_refl key))
  | inr e ↦ ground arith
]
is_key-reported key (word ∷ other ∷ words) = elim (Bool-cases (same key (lower word))) [
  | inl e ↦ rw (← (same_iff key (lower word)).0 e) (ground (arith, same_refl key))
  | inr e ↦ ground arith
]

any-reports :
    (key : Text) (lines : List Text)
    → any (reports key) lines ≡ any (λ raw. has_directive key (line_words (strip raw))) lines
any-reports key [] = refl
any-reports key (raw ∷ lines) =
    ap (λ b. b || any (reports key) lines) (is_key-reported key (line_words (strip raw)))
    ∙ ap (λ b. has_directive key (line_words (strip raw)) || b) (any-reports key lines)

-- The report names a directive exactly when it is one of the dangerous ones and some line that is no
-- comment begins with it, in any case, where `auth-user-pass` needs a word after it.
pub audit_complete :
    (key : Text) (lines : List Text)
    → any (same key) (audit_ovpn_content (some lines))
      ≡ any (λ raw. has_directive key (line_words (strip raw))) lines
unfolding audit_ovpn_content
audit_complete key lines = audit-reports key lines ∙ any-reports key lines

-- The report is in the order of the texts, and names no directive twice.
pub audit-Sorted : (file : File) → Sorted (λ s t. text_lt s t ≡ true) (audit_ovpn_content file)
unfolding audit_ovpn_content
audit-Sorted none = tt
audit-Sorted (some lines) = sort-Sorted (found_in [] lines) (found_in-Distinct [] lines tt)
