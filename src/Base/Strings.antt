-- ===== src/Base/Strings.antt =====
-- Texts as lists of code points, with the `str` methods that the program calls, on ASCII.
use Prim.Native.Char.{code}
use Prim.Native.String.{String}
use Prim.Native.Nat.{ℕ, ◌+◌, ◌-◌, ◌*◌}
use mathlib.Core.Path.{◌≡◌, refl}
use mathlib.Core.Logic.{◌↔◌}
use mathlib.Core.Bool.{Bool, true, false, ◌&&◌, ◌||◌}
use mathlib.Core.List.{List, [], ◌∷◌, ◌++◌, map, reverse}
use native.Mathlib.Omega.{arith}
use e_ovpn_pro.Base.Tests.{leb, ◌==◌, if◌then◌else◌}

abbrev pub Text : Type 0
Text = List ℕ

abbrev pub codes : String → Text
codes String.[] = []
codes (String.◌∷◌ c s) = code c ∷ codes s

unfoldable pub same : Text → Text → Bool
same [] [] = true
same (a ∷ s) (b ∷ t) = a == b && same s t
same _ _ = false

pub same_refl : (s : Text) → same s s ≡ true
unfolding same
same_refl [] = refl
same_refl (a ∷ s) = ground (arith, same_refl s)

same→eq : (s t : Text) → same s t ≡ true → s ≡ t
unfolding same
same→eq [] [] h = refl
same→eq [] (b ∷ t) h = cc
same→eq (a ∷ s) [] h = cc
same→eq (a ∷ s) (b ∷ t) h = ground (arith, same→eq s t)

-- `a == b` on texts is equality.
pub same_iff : (s t : Text) → (same s t ≡ true) ↔ (s ≡ t)
same_iff s t = (same→eq s t, λ e. rw e (same_refl t))

-- `str.lower`
unfoldable pub lower_char : ℕ → ℕ
lower_char c = if leb b'A' c && leb c b'Z' then c + 32 else c

unfoldable pub lower : Text → Text
unfolding lower_char
lower = map lower_char

unfoldable pub is_prefix : Text → Text → Bool
is_prefix [] s = true
is_prefix (a ∷ p) [] = false
is_prefix (a ∷ p) (b ∷ s) = a == b && is_prefix p s

-- `p in s`
unfoldable pub contains : Text → Text → Bool
unfolding is_prefix
contains p [] = is_prefix p []
contains p (b ∷ s) = is_prefix p (b ∷ s) || contains p s

unfoldable pub starts_with : Text → Text → Bool
unfolding is_prefix
starts_with s p = is_prefix p s

unfoldable pub ends_with : Text → Text → Bool
unfolding is_prefix
ends_with s p = is_prefix (reverse p) (reverse s)

pub is_prefix-append : (p s : Text) → is_prefix p (p ++ s) ≡ true
unfolding is_prefix
is_prefix-append [] s = refl
is_prefix-append (a ∷ p) s = ground (arith, is_prefix-append p s)

contains_of_prefix : (p s : Text) → is_prefix p s ≡ true → contains p s ≡ true
unfolding contains
contains_of_prefix p [] h = h
contains_of_prefix p (b ∷ s) h = ground arith

contains_later : (b : ℕ) (p s : Text) → contains p s ≡ true → contains p (b ∷ s) ≡ true
unfolding contains
contains_later b p s h = ground arith

-- A text that holds `p` at any place contains it.
pub contains-append : (r p s : Text) → contains p (r ++ p ++ s) ≡ true
contains-append [] p s = contains_of_prefix p (p ++ s) (is_prefix-append p s)
contains-append (b ∷ r) p s = contains_later b p (r ++ p ++ s) (contains-append r p s)

-- space, tab, line feed, vertical tab, form feed, carriage return and the four separators
unfoldable pub is_space : ℕ → Bool
is_space c = c == 32 || (leb 9 c && leb c 13) || (leb 28 c && leb c 31)

unfoldable pub strip_left : Text → Text
unfolding is_space
strip_left [] = []
strip_left (c ∷ s) = let rest = strip_left s in if is_space c then rest else c ∷ s

-- `str.strip`
unfoldable pub strip : Text → Text
unfolding strip_left
strip s = reverse (strip_left (reverse (strip_left s)))

-- The word being read, reversed, is put before the words after it; an empty word is no word.
abbrev pub push_word : Text → List Text → List Text
push_word [] words = words
push_word (c ∷ w) words = reverse (c ∷ w) ∷ words

-- `str.split()`: the maximal runs of characters that are no spaces
unfoldable pub words_from : Text → Text → List Text
unfolding is_space
words_from word [] = push_word word []
words_from word (c ∷ s) =
    let here = words_from [] s in
    let on = words_from (c ∷ word) s in if is_space c then push_word word here else on

unfoldable pub split_words : Text → List Text
unfolding words_from
split_words = words_from []

abbrev pub digits_only : Text → Bool
digits_only [] = true
digits_only (c ∷ s) = leb b'0' c && leb c b'9' && digits_only s

-- `str.isdigit`
unfoldable pub all_digits : Text → Bool
all_digits [] = false
all_digits (c ∷ s) = digits_only (c ∷ s)

unfoldable pub number_from : ℕ → Text → ℕ
number_from n [] = n
number_from n (c ∷ s) = number_from (n * 10 + (c - b'0')) s

-- `int(s)` of a text of digits
unfoldable pub read_number : Text → ℕ
unfolding number_from
read_number = number_from 0
