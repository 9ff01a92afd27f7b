-- ===== src/Base/Words.antt =====
-- A line that is printed from its words is read back as those words.
use mathlib.Core.List.{
  reverse, reverse-append, reverse-cons, reverse-reverse, append_assoc, append-nil,
}
use Prim.Native.Nat.{ℕ}
use mathlib.Core.Path.{◌≡◌, refl, sym, ap, ◌∙◌}
use mathlib.Core.Bool.{false}
use mathlib.Core.List.{List, [], ◌∷◌, ◌++◌}
use e_ovpn_pro.Base.Lists.{All, All-append}
use e_ovpn_pro.Base.Strings.{Text, is_space, strip_left, strip, push_word, words_from, split_words}

abbrev pub NoSpace : Text → Type 0
NoSpace = All (λ a. is_space a ≡ false)

-- a text without spaces that is not empty
abbrev pub IsWord : Text → Type 0
IsWord [] = ⊥
IsWord (c ∷ w) = NoSpace (c ∷ w)

-- the words with one space between them
abbrev pub join : List Text → Text
join [] = []
join (w ∷ []) = w
join (w ∷ v ∷ ws) = w ++ 32 ∷ join (v ∷ ws)

words_of_word :
    (acc w s : Text) → NoSpace w → words_from acc (w ++ s) ≡ words_from (reverse w ++ acc) s
unfolding words_from
words_of_word acc [] s h = refl
words_of_word acc (c ∷ w) s h =
    rw (h.0, reverse-append (c ∷ []) w, append_assoc (reverse w) (c ∷ []) acc)
      (words_of_word (c ∷ acc) w s h.1)

NoSpace-reverse : (w : Text) → NoSpace w → NoSpace (reverse w)
NoSpace-reverse [] h = tt
NoSpace-reverse (c ∷ w) h =
    rw (reverse-cons c w)
      (All-append (λ a. is_space a ≡ false) (reverse w) (c ∷ []) (NoSpace-reverse w h.1) (h.0, tt))

IsWord-snoc : (w : Text) (c : ℕ) → NoSpace w → is_space c ≡ false → IsWord (w ++ c ∷ [])
IsWord-snoc [] c h e = (e, tt)
IsWord-snoc (b ∷ w) c h e = (h.0, All-append (λ a. is_space a ≡ false) w (c ∷ []) h.1 (e, tt))

reverse-IsWord : (w : Text) → IsWord w → IsWord (reverse w)
reverse-IsWord [] h = elim h [ ]
reverse-IsWord (c ∷ w) h =
    rw (reverse-cons c w) (IsWord-snoc (reverse w) c (NoSpace-reverse w h.1) h.0)

push_word-IsWord : (w : Text) (ws : List Text) → IsWord w → push_word w ws ≡ reverse w ∷ ws
push_word-IsWord [] ws h = elim h [ ]
push_word-IsWord (c ∷ w) ws h = refl

push_word-reverse : (w : Text) (ws : List Text) → IsWord w → push_word (reverse w) ws ≡ w ∷ ws
push_word-reverse w ws h =
    push_word-IsWord (reverse w) ws (reverse-IsWord w h)
    ∙ ap (λ (v : Text). v ∷ ws) (reverse-reverse w)

word-NoSpace : (w : Text) → IsWord w → NoSpace w
word-NoSpace [] h = tt
word-NoSpace (c ∷ w) h = h

first_word : (w s : Text) → IsWord w → words_from [] (w ++ 32 ∷ s) ≡ w ∷ words_from [] s
first_word w s h =
    words_of_word [] w (32 ∷ s) (word-NoSpace w h)
    ∙ ap (λ (v : Text). words_from v (32 ∷ s)) (append-nil (reverse w))
    ∙ unfold words_from is_space in push_word-reverse w (words_from [] s) h

last_word : (w : Text) → IsWord w → words_from [] w ≡ w ∷ []
last_word w h =
    ap (words_from []) (sym (append-nil w))
    ∙ words_of_word [] w [] (word-NoSpace w h)
    ∙ ap (λ (v : Text). words_from v []) (append-nil (reverse w))
    ∙ unfold words_from in push_word-reverse w [] h

pub split_words-join : (ws : List Text) → All IsWord ws → split_words (join ws) ≡ ws
unfolding split_words
split_words-join [] h = unfold words_from in refl
split_words-join (w ∷ []) h = last_word w h.0
split_words-join (w ∷ v ∷ ws) h =
    first_word w (join (v ∷ ws)) h.0
    ∙ ap (λ (vs : List Text). w ∷ vs) (split_words-join (v ∷ ws) h.1)

-- a text whose first character is no space
abbrev Starts : Text → Type 0
Starts [] = ⊥
Starts (c ∷ s) = is_space c ≡ false

Starts-append : (s t : Text) → Starts s → Starts (s ++ t)
Starts-append [] t h = elim h [ ]
Starts-append (c ∷ s) t h = h

strip_left-Starts : (s : Text) → Starts s → strip_left s ≡ s
unfolding strip_left
strip_left-Starts [] h = elim h [ ]
strip_left-Starts (c ∷ s) h = rw h refl

word-Starts : (w : Text) → IsWord w → Starts w
word-Starts [] h = elim h [ ]
word-Starts (c ∷ w) h = h.0

join-Starts : (w : Text) (ws : List Text) → All IsWord (w ∷ ws) → Starts (join (w ∷ ws))
join-Starts w [] h = word-Starts w h.0
join-Starts w (v ∷ ws) h = Starts-append w (32 ∷ join (v ∷ ws)) (word-Starts w h.0)

reverse-join-Starts :
    (w : Text) (ws : List Text) → All IsWord (w ∷ ws) → Starts (reverse (join (w ∷ ws)))
reverse-join-Starts w [] h = word-Starts (reverse w) (reverse-IsWord w h.0)
reverse-join-Starts w (v ∷ ws) h =
    rw (reverse-append w (32 ∷ join (v ∷ ws)), reverse-cons 32 (join (v ∷ ws)))
      (Starts-append (reverse (join (v ∷ ws)) ++ 32 ∷ []) (reverse w)
        (Starts-append (reverse (join (v ∷ ws))) (32 ∷ []) (reverse-join-Starts v ws h.1)))

pub strip-join :
    (w : Text) (ws : List Text) → All IsWord (w ∷ ws) → strip (join (w ∷ ws)) ≡ join (w ∷ ws)
unfolding strip
strip-join w ws h =
    ap (λ (s : Text). reverse (strip_left (reverse s)))
      (strip_left-Starts (join (w ∷ ws)) (join-Starts w ws h))
    ∙ ap (λ (s : Text). reverse s)
        (strip_left-Starts (reverse (join (w ∷ ws))) (reverse-join-Starts w ws h))
    ∙ reverse-reverse (join (w ∷ ws))
