-- ===== src/Otp.antt =====
-- The boxes of the one-time code, eovpn/dialogs/otp.py. A box holds what its entry shows; the limit
-- of one character on an entry is the toolkit's, and a longer text is what a paste would give. A
-- character is numeric where it is one of the ASCII digits.
use e_ovpn_pro.Base.{
  ℕ, zero, suc, Bool, true, false, ◌&&◌, List, [], ◌∷◌, ◌++◌, Text, length, modify_at, take, leb,
  ◌==◌, all_digits, if◌then◌else◌, All, All-take, ◌≡◌, refl, sym, ◌∙◌, arith, Bool-cases, inl, inr,
}

abbrev pub otp_length : ℕ
otp_length = 6

pub record OtpInputWindow : Type 0 where
  pub boxes : List Text
  pub submit_sensitive : Bool

-- as the window opens
abbrev pub new_window : OtpInputWindow
new_window = record { boxes = [] ∷ [] ∷ [] ∷ [] ∷ [] ∷ [] ∷ []; submit_sensitive = false }

abbrev pub one_of : Text → Text
one_of (c ∷ []) = c ∷ []
one_of _ = []

-- `gather_otp`: the texts of one character, in their order
unfoldable pub gather_otp : List Text → Text
gather_otp [] = []
gather_otp (box ∷ boxes) = one_of box ++ gather_otp boxes

-- `_sync_submit_state`
unfoldable pub sync_submit_state : OtpInputWindow → OtpInputWindow
unfolding gather_otp
sync_submit_state w = record w { submit_sensitive = length (gather_otp w.boxes) == otp_length }

abbrev pub is_numeric_char : ℕ → Bool
is_numeric_char c = leb b'0' c && leb c b'9'

-- `[ch for ch in token if ch.isnumeric()]`
unfoldable pub digits_of : Text → Text
digits_of [] = []
digits_of (c ∷ token) = let rest = digits_of token in if is_numeric_char c then c ∷ rest else rest

-- one digit for each box, then none
unfoldable pub fill : ℕ → Text → List Text
fill zero digits = []
fill (suc n) [] = [] ∷ fill n []
fill (suc n) (c ∷ digits) = (c ∷ []) ∷ fill n digits

-- `_distribute_pasted`
unfoldable pub distribute_pasted : Text → OtpInputWindow → OtpInputWindow
unfolding sync_submit_state digits_of fill
distribute_pasted token w =
    sync_submit_state (record w { boxes = fill otp_length (take otp_length (digits_of token)) })

abbrev pub with_box : ℕ → Text → OtpInputWindow → OtpInputWindow
with_box i text w = record w { boxes = modify_at w.boxes i (λ _. text) }

-- `on_entry_changed`, for the text that the user has made of a box
unfoldable pub on_entry_changed : ℕ → Text → OtpInputWindow → OtpInputWindow
unfolding distribute_pasted
on_entry_changed i [] w = sync_submit_state (with_box i [] w)
on_entry_changed i (c ∷ []) w =
    if is_numeric_char c
    then sync_submit_state (with_box i (c ∷ []) w)
    else sync_submit_state (with_box i [] w)
on_entry_changed i (c ∷ d ∷ text) w =
    if all_digits (c ∷ d ∷ text)
    then distribute_pasted (c ∷ d ∷ text) w
    else sync_submit_state (with_box i [] w)

unfoldable pub changes : List (ℕ × Text) → OtpInputWindow → OtpInputWindow
unfolding on_entry_changed
changes [] w = w
changes ((i, text) ∷ more) w = changes more (on_entry_changed i text w)

abbrev pub IsBox : Text → Type 0
IsBox [] = Unit
IsBox (c ∷ []) = is_numeric_char c ≡ true
IsBox _ = ⊥

-- Each box is empty or holds a digit, and the button can be pressed exactly with six digits.
unfoldable pub IsSynced : OtpInputWindow → Type 0
unfolding gather_otp
IsSynced w = All IsBox w.boxes × (w.submit_sensitive ≡ (length (gather_otp w.boxes) == otp_length))

All-modify_at :
    (boxes : List Text) (i : ℕ) (text : Text)
    → IsBox text
    → All IsBox boxes
    → All IsBox (modify_at boxes i (λ _. text))
All-modify_at [] i text h hs = tt
All-modify_at (b ∷ boxes) zero text h (h', hs) = (h, hs)
All-modify_at (b ∷ boxes) (suc i) text h (h', hs) = (h', All-modify_at boxes i text h hs)

with_box-IsSynced :
    (i : ℕ) (text : Text) (w : OtpInputWindow)
    → IsBox text
    → IsSynced w
    → IsSynced (sync_submit_state (with_box i text w))
unfolding sync_submit_state IsSynced
with_box-IsSynced i text w h (hs, s) = (All-modify_at w.boxes i text h hs, refl)

digits_of-IsNumeric : (token : Text) → All (λ c. is_numeric_char c ≡ true) (digits_of token)
unfolding digits_of
digits_of-IsNumeric [] = tt
digits_of-IsNumeric (c ∷ token) = elim (Bool-cases (is_numeric_char c)) [
  | inl e ↦ rw e (e, digits_of-IsNumeric token)
  | inr e ↦ rw e (digits_of-IsNumeric token)
]

fill-IsBox :
    (n : ℕ) (digits : Text) → All (λ c. is_numeric_char c ≡ true) digits → All IsBox (fill n digits)
unfolding fill
fill-IsBox zero digits h = tt
fill-IsBox (suc n) [] h = (tt, fill-IsBox n [] tt)
fill-IsBox (suc n) (c ∷ digits) (h, hs) = (h, fill-IsBox n digits hs)

if-IsSynced :
    (b : Bool) (x y : OtpInputWindow)
    → (b ≡ true → IsSynced x)
    → (b ≡ false → IsSynced y)
    → IsSynced (if b then x else y)
if-IsSynced true x y h h' = h refl
if-IsSynced false x y h h' = h' refl

on_entry_changed-IsSynced :
    (i : ℕ) (text : Text) (w : OtpInputWindow) → IsSynced w → IsSynced (on_entry_changed i text w)
unfolding on_entry_changed distribute_pasted sync_submit_state IsSynced
on_entry_changed-IsSynced i [] w h = with_box-IsSynced i [] w tt h
on_entry_changed-IsSynced i (c ∷ []) w h =
    if-IsSynced (is_numeric_char c) (sync_submit_state (with_box i (c ∷ []) w))
      (sync_submit_state (with_box i [] w)) (λ e. with_box-IsSynced i (c ∷ []) w e h)
      (λ e. with_box-IsSynced i [] w tt h)
on_entry_changed-IsSynced i (c ∷ d ∷ text) w h =
    if-IsSynced (all_digits (c ∷ d ∷ text)) (distribute_pasted (c ∷ d ∷ text) w)
      (sync_submit_state (with_box i [] w)) (λ e. pasted (c ∷ d ∷ text))
      (λ e. with_box-IsSynced i [] w tt h)
  where
    pasted : (token : Text) → IsSynced (distribute_pasted token w)
    pasted token = (
      fill-IsBox 6 (take 6 (digits_of token)) (
          All-take (λ c. is_numeric_char c ≡ true) 6 (digits_of token) (digits_of-IsNumeric token)),
      refl,
    )

changes-IsSynced :
    (ms : List (ℕ × Text)) (w : OtpInputWindow) → IsSynced w → IsSynced (changes ms w)
unfolding changes
changes-IsSynced [] w h = h
changes-IsSynced ((i, text) ∷ ms) w h =
    changes-IsSynced ms (on_entry_changed i text w) (on_entry_changed-IsSynced i text w h)

gathered :
    (boxes : List Text) → All IsBox boxes → All (λ c. is_numeric_char c ≡ true) (gather_otp boxes)
unfolding gather_otp
gathered [] h = tt
gathered ([] ∷ boxes) (h, hs) = gathered boxes hs
gathered ((c ∷ []) ∷ boxes) (h, hs) = (h, gathered boxes hs)
gathered ((c ∷ d ∷ text) ∷ boxes) (h, hs) = elim h [ ]

-- Whatever has been typed and pasted into the boxes, the button can be pressed only when the code that
-- it sends has six characters, and each of them is a digit.
pub submitted_code :
    (ms : List (ℕ × Text))
    → (changes ms new_window).submit_sensitive ≡ true
    → (length (gather_otp (changes ms new_window).boxes) ≡ otp_length)
      × All (λ c. is_numeric_char c ≡ true) (gather_otp (changes ms new_window).boxes)
unfolding IsSynced gather_otp
submitted_code ms pressed =
    let (boxes, synced) =
      changes-IsSynced ms new_window ((tt, (tt, (tt, (tt, (tt, (tt, tt)))))), refl) in
    (six (sym synced ∙ pressed), gathered (changes ms new_window).boxes boxes)
  where
    six : {n : ℕ} → (n == 6) ≡ true → n ≡ 6
    six h = ground arith
