-- ===== src/Base/Numbers.antt =====
-- Numbers printed in decimal are read back.
use Prim.Native.Nat.{ℕ, zero, suc, ◌+◌, ◌-◌, ◌*◌, ◌/◌, ◌%◌, ◌<◌, ◌≤◌}
use mathlib.Core.Path.{◌≡◌, refl}
use mathlib.Core.Bool.{true, false}
use mathlib.Core.List.{[], ◌∷◌, ◌++◌}
use native.Mathlib.Omega.{arith}
use mathlib.Core.Logic.{◌≢◌, inl, inr}
use e_ovpn_pro.Base.Tests.{ltb, Bool-cases, if◌then◌else◌}
use e_ovpn_pro.Base.Lists.{All, All-append, All-map}
use e_ovpn_pro.Base.Strings.{Text, is_space, digits_only, all_digits, number_from, read_number}
use e_ovpn_pro.Base.Words.{IsWord}

-- the digits of a number, with fuel
digits : ℕ → ℕ → Text
digits zero n = []
digits (suc f) n =
    let more = digits f (n / 10) ++ (b'0' + n % 10) ∷ [] in
    if ltb n 10 then (b'0' + n) ∷ [] else more

-- `str(n)`: a number has at most as many digits as its successor counts.
unfoldable pub print_number : ℕ → Text
unfolding digits
print_number n = digits (suc n) n

number_from-append : (k : ℕ) (s t : Text) → number_from k (s ++ t) ≡ number_from (number_from k s) t
unfolding number_from
number_from-append k [] t = refl
number_from-append k (c ∷ s) t = number_from-append (k * 10 + (c - b'0')) s t

digits_value : (f n : ℕ) → n < f → number_from 0 (digits f n) ≡ n
unfolding digits
digits_value zero n h = elim h [ ]
digits_value (suc f) n h = elim (Bool-cases (ltb n 10)) [
  | inl e ↦ rw e (unfold number_from in ground arith)
  | inr e ↦
      let smaller : n / 10 < f = ground arith in
      rw
        (
          e,
          number_from-append 0 (digits f (n / 10)) ((b'0' + n % 10) ∷ []),
          digits_value f (n / 10) smaller,
        )
        (unfold number_from in omega arith)
]

-- `int(str(n))` is `n`.
pub read_number-print_number : (n : ℕ) → read_number (print_number n) ≡ n
unfolding read_number print_number
read_number-print_number n = digits_value (suc n) n (omega arith)

abbrev IsDigit : ℕ → Type 0
IsDigit c = (b'0' ≤ c) × (c ≤ b'9')

All-digits : (f n : ℕ) → All IsDigit (digits f n)
unfolding digits
All-digits zero n = tt
All-digits (suc f) n = elim (Bool-cases (ltb n 10)) [
  | inl e ↦ rw e (ground arith)
  | inr e ↦ rw e (
      All-append IsDigit (digits f (n / 10)) ((b'0' + n % 10) ∷ []) (All-digits f (n / 10))
        (omega arith))
]

digits_only-IsDigit : (s : Text) → All IsDigit s → digits_only s ≡ true
digits_only-IsDigit [] h = refl
digits_only-IsDigit (c ∷ s) h = ground (arith, digits_only-IsDigit s)

all_digits-nonempty : (s : Text) → s ≢ [] → All IsDigit s → all_digits s ≡ true
unfolding all_digits
all_digits-nonempty [] some_digit h = absurd (some_digit refl)
all_digits-nonempty (c ∷ s) some_digit h = digits_only-IsDigit (c ∷ s) h

IsWord-nonempty : (s : Text) → s ≢ [] → All IsDigit s → IsWord s
IsWord-nonempty [] some_digit h = absurd (some_digit refl)
IsWord-nonempty (c ∷ s) some_digit h = All-map (λ a k. no_space a k) (c ∷ s) h
  where
    no_space : (a : ℕ) → IsDigit a → is_space a ≡ false
    no_space a k = unfold is_space in ground arith

append-ne-nil : (s : Text) (c : ℕ) → s ++ c ∷ [] ≢ []
append-ne-nil [] c = λ e. cc
append-ne-nil (b ∷ s) c = λ e. cc

digits-ne-nil : (f n : ℕ) → digits (suc f) n ≢ []
unfolding digits
digits-ne-nil f n = elim (Bool-cases (ltb n 10)) [
  | inl e ↦ rw e (λ g. cc)
  | inr e ↦ rw e (append-ne-nil (digits f (n / 10)) (b'0' + n % 10))
]

pub all_digits-print_number : (n : ℕ) → all_digits (print_number n) ≡ true
unfolding print_number
all_digits-print_number n =
    all_digits-nonempty (digits (suc n) n) (digits-ne-nil n n) (All-digits (suc n) n)

pub print_number-IsWord : (n : ℕ) → IsWord (print_number n)
unfolding print_number
print_number-IsWord n =
    IsWord-nonempty (digits (suc n) n) (digits-ne-nil n n) (All-digits (suc n) n)
