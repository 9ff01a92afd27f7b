-- ===== src/Base/Lists.antt =====
-- Lists measured and indexed by native numbers, and predicates on all or some of the members.
use Prim.Native.Nat.{ℕ, zero, suc, ◌+◌, ◌≤◌, min}
use mathlib.Core.Path.{◌≡◌, refl, ap}
use mathlib.Core.Bool.{Bool, false, ◌||◌}
use mathlib.Core.List.{List, [], ◌∷◌, ◌++◌, map}
use mathlib.Core.Option.{Option, none, some}
use native.Mathlib.Omega.{arith}

module _ {ℓ} {A : Type ℓ} where
  abbrev pub length : List A → ℕ
  length [] = 0
  length (x ∷ xs) = suc (length xs)

  abbrev pub get_elem? : List A → ℕ → Option A
  get_elem? [] i = none
  get_elem? (x ∷ xs) zero = some x
  get_elem? (x ∷ xs) (suc i) = get_elem? xs i

  abbrev pub take : ℕ → List A → List A
  take zero xs = []
  take (suc n) [] = []
  take (suc n) (x ∷ xs) = x ∷ take n xs

  -- `f` applied to the member at an index; out of range nothing changes.
  abbrev pub modify_at : List A → ℕ → (A → A) → List A
  modify_at [] i f = []
  modify_at (x ∷ xs) zero f = f x ∷ xs
  modify_at (x ∷ xs) (suc i) f = x ∷ modify_at xs i f

  abbrev pub All {κ} : (A → Type κ) → List A → Type κ
  All P [] = Unit
  All P (x ∷ xs) = P x × All P xs

  abbrev pub any : (A → Bool) → List A → Bool
  any p [] = false
  any p (x ∷ xs) = p x || any p xs

module _ {ℓ} {A : Type ℓ} where
  pub length-append : (xs ys : List A) → length (xs ++ ys) ≡ length xs + length ys
  length-append [] ys = omega arith
  length-append (x ∷ xs) ys = omega (arith, length-append xs ys)

  pub length-take : (n : ℕ) (xs : List A) → length (take n xs) ≡ min n (length xs)
  length-take zero xs = omega arith
  length-take (suc n) [] = omega arith
  length-take (suc n) (x ∷ xs) = omega (arith, length-take n xs)

  pub length-modify_at : (xs : List A) (i : ℕ) (f : A → A) → length (modify_at xs i f) ≡ length xs
  length-modify_at [] i f = refl
  length-modify_at (x ∷ xs) zero f = refl
  length-modify_at (x ∷ xs) (suc i) f = ap suc (length-modify_at xs i f)

  pub All-append {κ} : (P : A → Type κ) (xs ys : List A) → All P xs → All P ys → All P (xs ++ ys)
  All-append P [] ys hx hy = hy
  All-append P (x ∷ xs) ys hx hy = (hx.0, All-append P xs ys hx.1 hy)

  pub All-take {κ} : (P : A → Type κ) (n : ℕ) (xs : List A) → All P xs → All P (take n xs)
  All-take P zero xs h = tt
  All-take P (suc n) [] h = tt
  All-take P (suc n) (x ∷ xs) h = (h.0, All-take P n xs h.1)

  pub All-map {κ λ₁} :
      {P : A → Type κ} {Q : A → Type λ₁} (f : (a : A) → P a → Q a) (xs : List A)
      → All P xs
      → All Q xs
  All-map f [] h = tt
  All-map f (x ∷ xs) h = (f x h.0, All-map f xs h.1)

  -- every earlier member is related to every later one
  abbrev pub Sorted {κ} : (A → A → Type κ) → List A → Type κ
  Sorted R [] = Unit
  Sorted R (x ∷ xs) = All (R x) xs × Sorted R xs

  pub Sorted-take {κ} :
      (R : A → A → Type κ) (n : ℕ) (xs : List A) → Sorted R xs → Sorted R (take n xs)
  Sorted-take R zero xs h = tt
  Sorted-take R (suc n) [] h = tt
  Sorted-take R (suc n) (x ∷ xs) h = (All-take (R x) n xs h.0, Sorted-take R n xs h.1)

  pub take_all : (n : ℕ) (xs : List A) → length xs ≤ n → take n xs ≡ xs
  take_all zero [] h = refl
  take_all zero (x ∷ xs) h = absurd (omega arith)
  take_all (suc n) [] h = refl
  take_all (suc n) (x ∷ xs) h = ap (◌∷◌ x) (take_all n xs (omega arith))

module _ {ℓ κ} {A : Type ℓ} {B : Type κ} where
  pub length-map : (f : A → B) (xs : List A) → length (map f xs) ≡ length xs
  length-map f [] = refl
  length-map f (x ∷ xs) = ap suc (length-map f xs)

  pub All-of-map {λ₁} :
      (P : B → Type λ₁) (f : A → B) (xs : List A) → All (λ a. P (f a)) xs → All P (map f xs)
  All-of-map P f [] h = tt
  All-of-map P f (x ∷ xs) h = (h.0, All-of-map P f xs h.1)

  pub Sorted-map {λ₁ μ} :
      (R : A → A → Type λ₁) (S : B → B → Type μ) (f : A → B)
      → ((a b : A) → R a b → S (f a) (f b))
      → (xs : List A) → Sorted R xs
      → Sorted S (map f xs)
  Sorted-map R S f g [] h = tt
  Sorted-map R S f g (x ∷ xs) h =
      (All-of-map (S (f x)) f xs (All-map (λ b. g x b) xs h.0), Sorted-map R S f g xs h.1)

  pub map-take : (f : A → B) (n : ℕ) (xs : List A) → map f (take n xs) ≡ take n (map f xs)
  map-take f zero xs = refl
  map-take f (suc n) [] = refl
  map-take f (suc n) (x ∷ xs) = ap (◌∷◌ (f x)) (map-take f n xs)

  pub map-nil : (f : A → B) (xs : List A) → map f xs ≡ [] → xs ≡ []
  map-nil f [] h = refl
  map-nil f (x ∷ xs) h = cc

module _ {ℓ} {A : Type ℓ} where
  pub take-nil : (n : ℕ) (xs : List A) → 1 ≤ n → take n xs ≡ [] → xs ≡ []
  take-nil zero xs h e = absurd (omega arith)
  take-nil (suc n) [] h e = refl
  take-nil (suc n) (x ∷ xs) h e = cc

  pub Sorted-of-All {κ μ} :
      (P : A → Type κ) (R : A → A → Type μ)
      → ((a b : A) → P a → P b → R a b)
      → (xs : List A) → All P xs
      → Sorted R xs
  Sorted-of-All P R f [] h = tt
  Sorted-of-All P R f (x ∷ xs) h = (All-map (λ b g. f x b h.0 g) xs h.1, Sorted-of-All P R f xs h.1)

  pub length-nil : (xs : List A) → length xs ≡ 0 → xs ≡ []
  length-nil [] h = refl
  length-nil (x ∷ xs) h = absurd (omega arith)

module _ {ℓ} {A : Type ℓ} where
  pub get_elem?-append :
      (xs : List A) (y : A) (ys : List A) → get_elem? (xs ++ y ∷ ys) (length xs) ≡ some y
  get_elem?-append [] y ys = refl
  get_elem?-append (x ∷ xs) y ys = get_elem?-append xs y ys

  pub get_elem?-append_next :
      (xs : List A) (y : A) (ys : List A)
      → get_elem? (xs ++ y ∷ ys) (suc (length xs)) ≡ get_elem? ys 0
  get_elem?-append_next [] y ys = refl
  get_elem?-append_next (x ∷ xs) y ys = get_elem?-append_next xs y ys
