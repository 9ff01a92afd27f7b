-- ===== src/AutoConnect/Queue/Chosen.antt =====
-- The candidates of the queue: the servers that the filter keeps, in order of latency.
use mathlib.Core.List.{Perm}
use mathlib.Core.List.Perm
use e_ovpn_pro.Base.{
  ◌∙◌, ℕ, suc, Bool, true, false, ◌&&◌, Option, none, some, List, [], ◌∷◌, Text, All, Sorted,
  All-map, length, ◌≡◌, refl, ap, sym, inl, inr, arith, Bool-cases, if◌then◌else◌,
}
use e_ovpn_pro.AutoConnect.Queue.{
  Latencies, latency, Candidate, key_le, sort_by_latency, eligible_from, known_dead, has_any_rtt,
  or_files, names_of, candidates,
}
use e_ovpn_pro.AutoConnect.Queue.Sorting.{
  rtt_le, KeyLe, length-sort, sort-nil, sort_by_latency-Sorted, sort_by_latency-Perm, All-unsort,
}

-- The specification of the filter: the names that are not skipped, in the visual order.
unfoldable pub kept : Bool → Latencies → List Text → List Text
kept skips d [] = []
kept skips d (name ∷ names) =
    let later = kept skips d names in if skips && known_dead d name then later else name ∷ later

-- `skip_unreachable and has_any_rtt`
abbrev pub skips : Bool → Latencies → Bool
skips skip_unreachable d = skip_unreachable && has_any_rtt d

module _ (d : Latencies) where
  pub names-eligible :
      (b : Bool) (p : ℕ) (files : List Text) → names_of (eligible_from b d p files) ≡ kept b d files
  unfolding names_of eligible_from kept
  names-eligible b p [] = refl
  names-eligible b p (x ∷ files) = ground (arith, names-eligible b (suc p) files)

  -- what is not eligible is known to be dead
  pub eligible-or-dead :
      (P : Text → Type 0) (b : Bool) (p : ℕ) (files : List Text)
      → All (λ c. P c.1) (eligible_from b d p files)
      → ((x : Text) → known_dead d x ≡ true → P x)
      → All P files
  unfolding eligible_from
  eligible-or-dead P b p [] h dead = tt
  eligible-or-dead P b p (x ∷ files) h dead = elim (Bool-cases (b && known_dead d x)) [
    | inl e ↦
        let h' : All (λ c. P c.1) (eligible_from b d (suc p) files) = rw e at h in
        (dead x (ground arith), eligible-or-dead P b (suc p) files h' dead)
    | inr e ↦
        let h' : P x × All (λ c. P c.1) (eligible_from b d (suc p) files) = rw e at h in
        (h'.0, eligible-or-dead P b (suc p) files h'.1 dead)
  ]

  pub latency_of_dead : (x : Text) → known_dead d x ≡ true → latency d x ≡ none
  unfolding known_dead latency
  latency_of_dead x h = ground arith

  pub rtt_le-none : (r : Option ℕ) → rtt_le r none ≡ true
  unfolding rtt_le
  rtt_le-none none = refl
  rtt_le-none (some r) = refl

  pub rtt_of_key : (a b : Candidate) → KeyLe d a b → rtt_le (latency d a.1) (latency d b.1) ≡ true
  unfolding rtt_le key_le
  rtt_of_key (i, x) (j, y) h = ground arith

  pub kept_all : (files : List Text) → kept false d files ≡ files
  unfolding kept
  kept_all [] = refl
  kept_all (x ∷ files) = ap (◌∷◌ x) (kept_all files)

  pub eligible-alive :
      (p : ℕ) (files : List Text)
      → All (λ c. known_dead d c.1 ≡ false) (eligible_from true d p files)
  unfolding eligible_from
  eligible-alive p [] = tt
  eligible-alive p (x ∷ files) = elim (Bool-cases (known_dead d x)) [
    | inl e ↦ rw e (eligible-alive (suc p) files)
    | inr e ↦ rw e (e, eligible-alive (suc p) files)
  ]

  pub KeyLe-refl : (c : Candidate) → KeyLe d c c
  unfolding key_le
  KeyLe-refl c = ground arith

pub or_files_cases :
    (P : List Text → Type 0) (xs ys : List Text) → (xs ≡ [] → P ys) → P xs → P (or_files xs ys)
or_files_cases P [] ys empty other = empty refl
or_files_cases P (x ∷ xs) ys empty other = other

pub or_files_same : (xs : List Text) → or_files xs xs ≡ xs
or_files_same [] = refl
or_files_same (x ∷ xs) = refl

and_false : (b : Bool) → (b && false) ≡ false
and_false b = ground arith

-- What the candidates are, in the two cases of the code.
module _ (d : Latencies) (b : Bool) (files : List Text) where
  abbrev pub eligible : List Candidate
  eligible = eligible_from (skips b d) d 0 files

  pub measured : has_any_rtt d ≡ true → candidates d b files ≡ sort_by_latency d eligible
  unfolding candidates
  measured h = rw h

  pub unmeasured : has_any_rtt d ≡ false → names_of (candidates d b files) ≡ files
  unfolding candidates
  unmeasured h = rw (h, and_false b) (names-eligible d false 0 files ∙ kept_all d files)

  pub candidates-Perm : Perm (candidates d b files) eligible
  unfolding candidates
  candidates-Perm = elim (Bool-cases (has_any_rtt d)) [
    | inl h ↦ rw h (sort_by_latency-Perm d _)
    | inr h ↦ rw h (Perm.refl _)
  ]

  pub length-candidates : length (candidates d b files) ≡ length eligible
  unfolding candidates
  length-candidates = ground (arith, length-sort d eligible)

  pub none_chosen :
      has_any_rtt d ≡ true → candidates d b files ≡ [] → All (λ x. latency d x ≡ none) files
  none_chosen h e =
      eligible-or-dead d _ (skips b d) 0 files (rw (sort-nil d eligible (sym (measured h) ∙ e)) tt)
        (latency_of_dead d)

  pub first_chosen :
      (c : Candidate) (cs : List Candidate)
      → has_any_rtt d ≡ true
      → candidates d b files ≡ c ∷ cs
      → All (λ x. rtt_le (latency d c.1) (latency d x) ≡ true) files
  first_chosen c cs h e =
      eligible-or-dead d _ (skips b d) 0 files
        (All-map (λ z k. rtt_of_key d c z k) eligible (All-unsort d (KeyLe d c) eligible below))
        (λ x dead. rw (latency_of_dead d x dead) (rtt_le-none d (latency d c.1)))
    where
      sorted : Sorted (KeyLe d) (c ∷ cs)
      sorted = rw (sym (measured h) ∙ e) at (sort_by_latency-Sorted d eligible)

      below : All (KeyLe d c) (sort_by_latency d eligible)
      below = rw (sym (measured h) ∙ e) (KeyLe-refl d c, sorted.0)
