-- ===== src/Speed/Best.antt =====
-- The least round-trip time is found, and a snapshot gives back the results of the last run.
use mathlib.Core.Path.{subst}
use e_ovpn_pro.Base.{
  ℕ, ◌+◌, ◌≤◌, Bool, false, Option, none, some, List, [], ◌∷◌, map, Text, take, ltb, if◌then◌else◌,
  All, ◌≡◌, ◌⊎◌, refl, sym, ap, ◌∙◌, arith, Bool-cases, inl, inr,
}
use e_ovpn_pro.Config.Parser.{File, parse_ovpn_remote}
use e_ovpn_pro.Speed.{
  max_endpoints_per_config, is_valid, better, best_of, test_single_ovpn, SpeedTestSnapshot, replace,
  latency_map, measurements_of, from_result,
}

-- what the round-trip time of a remote counts for
abbrev pub measures : (Text × ℕ → Option ℕ) → Text × ℕ → Option ℕ
measures ping remote = if is_valid remote then ping remote else none

-- `best` is the least of the times, and one of them, or there is none.
abbrev pub IsLower : Option ℕ → Option ℕ → Type 0
IsLower best none = Unit
IsLower none (some rtt) = ⊥
IsLower (some best) (some rtt) = best ≤ rtt

better-IsLower : (a b : Option ℕ) → IsLower (better a b) a × IsLower (better a b) b
unfolding better
better-IsLower none none = (tt, tt)
better-IsLower (some a) none = (omega arith, tt)
better-IsLower none (some b) = (tt, omega arith)
better-IsLower (some a) (some b) = elim (Bool-cases (ltb b a)) [
  | inl e ↦ rw e (ground arith, omega arith)
  | inr e ↦ rw e (omega arith, ground arith)
]

IsLower-refl : (a : Option ℕ) → IsLower a a
IsLower-refl none = tt
IsLower-refl (some a) = omega arith

IsLower-trans : (a b c : Option ℕ) → IsLower a b → IsLower b c → IsLower a c
IsLower-trans a b none h g = tt
IsLower-trans a none (some c) h g = elim g [ ]
IsLower-trans none (some b) (some c) h g = h
IsLower-trans (some a) (some b) (some c) h g = omega arith

-- a remote of the list measures the time
abbrev pub MeasuredBy : (Text × ℕ → Option ℕ) → Option ℕ → List (Text × ℕ) → Type 0
MeasuredBy ping best [] = ⊥
MeasuredBy ping best (r ∷ remotes) = (measures ping r ≡ best) ⊎ MeasuredBy ping best remotes

better-either : (a b : Option ℕ) → (better a b ≡ a) ⊎ (better a b ≡ b)
unfolding better
better-either none none = inl refl
better-either (some a) none = inl refl
better-either none (some b) = inr refl
better-either (some a) (some b) = elim (Bool-cases (ltb b a)) [
  | inl e ↦ rw e (inr refl)
  | inr e ↦ rw e (inl refl)
]

module _ (ping : Text × ℕ → Option ℕ) (is_set : ℕ → Bool) where
  -- a step of the loop, with the invalid remotes counted as silent
  next_best :
      (best : Option ℕ) (r : Text × ℕ)
      → (if is_valid r then better best (ping r) else best) ≡ better best (measures ping r)
  unfolding better
  next_best best r = elim (Bool-cases (is_valid r)) [ inl e ↦ rw e refl | inr e ↦ rw e refl ]

  -- `b` is below `best` and below the remotes, and is one of these.
  abbrev IsLeast : Option ℕ → Option ℕ → List (Text × ℕ) → Type 0
  IsLeast b best remotes =
      IsLower b best
      × All (λ r. IsLower b (measures ping r)) remotes
      × ((b ≡ best) ⊎ MeasuredBy ping b remotes)

  from_step :
      (best : Option ℕ) (r : Text × ℕ) (remotes : List (Text × ℕ)) (found : Option ℕ)
      → (found ≡ better best (measures ping r)) ⊎ MeasuredBy ping found remotes
      → (found ≡ best) ⊎ MeasuredBy ping found (r ∷ remotes)
  from_step best r remotes found (inr m) = inr (inr m)
  from_step best r remotes found (inl e) = elim (better-either best (measures ping r)) [
    | inl g ↦ inl (e ∙ g)
    | inr g ↦ inr (inl (sym (e ∙ g)))
  ]

  best_step :
      (k : ℕ) (best : Option ℕ) (r : Text × ℕ) (remotes : List (Text × ℕ))
      → is_set k ≡ false
      → best_of ping is_set k best (r ∷ remotes)
        ≡ best_of ping is_set (k + 1) (better best (measures ping r)) remotes
  unfolding best_of
  best_step k best r remotes off = rw (off, next_best best r) refl

  best_of-IsLeast :
      (k : ℕ) (best : Option ℕ) (remotes : List (Text × ℕ))
      → ((j : ℕ) → is_set j ≡ false)
      → IsLeast (best_of ping is_set k best remotes) best remotes
  best_of-IsLeast k best [] on = unfold best_of in (IsLower-refl best, tt, inl refl)
  best_of-IsLeast k best (r ∷ remotes) on =
      let next = better best (measures ping r) in
      let found = best_of ping is_set (k + 1) next remotes in
      let (low, all, from) = best_of-IsLeast (k + 1) next remotes on in
      let (below, beside) = better-IsLower best (measures ping r) in
      let here : IsLeast found best (r ∷ remotes) = (
        IsLower-trans found next best low below,
        (IsLower-trans found next (measures ping r) low beside, all),
        from_step best r remotes found from,
      ) in
      subst (λ b. IsLeast b best (r ∷ remotes)) (sym (best_step k best r remotes (on k))) here

  -- Unless the test is cancelled, its result is the least of the times that the first sixteen remotes
  -- measure, those without a host or with a port out of range left out: no remote is faster, and one
  -- of them measured it, or none answered.
  pub test_single_ovpn-IsLower :
      (file : File)
      → ((j : ℕ) → is_set j ≡ false)
      → let remotes = take max_endpoints_per_config (parse_ovpn_remote file) in
        let best = test_single_ovpn ping is_set file in
        All (λ r. IsLower best (measures ping r)) remotes
        × ((best ≡ none) ⊎ MeasuredBy ping best remotes)
  unfolding test_single_ovpn
  test_single_ovpn-IsLower file on =
      let (low, all, from) =
        best_of-IsLeast 0 none (take max_endpoints_per_config (parse_ovpn_remote file)) on in
      (all, from)

latencies_of_measurements :
    (now generation : ℕ) (entries : List (Text × Option ℕ))
    → map (λ entry. (entry.0, entry.1.latency)) (measurements_of now generation entries) ≡ entries
unfolding measurements_of from_result
latencies_of_measurements now generation [] = refl
latencies_of_measurements now generation (e ∷ entries) =
    ap (◌∷◌ e) (latencies_of_measurements now generation entries)

-- A snapshot gives back the results of the last run, whatever it held, and counts the run.
pub latency_map-replace :
    (now : ℕ) (results : List (Text × Option ℕ)) (s : SpeedTestSnapshot)
    → (latency_map (replace now results s).0 ≡ results)
      × ((replace now results s).1 ≡ s.generation + 1)
unfolding latency_map replace
latency_map-replace now results s = (latencies_of_measurements now (s.generation + 1) results, refl)
