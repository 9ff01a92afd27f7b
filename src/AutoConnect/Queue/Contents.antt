-- ===== src/AutoConnect/Queue/Contents.antt =====
-- What the queue of attempts holds, and in what order.
use mathlib.Core.List.{Perm}
use mathlib.Core.List.Perm
use e_ovpn_pro.Base.{
  ◌∙◌, map-take, map-nil, take-nil, length-nil, Sorted-of-All, ℕ, zero, suc, ◌≤◌, max, Bool, true,
  false, none, List, [], ◌∷◌, Text, All, Sorted, All-map, length, take, ◌≡◌, ◌≢◌, refl, ap, sym,
  arith, length-take, length-map, take_all, All-take, Sorted-take, Sorted-map, All-of-map,
}
use e_ovpn_pro.AutoConnect.Queue.{
  Latencies, latency, Candidate, known_dead, has_any_rtt, named, or_files, names_of, candidates,
  build_cascade_queue,
}
use e_ovpn_pro.AutoConnect.Queue.Sorting.{rtt_le, KeyLe, sort_by_latency-Sorted, All-sort}
use e_ovpn_pro.AutoConnect.Queue.Chosen.{
  kept, skips, names-eligible, rtt_le-none, rtt_of_key, eligible-alive, or_files_cases,
  or_files_same, eligible, measured, unmeasured, candidates-Perm, length-candidates, none_chosen,
  first_chosen,
}

module _ (visible : List Text) (d : Latencies) (skip_unreachable : Bool) (max_candidates : ℕ) where
  abbrev queue : List Text
  queue = build_cascade_queue visible d skip_unreachable max_candidates

  abbrev chosen : List Candidate
  chosen = candidates d skip_unreachable (named visible)

  abbrev limit : ℕ
  limit = max 1 max_candidates

  length-or_files :
      (xs ys : List Text) (n : ℕ) → length xs ≤ n → length ys ≤ n → length (or_files xs ys) ≤ n
  length-or_files [] ys n h g = g
  length-or_files (x ∷ xs) ys n h g = h

  -- The queue never holds more servers than the cap allows, and a cap below one counts as one.
  pub length-build_cascade_queue : length queue ≤ max 1 max_candidates
  unfolding build_cascade_queue
  length-build_cascade_queue =
      length-or_files (names_of (take limit chosen)) (take limit (named visible)) limit
        (omega (
          arith,
          length-map {0, 0} (λ (c : Candidate). c.1) (take limit chosen),
          length-take {0} limit chosen,
        ))
        (omega (arith, length-take {0} limit (named visible)))

  -- With a named server in the list there is always one to try.
  pub build_cascade_queue-nonempty : named visible ≢ [] → queue ≢ []
  unfolding build_cascade_queue
  build_cascade_queue-nonempty some_named =
      go (names_of (take limit chosen)) (named visible) (max 1 max_candidates) (omega arith)
        some_named
    where
      go : (xs files : List Text) (n : ℕ) → 1 ≤ n → files ≢ [] → or_files xs (take n files) ≢ []
      go xs files zero h g = absurd (omega arith)
      go xs [] (suc n) h g = absurd (g refl)
      go [] (f ∷ files) (suc n) h g = λ e. cc
      go (x ∷ xs) (f ∷ files) (suc n) h g = λ e. cc

  -- Before any measurement the queue is the start of the visible list, in its order.
  pub unmeasured_queue : has_any_rtt d ≡ false → queue ≡ take (max 1 max_candidates) (named visible)
  unfolding build_cascade_queue
  unmeasured_queue h =
      ap (λ xs. or_files xs (take limit (named visible)))
        (map-take (λ c. c.1) limit chosen
          ∙ ap (take limit) (unmeasured d skip_unreachable (named visible) h))
      ∙ or_files_same (take limit (named visible))

  nothing_chosen : names_of (take limit chosen) ≡ [] → chosen ≡ []
  unfolding names_of
  nothing_chosen e = take-nil limit chosen (omega arith) (map-nil (λ c. c.1) (take limit chosen) e)

  -- Once a server has been measured the queue runs from the fastest to the slowest, the unmeasured
  -- ones last.
  pub build_cascade_queue-Sorted :
      has_any_rtt d ≡ true → Sorted (λ x y. rtt_le (latency d x) (latency d y) ≡ true) queue
  unfolding build_cascade_queue
  build_cascade_queue-Sorted h =
      or_files_cases (Sorted (λ x y. rtt_le (latency d x) (latency d y) ≡ true))
        (names_of (take limit chosen)) (take limit (named visible))
        (λ e.
          Sorted-of-All (λ x. latency d x ≡ none) _ (λ a b _ q. rw q (rtt_le-none d (latency d a)))
            (take limit (named visible))
            (All-take _ limit (named visible)
              (none_chosen d skip_unreachable (named visible) h (nothing_chosen e))))
        (Sorted-map (KeyLe d) _ (λ c. c.1) (rtt_of_key d) (take limit chosen)
          (Sorted-take (KeyLe d) limit chosen
            (rw (measured d skip_unreachable (named visible) h) (sort_by_latency-Sorted d _))))

  fastest_of :
      (cs : List Candidate) (n : ℕ) (first : Text) (rest : List Text)
      → chosen ≡ cs
      → 1 ≤ n
      → has_any_rtt d ≡ true
      → or_files (names_of (take n cs)) (take n (named visible)) ≡ first ∷ rest
      → All (λ x. rtt_le (latency d first) (latency d x) ≡ true) (named visible)
  unfolding names_of
  fastest_of [] n first rest e p h q =
      All-map (λ x (z : latency d x ≡ none). rw z (rtt_le-none d (latency d first))) (named visible)
        (none_chosen d skip_unreachable (named visible) h e)
  fastest_of (c ∷ cs) zero first rest e p h q = absurd (omega arith)
  fastest_of (c ∷ cs) (suc n) first rest e p h q =
      let same_first : c.1 ≡ first = cc in
      rw same_first at (first_chosen d skip_unreachable (named visible) c cs h e)

  -- Once a server has been measured, the server that is tried first is at least as fast as every
  -- server of the visible list.
  pub fastest_first :
      (first : Text) (rest : List Text)
      → has_any_rtt d ≡ true
      → queue ≡ first ∷ rest
      → All (λ x. rtt_le (latency d first) (latency d x) ≡ true) (named visible)
  unfolding build_cascade_queue
  fastest_first first rest h e = fastest_of chosen limit first rest refl (omega arith) h e

  length-kept : length (kept (skips skip_unreachable d) d (named visible)) ≡ length chosen
  unfolding names_of
  length-kept =
      ap (length {0}) (sym (names-eligible d (skips skip_unreachable d) 0 (named visible)))
      ∙ length-map (λ c. c.1) (eligible d skip_unreachable (named visible))
      ∙ sym (length-candidates d skip_unreachable (named visible))

  kept_none :
      names_of (take limit chosen) ≡ [] → kept (skips skip_unreachable d) d (named visible) ≡ []
  kept_none e = length-nil _ (omega (arith, length-kept, ap (length {0}) (nothing_chosen e)))

  -- Where unreachable servers are to be skipped and a server has been measured, none that is known
  -- to be dead is tried, unless all of them are.
  pub queue_skips_dead :
      kept true d (named visible) ≢ []
      → has_any_rtt d ≡ true
      → skip_unreachable ≡ true
      → All (λ x. known_dead d x ≡ false) queue
  unfolding build_cascade_queue
  queue_skips_dead alive h s =
      or_files_cases (All (λ x. known_dead d x ≡ false)) (names_of (take limit chosen))
        (take limit (named visible)) (λ e. absurd (alive (rw (s, h) at (kept_none e))))
        (All-of-map _ (λ c. c.1) (take limit chosen)
          (All-take _ limit chosen (
            rw (measured d skip_unreachable (named visible) h)
              (All-sort d _ _ (rw (s, h) (eligible-alive d 0 (named visible)))))))

  -- When there are servers that are not skipped and they fit under the cap, all of these are tried,
  -- each as often as it is listed.
  pub build_cascade_queue-Perm :
      kept (skips skip_unreachable d) d (named visible) ≢ []
      → length (kept (skips skip_unreachable d) d (named visible)) ≤ max 1 max_candidates
      → Perm queue (kept (skips skip_unreachable d) d (named visible))
  unfolding build_cascade_queue
  build_cascade_queue-Perm some_kept fits =
      or_files_cases (λ xs. Perm xs (kept (skips skip_unreachable d) d (named visible)))
        (names_of (take limit chosen)) (take limit (named visible))
        (λ e. absurd (some_kept (kept_none e)))
        (rw (take_all limit chosen room, sym same_names)
          (Perm.map (λ c. c.1) (candidates-Perm d skip_unreachable (named visible))))
    where
      same_names :
          names_of (eligible d skip_unreachable (named visible))
          ≡ kept (skips skip_unreachable d) d (named visible)
      same_names = names-eligible d (skips skip_unreachable d) 0 (named visible)

      room : length chosen ≤ limit
      room = omega (arith, length-kept)
