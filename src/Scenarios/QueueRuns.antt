-- ===== src/Scenarios/QueueRuns.antt =====
-- Queues, budgets and progress of small server lists.
use mathlib.Core.List.{Perm}
use e_ovpn_pro.Base.{
  ◌&&◌, true, none, some, List, [], ◌∷◌, Text, codes, All, ◌≡◌, refl, arith, same, lookup,
}
use e_ovpn_pro.AutoConnect.Queue.{
  Latencies, latency, known_dead, named, has_any_rtt, eligible_from, key_le, insert_by_latency,
  sort_by_latency, candidates, build_cascade_queue,
}
use e_ovpn_pro.AutoConnect.Queue.Sorting.{rtt_le}
use e_ovpn_pro.AutoConnect.Queue.Chosen.{kept}
use e_ovpn_pro.AutoConnect.Queue.Contents.{fastest_first, build_cascade_queue-Perm}

abbrev slow : Text
slow = codes "slow.ovpn"

abbrev fast : Text
fast = codes "fast.ovpn"

abbrev dead : Text
dead = codes "dead.ovpn"

abbrev unknown : Text
unknown = codes "new.ovpn"

abbrev visible : List Text
visible = unknown ∷ dead ∷ slow ∷ [] ∷ fast ∷ []

abbrev measured : Latencies
measured = (slow, some 900) ∷ (fast, some 200) ∷ (dead, none) ∷ []

-- The measured servers come first, the faster first; the dead and the unnamed one are left out.
measured_queue : build_cascade_queue visible measured true 50 ≡ fast ∷ slow ∷ unknown ∷ []
unfolding build_cascade_queue candidates sort_by_latency insert_by_latency key_le eligible_from
    known_dead has_any_rtt latency lookup same named
measured_queue = refl

fastest_first_example :
    All (λ x. rtt_le (latency measured fast) (latency measured x) ≡ true) (named visible)
fastest_first_example =
    fastest_first visible measured true 50 fast (slow ∷ unknown ∷ []) (unfold has_any_rtt in refl)
      measured_queue

kept_some : kept true measured (named visible) ≡ unknown ∷ slow ∷ fast ∷ []
unfolding kept named known_dead lookup same
kept_some = refl

build_cascade_queue-Perm_example :
    Perm
      (build_cascade_queue visible measured true 50)
      (kept (true && has_any_rtt measured) measured (named visible))
unfolding has_any_rtt
build_cascade_queue-Perm_example =
    build_cascade_queue-Perm visible measured true 50 (rw kept_some (λ e. cc e))
      (rw kept_some (omega arith))
