-- ===== src/AutoConnect/Queue/Sorting.antt =====
-- The sort of the candidates: it keeps them, and puts the faster ones first.
use mathlib.Core.List.{Perm}
use mathlib.Core.List.Perm
use e_ovpn_pro.Base.{
  ℕ, suc, Bool, true, false, Option, none, some, List, [], ◌∷◌, All, Sorted, All-map, length, ◌≡◌,
  refl, ap, inl, inr, arith, leb, Bool-cases,
}
use e_ovpn_pro.AutoConnect.Queue.{
  Latencies, latency, Candidate, key_le, insert_by_latency, sort_by_latency,
}

-- `x` is at least as fast as `y`; an unmeasured server is slower than every measured one.
unfoldable pub rtt_le : Option ℕ → Option ℕ → Bool
rtt_le (some r) (some s) = leb r s
rtt_le x none = true
rtt_le none (some s) = false

module _ (d : Latencies) where
  abbrev pub KeyLe : Candidate → Candidate → Type 0
  KeyLe (i, x) (j, y) = key_le (latency d x) i (latency d y) j ≡ true

  pub key_le_total :
      (r : Option ℕ) (i : ℕ) (s : Option ℕ) (j : ℕ) → key_le r i s j ≡ false → key_le s j r i ≡ true
  unfolding key_le
  key_le_total r i s j h = ground arith

  pub key_le_trans :
      (r : Option ℕ) (i : ℕ) (s : Option ℕ) (j : ℕ) (t : Option ℕ) (k : ℕ)
      → key_le r i s j ≡ true
      → key_le s j t k ≡ true
      → key_le r i t k ≡ true
  unfolding key_le
  key_le_trans r i s j t k h g = ground arith

  All-insert :
      (P : Candidate → Type 0) (c : Candidate) (cs : List Candidate)
      → P c
      → All P cs
      → All P (insert_by_latency d c cs)
  unfolding insert_by_latency
  All-insert P c [] h hs = (h, tt)
  All-insert P (i, x) ((j, y) ∷ cs) h hs =
      elim (Bool-cases (key_le (latency d x) i (latency d y) j)) [
        | inl e ↦ rw e (h, hs)
        | inr e ↦ rw e (hs.0, All-insert P (i, x) cs h hs.1)
      ]

  insert-Sorted :
      (c : Candidate) (cs : List Candidate)
      → Sorted KeyLe cs
      → Sorted KeyLe (insert_by_latency d c cs)
  unfolding insert_by_latency
  insert-Sorted c [] h = (tt, tt)
  insert-Sorted (i, x) ((j, y) ∷ cs) h =
      elim (Bool-cases (key_le (latency d x) i (latency d y) j)) [
        | inl e ↦ rw e (
          (
            e,
            All-map (λ c g. key_le_trans (latency d x) i (latency d y) j (latency d c.1) c.0 e g) cs
                h.0,
          ),
          h,
        )
        | inr e ↦ rw e (
          All-insert (KeyLe (j, y)) (i, x) cs (key_le_total (latency d x) i (latency d y) j e) h.0,
          insert-Sorted (i, x) cs h.1,
        )
      ]

  pub sort_by_latency-Sorted : (cs : List Candidate) → Sorted KeyLe (sort_by_latency d cs)
  unfolding sort_by_latency
  sort_by_latency-Sorted [] = tt
  sort_by_latency-Sorted (c ∷ cs) =
      insert-Sorted c (sort_by_latency d cs) (sort_by_latency-Sorted cs)

  insert-Perm : (c : Candidate) (cs : List Candidate) → Perm (insert_by_latency d c cs) (c ∷ cs)
  unfolding insert_by_latency
  insert-Perm c [] = Perm.refl (c ∷ [])
  insert-Perm (i, x) ((j, y) ∷ cs) = elim (Bool-cases (key_le (latency d x) i (latency d y) j)) [
    | inl e ↦ rw e (Perm.refl _)
    | inr e ↦
        rw e (Perm.trans (Perm.cons (j, y) (insert-Perm (i, x) cs)) (Perm.swap (i, x) (j, y) cs))
  ]

  pub sort_by_latency-Perm : (cs : List Candidate) → Perm (sort_by_latency d cs) cs
  unfolding sort_by_latency
  sort_by_latency-Perm [] = Perm.refl []
  sort_by_latency-Perm (c ∷ cs) =
      Perm.trans (insert-Perm c (sort_by_latency d cs)) (Perm.cons c (sort_by_latency-Perm cs))

  pub All-sort :
      (P : Candidate → Type 0) (cs : List Candidate) → All P cs → All P (sort_by_latency d cs)
  unfolding sort_by_latency
  All-sort P [] h = tt
  All-sort P (c ∷ cs) h = All-insert P c (sort_by_latency d cs) h.0 (All-sort P cs h.1)

  All-uninsert :
      (P : Candidate → Type 0) (c : Candidate) (cs : List Candidate)
      → All P (insert_by_latency d c cs)
      → P c × All P cs
  unfolding insert_by_latency
  All-uninsert P c [] h = h
  All-uninsert P (i, x) ((j, y) ∷ cs) h =
      elim (Bool-cases (key_le (latency d x) i (latency d y) j)) [
        | inl e ↦ let h' : P (i, x) × All P ((j, y) ∷ cs) = rw e at h in h'
        | inr e ↦
            let h' : P (j, y) × All P (insert_by_latency d (i, x) cs) = rw e at h in
            let (new, old) = All-uninsert P (i, x) cs h'.1 in (new, (h'.0, old))
      ]

  pub All-unsort :
      (P : Candidate → Type 0) (cs : List Candidate) → All P (sort_by_latency d cs) → All P cs
  unfolding sort_by_latency
  All-unsort P [] h = tt
  All-unsort P (c ∷ cs) h =
      let (new, old) = All-uninsert P c (sort_by_latency d cs) h in (new, All-unsort P cs old)

  length-insert :
      (c : Candidate) (cs : List Candidate) → length (insert_by_latency d c cs) ≡ suc (length cs)
  unfolding insert_by_latency
  length-insert c [] = refl
  length-insert (i, x) ((j, y) ∷ cs) = ground (arith, length-insert (i, x) cs)

  pub length-sort : (cs : List Candidate) → length (sort_by_latency d cs) ≡ length cs
  unfolding sort_by_latency
  length-sort [] = refl
  length-sort (c ∷ cs) = omega (arith, length-insert c (sort_by_latency d cs), length-sort cs)

  pub sort-nil : (cs : List Candidate) → sort_by_latency d cs ≡ [] → cs ≡ []
  sort-nil [] h = refl
  sort-nil (c ∷ cs) h = absurd (omega (arith, ap (length {0}) h, length-sort (c ∷ cs)))
