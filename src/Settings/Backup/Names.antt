-- ===== src/Settings/Backup/Names.antt =====
-- The loop of `create_reset_backup` in eovpn/reset_backup.py ends, with a name that is free.
use e_ovpn_pro.Base.{
  ℕ, zero, suc, ◌+◌, ◌<◌, ◌≤◌, true, false, some, List, [], ◌∷◌, ◌++◌, Text, codes, any, same,
  same_iff, length, print_number, read_number, read_number-print_number, length-map, ◌≡◌, refl, sym,
  ap, ◌∙◌, arith, Bool-cases, inl, inr,
}
use e_ovpn_pro.Settings.{discard}
use e_ovpn_pro.Settings.Laws.{any-discard}
use e_ovpn_pro.Settings.Backup.{
  Io, Item, backup_name, free_name, names, backup_path, reset_backup_prefix, suffix_text,
}

length-discard : (x : Text) (ys : List Text) → length (discard x ys) ≤ length ys
unfolding discard
length-discard x [] = omega arith
length-discard x (y ∷ ys) = ground (arith, length-discard x ys)

length-discard_some :
    (x : Text) (ys : List Text) → any (same x) ys ≡ true → length (discard x ys) < length ys
unfolding discard
length-discard_some x [] h = absurd (ground arith)
length-discard_some x (y ∷ ys) h = elim (Bool-cases (same y x)) [
  | inl e ↦ rw e (ground (arith, length-discard x ys))
  | inr e ↦ rw e (ground (arith, same_iff x y, same_iff y x, length-discard_some x ys))
]

module _ (name : ℕ → Text) (injective : (i j : ℕ) → name i ≡ name j → i ≡ j) where
  free_name-discard :
      (fuel i k : ℕ) (taken : List Text)
      → i < k
      → free_name fuel name k (discard (name i) taken) ≡ free_name fuel name k taken
  unfolding free_name
  free_name-discard zero i k taken h = refl
  free_name-discard (suc fuel) i k taken h = ground (
    arith,
    injective i k,
    same_iff (name i) (name k),
    any-discard (name i) (name k) taken,
    free_name-discard fuel i (k + 1) taken,
  )

  pub free_name-total :
      (fuel k : ℕ) (taken : List Text)
      → length taken < fuel
      → (i : ℕ) × (k ≤ i)
        × (free_name fuel name k taken ≡ some (name i))
        × (any (same (name i)) taken ≡ false)
  unfolding free_name
  free_name-total zero k taken h = absurd (omega arith)
  free_name-total (suc fuel) k taken h = elim (Bool-cases (any (same (name k)) taken)) [
    | inr e ↦ (k, omega arith, rw e refl, e)
    | inl e ↦
        let (i, later, step, free) =
          free_name-total fuel (k + 1) (discard (name k) taken)
            (ground (arith, length-discard_some (name k) taken)) in
        (
          i,
          omega arith,
          rw e (sym (free_name-discard fuel k (k + 1) taken (omega arith)) ∙ step),
          ground (
            arith,
            injective k i,
            same_iff (name k) (name i),
            any-discard (name k) (name i) taken,
          ),
        )
  ]

append_cancel : (xs ys zs : Text) → xs ++ ys ≡ xs ++ zs → ys ≡ zs
append_cancel [] ys zs h = h
append_cancel (x ∷ xs) ys zs h = append_cancel xs ys zs (ground arith)

suffix_injective : (i j : ℕ) → suffix_text i ≡ suffix_text j → i ≡ j
suffix_injective zero zero h = refl
suffix_injective zero (suc j) h = absurd (ground arith)
suffix_injective (suc i) zero h = absurd (ground arith)
suffix_injective (suc i) (suc j) h =
    sym (read_number-print_number (suc i))
    ∙ ap read_number (append_cancel (codes "-") (print_number (suc i)) (print_number (suc j)) h)
    ∙ read_number-print_number (suc j)

backup_name_injective : (io : Io) (i j : ℕ) → backup_name io i ≡ backup_name io j → i ≡ j
unfolding backup_name
backup_name_injective io i j h = suffix_injective i j (
    append_cancel (reset_backup_prefix ++ io.timestamp ++ codes "-" ++ print_number io.pid)
      (suffix_text i) (suffix_text j) h)

-- The loop that looks for a free name ends, whatever stands in the directory: after at most one round
-- for each name there, and with a name that none of them has.
pub backup_path-free :
    (io : Io) (parent : List (Text × Item))
    → (i : ℕ) × (backup_path io parent ≡ some (backup_name io i))
      × (any (same (backup_name io i)) (names parent) ≡ false)
unfolding backup_path
backup_path-free io parent =
    let (i, later, step, free) =
      free_name-total (backup_name io) (backup_name_injective io) (suc (length parent)) 0
        (names parent) (rw (length-map (λ (item : Text × Item). item.0) parent) (omega arith)) in
    (i, step, free)
