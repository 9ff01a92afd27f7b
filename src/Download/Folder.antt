-- ===== src/Download/Folder.antt =====
-- The import of a local folder, in `download_remote_to_destination` of eovpn/utils.py.
use e_ovpn_pro.Base.{
  ℕ, ◌+◌, ◌*◌, ◌≤◌, Bool, true, not, ◌&&◌, ◌||◌, Option, none, some, List, [], ◌∷◌, ◌++◌, Text,
  codes, ends_with, ltb, if◌then◌else◌, All, ◌≡◌, ◌⊎◌, Option-cases, refl, arith, Bool-cases, inl,
  inr,
}
use e_ovpn_pro.Config.Audit.{sort_texts}
use e_ovpn_pro.Download.Extract.{Os, is_safe_path, join_path}

abbrev pub max_folder_import_total_bytes : ℕ
max_folder_import_total_bytes = 256 * 1_024 * 1_024

-- The folder: the names in it, `none` where it cannot be listed, and what the file system says of
-- each; `getsize` and `copy2` may raise.
pub record Folder : Type 0 where
  pub listdir : Option (List Text)
  pub isfile : Text → Bool
  pub islink : Text → Bool
  pub getsize : Text → Option ℕ
  pub copy2_works : Text → Bool

pub data Imported : Type 0 where
  found_certs : List Text → List Text → Imported
  folder_too_large copy_failed : Imported

-- `name.endswith((".ovpn", ".crt", ".pem"))`
unfoldable pub is_config_name : Text → Bool
is_config_name name =
    ends_with name (codes ".ovpn") || ends_with name (codes ".crt") || ends_with name (codes ".pem")

unfoldable pub is_cert_file : Text → Bool
is_cert_file name = ends_with name (codes ".crt") || ends_with name (codes ".pem")

-- a regular file, not a link, of one of the three kinds
unfoldable pub is_wanted : Folder → Text → Bool
is_wanted f name = f.isfile name && not (f.islink name) && is_config_name name

-- what a name adds to the sum; `none` where `getsize` raises
unfoldable pub counted_size : Folder → Text → Option ℕ
counted_size f name = if is_wanted f name then f.getsize name else some 0

-- the loop that adds the sizes up
unfoldable pub total_bytes : Folder → ℕ → List Text → Option ℕ
total_bytes f total [] = some total
total_bytes f total (name ∷ names) = elim (counted_size f name) [
  | none ↦ none
  | some n ↦ total_bytes f (total + n) names
]

-- what the loop has copied, in reverse, and the certificates among them
unfoldable pub copy_files : Folder → Os → Text → List Text → List Text → List Text → Imported
copy_files f os destination copied certs [] = found_certs copied certs
copy_files f os destination copied certs (name ∷ names) =
    let skipped = copy_files f os destination copied certs names in
    let more =
      copy_files f os destination (name ∷ copied)
        (if is_cert_file name then certs ++ name ∷ [] else certs) names in
    if not (is_wanted f name)
    then skipped
    else if not (is_safe_path os destination (join_path destination name) true)
    then skipped
    else if f.copy2_works name
    then more
    else copy_failed

-- the import, once the sizes are added up; an exception has been logged.
unfoldable pub import_sized : Folder → Os → Text → List Text → Option ℕ → Imported
unfolding copy_files
import_sized f os destination entries none = found_certs [] []
import_sized f os destination entries (some total) =
    if ltb max_folder_import_total_bytes total
    then folder_too_large
    else copy_files f os destination [] [] entries

unfoldable pub import_entries : Folder → Os → Text → Option (List Text) → Imported
unfolding import_sized sort_texts
import_entries f os destination none = found_certs [] []
import_entries f os destination (some names) =
    let entries = sort_texts names in
    import_sized f os destination entries (total_bytes f 0 entries)

-- the folder branch
unfoldable pub import_folder : Folder → Os → Text → Imported
unfolding import_entries
import_folder f os destination = import_entries f os destination f.listdir

abbrev pub size_of : Option ℕ → ℕ
size_of none = 0
size_of (some n) = n

-- the sizes of the files that the folder names
abbrev pub sizes : Folder → List Text → ℕ
sizes f [] = 0
sizes f (name ∷ names) = size_of (f.getsize name) + sizes f names

module _ (f : Folder) (os : Os) (destination : Text) where
  abbrev pub IsCopied : Text → Type 0
  IsCopied name =
      (is_wanted f name ≡ true)
      × (is_safe_path os destination (join_path destination name) true ≡ true)

  -- the copied files when the next one is left out, or is copied
  module _ (copied certs : List Text) (name : Text) (names done found : List Text)
      (e : copy_files f os destination copied certs (name ∷ names) ≡ found_certs done found) where
    abbrev certs' : List Text
    certs' = if is_cert_file name then certs ++ name ∷ [] else certs

    copy_step :
        (copy_files f os destination copied certs names ≡ found_certs done found)
        ⊎ IsCopied name
          × (copy_files f os destination (name ∷ copied) certs' names ≡ found_certs done found)
    unfolding copy_files
    copy_step = elim (Bool-cases (is_wanted f name)) [
      | inr a ↦ inl (rw a at e)
      | inl a ↦ elim (Bool-cases (is_safe_path os destination (join_path destination name) true)) [
        | inr b ↦ inl (rw (a, b) at e)
        | inl b ↦ elim (Bool-cases (f.copy2_works name)) [
          | inl c ↦ inr ((a, b), rw (a, b, c) at e)
          | inr c ↦ absurd (ground arith)
        ]
      ]
    ]

  copy_files-IsCopied :
      (copied certs names done found : List Text)
      → All IsCopied copied
      → copy_files f os destination copied certs names ≡ found_certs done found
      → All IsCopied done
  copy_files-IsCopied copied certs [] done found h e =
      let same_list : copied ≡ done = unfold copy_files in ground arith in rw (← same_list) h
  copy_files-IsCopied copied certs (name ∷ names) done found h e =
      elim (copy_step copied certs name names done found e) [
        | inl g ↦ copy_files-IsCopied copied certs names done found h g
        | inr (k, g) ↦
            copy_files-IsCopied (name ∷ copied) (certs' copied certs name names done found e) names
              done found (k, h) g
      ]

  -- the sum that the names before have reached
  total_step :
      (start total : ℕ) (name : Text) (names : List Text)
      → total_bytes f start (name ∷ names) ≡ some total
      → (next : ℕ) × (total_bytes f next names ≡ some total)
        × (start ≤ next)
        × (is_wanted f name ≡ true → start + size_of (f.getsize name) ≤ next)
  unfolding total_bytes
  total_step start total name names t = elim (Option-cases (counted_size f name)) [
    | inl b ↦ absurd (not_some (rw (b, total_bytes) at t))
    | inr (n, b) ↦ (start + n, rw (b, total_bytes) at t, omega arith, λ w. wanted w b)
  ]
    where
      not_some : none ≡ some total → ⊥
      not_some q = cc

      wanted :
          {n : ℕ}
          → is_wanted f name ≡ true
          → counted_size f name ≡ some n
          → start + size_of (f.getsize name) ≤ start + n
      wanted w b = unfold counted_size in ground arith

  copy_files-sizes :
      (copied certs names done found : List Text) (start total : ℕ)
      → copy_files f os destination copied certs names ≡ found_certs done found
      → total_bytes f start names ≡ some total
      → sizes f copied ≤ start
      → sizes f done ≤ total
  copy_files-sizes copied certs [] done found start total e t h =
      let same_list : copied ≡ done = unfold copy_files in ground arith in
      let same_total : start ≡ total = unfold total_bytes in ground arith in
      rw (← same_list, ← same_total) h
  copy_files-sizes copied certs (name ∷ names) done found start total e t h =
      let (next, t', up, room) = total_step start total name names t in
      elim (copy_step copied certs name names done found e) [
        | inl g ↦ copy_files-sizes copied certs names done found next total g t' (omega arith)
        | inr (k, g) ↦
            let more = room k.0 in
            copy_files-sizes (name ∷ copied) (certs' copied certs name names done found e) names
              done found next total g t' (omega arith)
      ]

  IsCopied-within :
      (entries done found : List Text) (sum : Option ℕ)
      → total_bytes f 0 entries ≡ sum
      → import_sized f os destination entries sum ≡ found_certs done found
      → All IsCopied done × (sizes f done ≤ max_folder_import_total_bytes)
  unfolding import_sized
  IsCopied-within entries done found none b e =
      let nothing : [] ≡ done = ground arith in rw (← nothing) (tt, omega arith)
  IsCopied-within entries done found (some total) b e =
      elim (Bool-cases (ltb max_folder_import_total_bytes total)) [
        | inl c ↦ absurd (ground arith)
        | inr c ↦
            let e' : copy_files f os destination [] [] entries ≡ found_certs done found =
              rw c at e in
            let fits = copy_files-sizes [] [] entries done found 0 total e' b (omega arith) in
            (copy_files-IsCopied [] [] entries done found tt e', ground arith)
      ]

  names_within :
      (listed : Option (List Text)) (done found : List Text)
      → import_entries f os destination listed ≡ found_certs done found
      → All IsCopied done × (sizes f done ≤ max_folder_import_total_bytes)
  unfolding import_entries
  names_within none done found e =
      let nothing : [] ≡ done = ground arith in rw (← nothing) (tt, omega arith)
  names_within (some names) done found e =
      IsCopied-within (sort_texts names) done found (total_bytes f 0 (sort_texts names)) refl e

  -- An import that succeeds copies only regular files, no links, of the three kinds, each to a safe
  -- path; their sizes, as they were scanned, add up to the cap at most.
  pub import_folder_is_safe :
      (done found : List Text)
      → import_folder f os destination ≡ found_certs done found
      → All IsCopied done × (sizes f done ≤ max_folder_import_total_bytes)
  unfolding import_folder
  import_folder_is_safe done found e = names_within f.listdir done found e
