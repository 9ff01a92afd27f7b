-- ===== src/Download/Extract/Safety.antt =====
-- What an extraction can write: files directly in the destination, and no more than the cap.
use e_ovpn_pro.Base.{
  ℕ, ◌+◌, ◌≤◌, true, false, some, List, [], ◌∷◌, ◌++◌, Text, same, insert, any, length, ◌==◌, All,
  All-append, ◌≡◌, ◌≢◌, arith, Bool-cases, inl, inr, length-append,
}
use e_ovpn_pro.Download.Extract.{
  max_extracted_total_bytes, max_zip_entries, Entry, Os, basename, basename_from, join_path,
  is_safe_path, Extraction, Copied, copy_chunks, store_entry, extract_named, extract_entry,
  extract_all, fresh, extract_archive, matching, is_ovpn_name, is_cert_name,
}

abbrev pub NoSlash : Text → Type 0
NoSlash = All (λ c. (c == b'/') ≡ false)

basename_from-NoSlash : (name path : Text) → NoSlash name → NoSlash (basename_from name path)
unfolding basename_from
basename_from-NoSlash name [] h = h
basename_from-NoSlash name (c ∷ path) h = elim (Bool-cases (c == b'/')) [
  | inl e ↦ rw e (basename_from-NoSlash [] path tt)
  | inr e ↦ rw e (
      basename_from-NoSlash (name ++ c ∷ []) path
        (All-append (λ a. (a == b'/') ≡ false) name (c ∷ []) h (e, tt)))
]

-- the bytes of the files
abbrev pub size : List (Text × Text) → ℕ
size [] = 0
size ((name, content) ∷ files) = length content + size files

size-insert :
    (name content : Text) (files : List (Text × Text))
    → size (insert name content files) ≤ size files + length content
unfolding insert
size-insert name content [] = ground arith
size-insert name content ((j, old) ∷ files) = ground (arith, size-insert name content files)

copy_chunks-total :
    (total : ℕ) (content : Text) (chunks : List Text)
    → (copy_chunks total content chunks).total + length content
      ≡ total + length (copy_chunks total content chunks).content
unfolding copy_chunks
copy_chunks-total total content [] = omega arith
copy_chunks-total total content ([] ∷ rest) = omega arith
copy_chunks-total total content ((b ∷ chunk) ∷ rest) = ground (
  arith,
  length-append {0} content (b ∷ chunk),
  copy_chunks-total (total + length (b ∷ chunk)) (content ++ b ∷ chunk) rest,
)

copy_chunks-bound :
    (total : ℕ) (content : Text) (chunks : List Text)
    → total ≤ max_extracted_total_bytes
    → (copy_chunks total content chunks).bomb ≡ false
    → (copy_chunks total content chunks).total ≤ max_extracted_total_bytes
unfolding copy_chunks
copy_chunks-bound total content [] h b = h
copy_chunks-bound total content ([] ∷ rest) h b = h
copy_chunks-bound total content ((b ∷ chunk) ∷ rest) h g =
    ground (arith, copy_chunks-bound (total + length (b ∷ chunk)) (content ++ b ∷ chunk) rest)

true_ne_false : true ≡ false → ⊥
true_ne_false h = cc

module _ (os : Os) (destination : Text) where
  -- a name that may be written: no path, and safe by `is_safe_path`
  abbrev pub IsInside : Text → Type 0
  IsInside name =
      (name ≢ [])
      × NoSlash name
      × (is_safe_path os destination (join_path destination name) true ≡ true)

  -- what holds between two rounds of the loop
  pub record IsBounded (x : Extraction) : Type 0 where
    pub counted : size x.written ≤ x.extracted_total
    pub capped : x.zip_bomb_detected ≡ false → x.extracted_total ≤ max_extracted_total_bytes
    pub inside : All (λ file. IsInside file.0) x.written

  insert-IsInside :
      (name content : Text) (files : List (Text × Text))
      → IsInside name
      → All (λ file. IsInside file.0) files
      → All (λ file. IsInside file.0) (insert name content files)
  unfolding insert
  insert-IsInside name content [] h hs = (h, tt)
  insert-IsInside name content ((j, old) ∷ files) h hs = elim (Bool-cases (same j name)) [
    | inl e ↦ rw e hs
    | inr e ↦ rw e (hs.0, insert-IsInside name content files h hs.1)
  ]

  module _ (name : Text) (entry : Entry) (x : Extraction) (b : IsBounded x) (h : IsInside name)
      (on : x.zip_bomb_detected ≡ false) where
    abbrev copied : Copied
    copied = copy_chunks x.extracted_total [] entry.chunks

    total_grows : copied.total ≡ x.extracted_total + length copied.content
    total_grows = omega (arith, copy_chunks-total x.extracted_total [] entry.chunks)

    kept_size : size (insert name copied.content x.written) ≤ copied.total
    kept_size = omega (arith, size-insert name copied.content x.written, total_grows, b.counted)

    kept_inside : All (λ file. IsInside file.0) (insert name copied.content x.written)
    kept_inside = insert-IsInside name copied.content x.written h b.inside

    kept_capped : copied.bomb ≡ false → copied.total ≤ max_extracted_total_bytes
    kept_capped = copy_chunks-bound x.extracted_total [] entry.chunks (b.capped on)

    store-IsBounded : IsBounded (store_entry name entry.broken copied x)
    unfolding store_entry
    store-IsBounded = elim (Bool-cases copied.bomb) [
      | inl e ↦ rw e (record {
        counted = kept_size;
        capped = λ g. absurd (true_ne_false g);
        inside = kept_inside;
      })
      | inr e ↦ elim (Bool-cases entry.broken) [
        | inl f ↦
            rw (e, f)
              (record {
                counted = omega (arith, b.counted, total_grows);
                capped = λ _. kept_capped e;
                inside = b.inside;
              })
        | inr f ↦ elim (Bool-cases (is_cert_name name)) [
          | inl g ↦
              rw (e, f, g)
                (record { counted = kept_size; capped = λ _. kept_capped e; inside = kept_inside })
          | inr g ↦
              rw (e, f, g)
                (record { counted = kept_size; capped = λ _. kept_capped e; inside = kept_inside })
        ]
      ]
    ]

  note-IsBounded :
      (name : Text) (x : Extraction)
      → IsBounded x
      → IsBounded (record x { seen_names = name ∷ x.seen_names })
  note-IsBounded name x b = record { counted = b.counted; capped = b.capped; inside = b.inside }

  named-IsBounded :
      (name : Text) (entry : Entry) (x : Extraction)
      → IsBounded x
      → name ≢ []
      → NoSlash name
      → x.zip_bomb_detected ≡ false
      → IsBounded (extract_named os destination entry name x)
  unfolding extract_named
  named-IsBounded name entry x b full flat on =
      let noted = record x { seen_names = name ∷ x.seen_names } in
      elim (Bool-cases (any (same name) x.seen_names)) [
        | inl e ↦ rw e b
        | inr e ↦
            elim (Bool-cases (is_safe_path os destination (join_path destination name) true)) [
              | inr f ↦ rw (e, f) (note-IsBounded name x b)
              | inl f ↦ elim (Bool-cases (os.can_open (join_path destination name))) [
                | inr g ↦ rw (e, f, g) (note-IsBounded name x b)
                | inl g ↦
                    rw (e, f, g)
                      (store-IsBounded name entry noted (note-IsBounded name x b) (full, flat, f)
                        on)
              ]
            ]
      ]

  entry-IsBounded :
      (entry : Entry) (name : Text) (x : Extraction)
      → IsBounded x
      → NoSlash name
      → x.zip_bomb_detected ≡ false
      → IsBounded (extract_entry os destination entry name x)
  unfolding extract_entry
  entry-IsBounded entry [] x b flat on = b
  entry-IsBounded entry (c ∷ name) x b flat on =
      named-IsBounded (c ∷ name) entry x b (λ e. cc) flat on

  all-IsBounded :
      (entries : List Entry) (x : Extraction)
      → IsBounded x
      → IsBounded (extract_all os destination entries x)
  unfolding extract_all
  all-IsBounded [] x b = b
  all-IsBounded (entry ∷ entries) x b = elim (Bool-cases x.zip_bomb_detected) [
    | inl e ↦ simp e (all-IsBounded entries x b)
    | inr e ↦
        let next = extract_entry os destination entry (basename entry.filename) x in
        simp e (
          all-IsBounded entries next (
            entry-IsBounded entry (basename entry.filename) x b
              (unfold basename in basename_from-NoSlash [] entry.filename tt) e))
  ]

  -- An archive that is accepted writes at most the cap, and only files that stand directly in the
  -- destination: each has a name without a slash that passes `is_safe_path`.
  pub extract_archive_is_safe :
      (infos : List Entry) (x : Extraction)
      → extract_archive os destination infos ≡ some x
      → (size x.written ≤ max_extracted_total_bytes)
        × (length infos ≤ max_zip_entries)
        × All (λ file. IsInside file.0) x.written
  unfolding extract_archive
  extract_archive_is_safe infos x e =
      let entries = matching is_ovpn_name infos ++ matching is_cert_name infos in
      let done = extract_all os destination entries fresh in
      let same_state : done ≡ x = ground arith in
      let no_bomb : done.zip_bomb_detected ≡ false = ground arith in
      let few : length infos ≤ max_zip_entries = ground arith in
      let b : IsBounded done = all-IsBounded entries fresh fresh-IsBounded in
      rw (← same_state) (omega (arith, b.counted, b.capped no_bomb), few, b.inside)
    where
      fresh-IsBounded : IsBounded fresh
      fresh-IsBounded = record { counted = omega arith; capped = λ _. omega arith; inside = tt }
