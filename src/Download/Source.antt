-- ===== src/Download/Source.antt =====
-- `download_remote_to_destination` of eovpn/utils.py as a whole: a folder, or an archive.
use e_ovpn_pro.Base.{
  ◌≤◌, true, false, Option, none, some, List, Text, All, ◌≡◌, ◌⊎◌, refl, arith, Option-cases, inl,
  inr,
}
use e_ovpn_pro.Download.Fetch.{Fetched, ok, failed, insecure_source, World, fetch_zip_archive}
use e_ovpn_pro.Download.Fetch.Limits.{IsAllowed, fetch_is_safe}
use e_ovpn_pro.Download.Extract.{Entry, Os, Extraction, extract_archive, max_extracted_total_bytes}
use e_ovpn_pro.Download.Extract.Safety.{IsInside, size, extract_archive_is_safe}
use e_ovpn_pro.Download.Folder.{Folder, Imported, import_folder}

pub data Downloaded : Type 0 where
  from_folder : Imported → Downloaded
  from_archive : Extraction → Downloaded
  insecure_source_error not_zip : Downloaded

abbrev pub extracted : Option Extraction → Downloaded
extracted none = not_zip
extracted (some x) = from_archive x

-- The entries that `zipfile` reads out of an archive, `none` where it raises.
abbrev pub Zipfile : Type 0
Zipfile = Text → Option (List Entry)

unfoldable pub opened : Os → Text → Option (List Entry) → Downloaded
opened os destination none = not_zip
opened os destination (some infos) = extracted (extract_archive os destination infos)

-- Every exception but `InsecureSourceError` becomes a `NotZipException`.
unfoldable pub unpack : Os → Text → Zipfile → Fetched Text → Downloaded
unfolding opened
unpack os destination zipfile (failed insecure_source) = insecure_source_error
unpack os destination zipfile (failed _) = not_zip
unpack os destination zipfile (ok content) = opened os destination (zipfile content)

-- `download_remote_to_destination`, for a remote that is expanded; `folder` is what the file system
-- says of it where it is a directory.
unfoldable pub download_remote_to_destination :
    World → Os → Zipfile → Option Folder → Text → Text → Downloaded
unfolding unpack
download_remote_to_destination w os zipfile (some folder) remote destination =
    from_folder (import_folder folder os (os.realpath destination))
download_remote_to_destination w os zipfile none remote destination =
    unpack os (os.realpath destination) zipfile (fetch_zip_archive w remote)

unpacked :
    (os : Os) (dest : Text) (zipfile : Zipfile) (fetched : Fetched Text) (x : Extraction)
    → unpack os dest zipfile fetched ≡ from_archive x
    → (content : Text) × (infos : List Entry) × (fetched ≡ ok content)
      × (extract_archive os dest infos ≡ some x)
unfolding unpack opened
unpacked os dest zipfile (failed insecure_source) x e = absurd (ground arith)
unpacked os dest zipfile (failed _) x e = absurd (ground arith)
unpacked os dest zipfile (ok content) x e = elim (Option-cases (zipfile content)) [
  | inl n ↦ absurd (nothing (rw n at e))
  | inr (infos, n) ↦ (content, infos, refl, found (extract_archive os dest infos) (rw n at e))
]
  where
    nothing : not_zip ≡ from_archive x → ⊥
    nothing q = ground arith

    found : (r : Option Extraction) → extracted r ≡ from_archive x → r ≡ some x
    found none q = absurd (ground arith)
    found (some y) q = ground arith

-- An archive that is imported came from an allowed source; what it
-- wrote is within the cap for extracted data and stands directly in the destination.
pub archive_import_is_safe :
    (w : World) (os : Os) (zipfile : Zipfile) (remote destination : Text) (x : Extraction)
    → download_remote_to_destination w os zipfile none remote destination ≡ from_archive x
    → ((w.exists remote ≡ true) × (w.islink remote ≡ false)
        ⊎ IsAllowed w remote × All (IsAllowed w) (w.opens remote).0)
      × (size x.written ≤ max_extracted_total_bytes)
      × All (λ file. IsInside os (os.realpath destination) file.0) x.written
unfolding download_remote_to_destination
archive_import_is_safe w os zipfile remote destination x e =
    let (content, infos, fetched, done) =
      unpacked os (os.realpath destination) zipfile (fetch_zip_archive w remote) x e in
    let safe = extract_archive_is_safe os (os.realpath destination) infos x done in
    ((fetch_is_safe w remote content fetched).1, safe.0, safe.2)
