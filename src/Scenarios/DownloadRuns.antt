-- ===== src/Scenarios/DownloadRuns.antt =====
-- Downloads of small archives and folders.
use e_ovpn_pro.Base.{
  ◌≤◌, starts_with, ends_with, lower, insert, true, false, none, some, List, [], ◌∷◌, codes, All,
  same, ◌≡◌, ◌⊎◌, refl,
}
use e_ovpn_pro.Config.Audit.{text_lt}
use e_ovpn_pro.Download.Hosts.{is_hard_blocked_source_host}
use e_ovpn_pro.Download.Fetch.{fetch_zip_archive, World, Response, read_limited, ok}
use e_ovpn_pro.Download.Fetch.Limits.{IsAllowed}
use e_ovpn_pro.Download.Extract.{
  extract_archive, is_ovpn_name, is_cert_name, basename, is_safe_path, Entry, Os, Extraction,
  max_extracted_total_bytes,
}
use e_ovpn_pro.Download.Extract.Safety.{IsInside, size}
use e_ovpn_pro.Download.Folder.{
  total_bytes, counted_size, is_wanted, is_config_name, is_cert_file, Folder, import_folder,
  found_certs, IsCopied, sizes, max_folder_import_total_bytes, import_folder_is_safe,
}
use e_ovpn_pro.Download.Source.{
  download_remote_to_destination, from_archive, archive_import_is_safe,
}

abbrev response : Response
response = record { content_length = none; chunks = codes "PK" ∷ codes "xyz" ∷ [] ∷ codes "q" ∷ [] }

abbrev world : World
world = record {
  exists = λ _. false;
  islink = λ _. false;
  read_file = λ _. [];
  urlparse = λ _. record { scheme = codes "https"; hostname = codes "vpn.example" };
  ip_address = λ _. none;
  opens = λ _. (codes "https://cdn.example/a.zip" ∷ [], ok response);
}

abbrev os : Os
os = record {
  realpath = λ path. path;
  abspath = λ path. path;
  commonpath = λ base path. base;
  can_open = λ _. true;
}

abbrev entries : List Entry
entries =
    record { filename = codes "dir/a.ovpn"; chunks = codes "remote x" ∷ []; broken = false }
    ∷ record { filename = codes "b.ovpn"; chunks = codes "remote y" ∷ []; broken = false }
    ∷ []

abbrev done : Extraction
done = record {
  written = (codes "a.ovpn", codes "remote x") ∷ (codes "b.ovpn", codes "remote y") ∷ [];
  extracted_total = 16;
  seen_names = codes "b.ovpn" ∷ codes "a.ovpn" ∷ [];
  extracted_certs = [];
  zip_bomb_detected = false;
}

accepted_archive :
    download_remote_to_destination world os
      (λ _. some entries)
      none
      (codes "https://vpn.example/a.zip")
      (codes "/d")
    ≡ from_archive done
unfolding download_remote_to_destination fetch_zip_archive same is_hard_blocked_source_host
    starts_with ends_with read_limited extract_archive is_ovpn_name lower is_cert_name basename
    is_safe_path insert
accepted_archive = refl

archive_import_is_safe_example :
    ((false ≡ true) × (false ≡ false)
      ⊎ IsAllowed world (codes "https://vpn.example/a.zip")
        × All (IsAllowed world) (codes "https://cdn.example/a.zip" ∷ []))
    × (size done.written ≤ max_extracted_total_bytes)
    × All (λ file. IsInside os (codes "/d") file.0) done.written
archive_import_is_safe_example =
    archive_import_is_safe world os (λ _. some entries) (codes "https://vpn.example/a.zip")
      (codes "/d") done accepted_archive

abbrev folder : Folder
folder = record {
  listdir = some (codes "b.ovpn" ∷ codes "a.crt" ∷ codes "notes.txt" ∷ []);
  isfile = λ _. true;
  islink = λ _. false;
  getsize = λ _. some 100;
  copy2_works = λ _. true;
}

copied_folder :
    import_folder folder os (codes "/d")
    ≡ found_certs (codes "b.ovpn" ∷ codes "a.crt" ∷ []) (codes "a.crt" ∷ [])
unfolding import_folder total_bytes counted_size is_wanted is_config_name is_cert_file text_lt
    ends_with is_safe_path same
copied_folder = refl

import_folder_is_safe_example :
    All (IsCopied folder os (codes "/d")) (codes "b.ovpn" ∷ codes "a.crt" ∷ [])
    × (sizes folder (codes "b.ovpn" ∷ codes "a.crt" ∷ []) ≤ max_folder_import_total_bytes)
import_folder_is_safe_example =
    import_folder_is_safe folder os (codes "/d") (codes "b.ovpn" ∷ codes "a.crt" ∷ [])
      (codes "a.crt" ∷ []) copied_folder
