-- ===== src/Scenarios/ImportRuns.antt =====
-- Imports that succeed, fail, and find a folder that cannot be listed.
use e_ovpn_pro.Base.{true, false, true, false, none, some, [], ◌∷◌, Text, codes, ◌≡◌, ◌⊎◌, refl}
use e_ovpn_pro.Config.Parser.{File}
use e_ovpn_pro.Download.Extract.{Os}
use e_ovpn_pro.Download.Fetch.{World, failed, too_large}
use e_ovpn_pro.Download.Folder.{Folder, found_certs}
use e_ovpn_pro.Download.Source.{
  Downloaded, from_folder, not_zip, Zipfile, download_remote_to_destination,
}
use e_ovpn_pro.Download.Import.{Dirs, Calls, staged, dispatch}
use e_ovpn_pro.Download.Import.Laws.{
  failed_download_keeps, import_outcomes, unreadable_folder_empties,
}

abbrev calls : Calls
calls = record { rmtree = λ d. none; rename_old_works = true; rename_new_works = false }

abbrev working : Calls
working = record calls { rename_new_works = true }

abbrev dirs : Dirs
dirs = record { configs = some (codes "mine.ovpn" ∷ []); staging = none; old = none }

abbrev read : Text → File
read name = some (codes "up /bin/sh" ∷ [])

failed_download_keeps_example :
    ((dispatch calls (codes "/c") read [] not_zip dirs).0.configs ≡ dirs.configs)
    × ((dispatch calls (codes "/c") read [] not_zip dirs).0.old ≡ dirs.old)
    × ((dispatch calls (codes "/c") read [] not_zip dirs).1.failed ≡ true)
failed_download_keeps_example =
    failed_download_keeps calls (codes "/c") read [] not_zip dirs (unfold staged in refl)

abbrev new_files : Downloaded
new_files = from_folder (found_certs (codes "new.ovpn" ∷ []) [])

import_outcomes_example :
    let (after, pending) = dispatch calls (codes "/c") read [] new_files dirs in
    ((after.configs ≡ dirs.configs) × (pending.failed ≡ true) × (false ≡ false))
    ⊎ (after.configs ≡ some (codes "new.ovpn" ∷ [])) × (pending.failed ≡ false) × (false ≡ true)
    ⊎ (after.configs ≡ none)
      × (after.old ≡ dirs.configs)
      × (pending.failed ≡ true)
      × (true ≡ true)
      × (false ≡ false)
import_outcomes_example =
    import_outcomes calls (codes "/c") read [] new_files (codes "new.ovpn" ∷ []) [] dirs
      (unfold staged in refl)

abbrev folder : Folder
folder = record {
  listdir = none;
  isfile = λ _. true;
  islink = λ _. false;
  getsize = λ _. none;
  copy2_works = λ _. true;
}

abbrev world : World
world = record {
  exists = λ _. true;
  islink = λ _. false;
  read_file = λ _. [];
  urlparse = λ _. record { scheme = []; hostname = [] };
  ip_address = λ _. none;
  opens = λ _. ([], failed too_large);
}

abbrev os : Os
os = record {
  realpath = λ path. path;
  abspath = λ path. path;
  commonpath = λ base path. base;
  can_open = λ _. true;
}

abbrev zipfile : Zipfile
zipfile content = none

abbrev result : Dirs
result = record { configs = some []; staging = none; old = none }

unreadable_folder_empties_example :
    ((dispatch working
        (codes "/c")
        read
        []
        (download_remote_to_destination world os zipfile (some folder) (codes "/f") (codes "/s"))
        dirs).0
      ≡ result)
    × ((dispatch working
          (codes "/c")
          read
          []
          (download_remote_to_destination world os zipfile (some folder) (codes "/f") (codes "/s"))
          dirs).1.failed
        ≡ false)
unreadable_folder_empties_example =
    unreadable_folder_empties working (codes "/c") read [] world os zipfile folder (codes "/f")
      (codes "/s") dirs refl (λ d. refl) refl refl
