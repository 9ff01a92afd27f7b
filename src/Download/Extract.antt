-- ===== src/Download/Extract.antt =====
-- The extraction of an archive into the destination, in `download_remote_to_destination` of
-- eovpn/utils.py. `zipfile` gives the entries, `os` the paths and what can be opened.
pub mod Safety
use e_ovpn_pro.Base.{
  ℕ, zero, suc, ◌+◌, ◌*◌, Bool, true, false, not, ◌&&◌, ◌||◌, Option, none, some, List, [], ◌∷◌,
  ◌++◌, Text, codes, same, lower, ends_with, is_prefix, insert, any, length, ltb, leb, ◌==◌,
  if◌then◌else◌,
}

abbrev pub max_extracted_total_bytes : ℕ
max_extracted_total_bytes = 256 * 1_024 * 1_024

abbrev pub max_zip_entries : ℕ
max_zip_entries = 20_000

-- An entry: the chunks that reading it yields, and whether the reading then fails.
pub record Entry : Type 0 where
  pub filename : Text
  pub chunks : List Text
  pub broken : Bool

pub record Os : Type 0 where
  pub realpath : Text → Text
  pub abspath : Text → Text
  pub commonpath : Text → Text → Text
  pub can_open : Text → Bool

-- `ovpn_regex.search`: the end of the name, or a line feed that ends it
unfoldable pub is_ovpn_name : Text → Bool
is_ovpn_name name =
    ends_with (lower name) (codes ".ovpn") || ends_with (lower name) (codes ".ovpn" ++ 10 ∷ [])

-- `(?:$|[\W_])` of ASCII
unfoldable pub at_boundary : Text → Bool
at_boundary [] = true
at_boundary (c ∷ s) =
    not (leb b'a' c && leb c b'z' || leb b'A' c && leb c b'Z' || leb b'0' c && leb c b'9')

unfoldable pub drop : ℕ → Text → Text
drop zero s = s
drop (suc n) [] = []
drop (suc n) (c ∷ s) = drop n s

-- the regular expression for certificates, at one place of a name in lower case
unfoldable pub cert_here : Text → Bool
unfolding at_boundary drop
cert_here s =
    (is_prefix (codes ".crt") s || is_prefix (codes ".pem") s || is_prefix (codes "cert") s)
      && at_boundary (drop 4 s)
    || is_prefix (codes ".ca") s && at_boundary (drop 3 s)

unfoldable pub cert_anywhere : Text → Bool
unfolding cert_here
cert_anywhere [] = false
cert_anywhere (c ∷ s) = cert_here (c ∷ s) || cert_anywhere s

-- `crt_regex.search`
unfoldable pub is_cert_name : Text → Bool
unfolding cert_anywhere
is_cert_name name = cert_anywhere (lower name)

unfoldable pub basename_from : Text → Text → Text
basename_from name [] = name
basename_from name (c ∷ path) = basename_from (if c == b'/' then [] else name ++ c ∷ []) path

-- `os.path.basename`: what stands after the last slash
unfoldable pub basename : Text → Text
unfolding basename_from
basename = basename_from []

-- `os.path.join` with a name that has no slash
unfoldable pub join_path : Text → Text → Text
join_path dir name = if ends_with dir (codes "/") then dir ++ name else dir ++ b'/' ∷ name

-- `is_safe_path`
unfoldable pub is_safe_path : Os → Text → Text → Bool → Bool
is_safe_path os base_dir path follow_symlinks =
    let base = os.realpath base_dir in
    let matchpath = if follow_symlinks then os.realpath path else os.abspath path in
    same (os.commonpath base matchpath) base

-- The state of the loop over the entries: what it has written into the destination, by name.
pub record Extraction : Type 0 where
  pub written : List (Text × Text)
  pub extracted_total : ℕ
  pub seen_names : List Text
  pub extracted_certs : List Text
  pub zip_bomb_detected : Bool

pub record Copied : Type 0 where
  pub total : ℕ
  pub content : Text
  pub bomb : Bool

-- the loop that copies the chunks of an entry
unfoldable pub copy_chunks : ℕ → Text → List Text → Copied
copy_chunks total content [] = record { total = total; content = content; bomb = false }
copy_chunks total content ([] ∷ _) = record { total = total; content = content; bomb = false }
copy_chunks total content ((b ∷ chunk) ∷ rest) =
    let total' = total + length (b ∷ chunk) in
    let content' = content ++ b ∷ chunk in
    let more = copy_chunks total' content' rest in
    if ltb max_extracted_total_bytes total'
    then record { total = total'; content = content'; bomb = true }
    else more

-- What becomes of an entry whose output is open; a file that fails on the way is removed.
unfoldable pub store_entry : Text → Bool → Copied → Extraction → Extraction
store_entry name broken copied x =
    let counted = record x { extracted_total = copied.total } in
    let kept = record counted { written = insert name copied.content x.written } in
    if copied.bomb
    then record kept { zip_bomb_detected = true }
    else if broken
    then counted
    else if is_cert_name name
    then record kept { extracted_certs = x.extracted_certs ++ name ∷ [] }
    else kept

unfoldable pub extract_named : Os → Text → Entry → Text → Extraction → Extraction
unfolding store_entry copy_chunks
extract_named os destination entry name x =
    let target_path = join_path destination name in
    let noted = record x { seen_names = name ∷ x.seen_names } in
    let stored =
      store_entry name entry.broken (copy_chunks x.extracted_total [] entry.chunks) noted in
    if any (same name) x.seen_names
    then x
    else if not (is_safe_path os destination target_path true)
    then noted
    else if not (os.can_open target_path)
    then noted
    else stored

-- the body of the loop over the entries
unfoldable pub extract_entry : Os → Text → Entry → Text → Extraction → Extraction
unfolding extract_named
extract_entry os destination entry [] x = x
extract_entry os destination entry (c ∷ name) x = extract_named os destination entry (c ∷ name) x

-- the loop, which a zip bomb breaks
unfoldable pub extract_all : Os → Text → List Entry → Extraction → Extraction
unfolding extract_entry
extract_all os destination [] x = x
extract_all os destination (entry ∷ entries) x =
    let next = extract_entry os destination entry (basename entry.filename) x in
    extract_all os destination entries (if x.zip_bomb_detected then x else next)

unfoldable pub matching : (Text → Bool) → List Entry → List Entry
matching test [] = []
matching test (e ∷ entries) =
    let rest = matching test entries in if test e.filename then e ∷ rest else rest

abbrev pub fresh : Extraction
fresh = record {
  written = [];
  extracted_total = 0;
  seen_names = [];
  extracted_certs = [];
  zip_bomb_detected = false;
}

-- The archive branch: the final state, or `none` for the `NotZipException`.
unfoldable pub extract_archive : Os → Text → List Entry → Option Extraction
unfolding extract_all matching
extract_archive os destination infos =
    let configs = matching is_ovpn_name infos in
    let certs = matching is_cert_name infos in
    let done = extract_all os destination (configs ++ certs) fresh in
    if ltb max_zip_entries (length infos)
    then none
    else if done.zip_bomb_detected
    then none
    else some done
