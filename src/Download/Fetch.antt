-- ===== src/Download/Fetch.antt =====
-- Loading an archive: `fetch_zip_archive`, `_read_limited` and `_SafeRedirectHandler` of
-- eovpn/utils.py. The file system, `urllib` and `ipaddress` are parameters.
pub mod Limits
use e_ovpn_pro.Base.{
  ℕ, ◌+◌, ◌*◌, Bool, true, false, not, ◌&&◌, Option, none, some, List, [], ◌∷◌, ◌++◌, Text, codes,
  same, all_digits, read_number, length, ltb, if◌then◌else◌,
}
use e_ovpn_pro.Download.Hosts.{Lookup, is_hard_blocked_source_host}

abbrev pub max_zip_download_bytes : ℕ
max_zip_download_bytes = 64 * 1_024 * 1_024

pub data FetchError : Type 0 where
  insecure_source too_large symlink_archive source_not_found unreachable : FetchError

pub data Fetched {ℓ} (A : Type ℓ) : Type ℓ where
  ok : A → Fetched A
  failed : FetchError → Fetched A

-- A response: its `Content-Length` and the chunks that it yields, at most one empty one read.
pub record Response : Type 0 where
  pub content_length : Option Text
  pub chunks : List Text

pub record Url : Type 0 where
  pub scheme : Text
  pub hostname : Text

-- The world that is asked: `opens` gives the redirects that the servers answer with, and the last
-- response, or the failure to reach one.
pub record World : Type 0 where
  pub exists : Text → Bool
  pub islink : Text → Bool
  pub read_file : Text → Text
  pub urlparse : Text → Url
  pub ip_address : Lookup
  pub opens : Text → List Text × Fetched Response

-- the loop that reads the chunks
unfoldable pub read_chunks : ℕ → Text → List Text → Fetched Text
read_chunks total body [] = ok body
read_chunks total body ([] ∷ rest) = ok body
read_chunks total body ((b ∷ chunk) ∷ rest) =
    let total' = total + length (b ∷ chunk) in
    let more = read_chunks total' (body ++ b ∷ chunk) rest in
    if ltb max_zip_download_bytes total' then failed too_large else more

-- a `Content-Length` that is a number above the cap
unfoldable pub announces_too_much : Option Text → Bool
announces_too_much none = false
announces_too_much (some text) = all_digits text && ltb max_zip_download_bytes (read_number text)

-- `_read_limited`
unfoldable pub read_limited : Response → Fetched Text
unfolding read_chunks announces_too_much
read_limited response =
    if announces_too_much response.content_length
    then failed too_large
    else read_chunks 0 [] response.chunks

-- `_SafeRedirectHandler.redirect_request`: whether a redirect is followed
unfoldable pub redirect_request : World → Text → Bool
redirect_request w newurl =
    let parsed = w.urlparse newurl in
    if not (same parsed.scheme (codes "https"))
    then false
    else not (is_hard_blocked_source_host w.ip_address parsed.hostname)

unfoldable pub follow : World → List Text → Fetched Response → Fetched Response
unfolding redirect_request
follow w [] response = response
follow w (newurl ∷ urls) response =
    let rest = follow w urls response in
    if redirect_request w newurl then rest else failed insecure_source

abbrev pub read_response : Fetched Response → Fetched Text
read_response (ok response) = read_limited response
read_response (failed e) = failed e

unfoldable pub fetch_local : World → Text → Fetched Text
fetch_local w src =
    if w.islink src
    then failed symlink_archive
    else if ltb max_zip_download_bytes (length (w.read_file src))
    then failed too_large
    else ok (w.read_file src)

abbrev pub is_empty : Text → Bool
is_empty [] = true
is_empty (_ ∷ _) = false

unfoldable pub fetch_remote : World → Text → Fetched Text
unfolding follow
fetch_remote w src =
    let parsed = w.urlparse src in
    if not (is_empty parsed.scheme) && not (same parsed.scheme (codes "https"))
    then failed insecure_source
    else if is_empty parsed.scheme
    then failed source_not_found
    else if is_hard_blocked_source_host w.ip_address parsed.hostname
    then failed insecure_source
    else read_response (follow w (w.opens src).0 (w.opens src).1)

-- `fetch_zip_archive`, up to the reading of the archive by `zipfile`
unfoldable pub fetch_zip_archive : World → Text → Fetched Text
unfolding fetch_local fetch_remote
fetch_zip_archive w src = if w.exists src then fetch_local w src else fetch_remote w src
