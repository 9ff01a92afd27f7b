-- ===== src/Download/Fetch/Limits.antt =====
-- What a download can bring: only from allowed hosts, and never more than the cap.
use mathlib.Core.List.{append_assoc, append-nil}
use e_ovpn_pro.Base.{
  ◌+◌, ◌≤◌, true, false, List, [], ◌∷◌, ◌++◌, Text, codes, length, ltb, if◌then◌else◌, All, ◌≡◌,
  ◌⊎◌, ◌||◌, sym, same_iff, refl, arith, Bool-cases, inl, inr, length-append,
}
use e_ovpn_pro.Download.Hosts.{is_hard_blocked_source_host}
use e_ovpn_pro.Download.Fetch.{
  Fetched, max_zip_download_bytes, ok, failed, too_large, Response, World, read_chunks,
  read_limited, announces_too_much, redirect_request, follow, read_response, fetch_local,
  fetch_remote, fetch_zip_archive,
}

-- a source that may be asked: HTTPS, and no local or private host
abbrev pub IsAllowed : World → Text → Type 0
IsAllowed w url =
    ((w.urlparse url).scheme ≡ codes "https")
    × (is_hard_blocked_source_host w.ip_address (w.urlparse url).hostname ≡ false)

-- all that a response yields before its end
abbrev pub joined : List Text → Text
joined [] = []
joined ([] ∷ rest) = []
joined ((b ∷ chunk) ∷ rest) = (b ∷ chunk) ++ joined rest

read_chunks_lem :
    (read : Text) (chunks : List Text)
    → length read ≤ max_zip_download_bytes
    → read_chunks (length read) read chunks ≡ (
        if ltb max_zip_download_bytes (length (read ++ joined chunks))
        then failed too_large
        else ok (read ++ joined chunks))
unfolding read_chunks
read_chunks_lem read [] h = rw (append-nil read) (ground arith)
read_chunks_lem read ([] ∷ rest) h = rw (append-nil read) (ground arith)
read_chunks_lem read ((b ∷ chunk) ∷ rest) h =
    elim (Bool-cases (ltb max_zip_download_bytes (length read + length (b ∷ chunk)))) [
      | inl e ↦ rw e (
          ground (
            arith,
            length-append {0} read ((b ∷ chunk) ++ joined rest),
            length-append {0} (b ∷ chunk) (joined rest),
          ))
      | inr e ↦
          let size : length (read ++ b ∷ chunk) ≡ length read + length (b ∷ chunk) =
            length-append read (b ∷ chunk) in
          let more = read_chunks_lem (read ++ b ∷ chunk) rest (ground arith) in
          rw (e, sym size, more, append_assoc read (b ∷ chunk) (joined rest)) refl
    ]

-- A response is refused as too large exactly when it announces more than the cap or yields more;
-- else the result is all that it yields before its end.
pub read_limited_lem :
    (r : Response)
    → read_limited r ≡ (
        if announces_too_much r.content_length
          || ltb max_zip_download_bytes (length (joined r.chunks))
        then failed too_large
        else ok (joined r.chunks))
unfolding read_limited
read_limited_lem r = elim (Bool-cases (announces_too_much r.content_length)) [
  | inl e ↦ rw e refl
  | inr e ↦ rw e (read_chunks_lem [] r.chunks (omega arith))
]

read_limited-bound :
    (r : Response) (body : Text) → read_limited r ≡ ok body → length body ≤ max_zip_download_bytes
read_limited-bound r body e = ground (arith, read_limited_lem r)

read_response-bound :
    (r : Fetched Response) (body : Text)
    → read_response r ≡ ok body
    → length body ≤ max_zip_download_bytes
read_response-bound (ok r) body e = read_limited-bound r body e
read_response-bound (failed x) body e = absurd (ground arith)

redirect-IsAllowed : (w : World) (url : Text) → redirect_request w url ≡ true → IsAllowed w url
unfolding redirect_request
redirect-IsAllowed w url h =
    (ground (arith, same_iff (w.urlparse url).scheme (codes "https")), ground arith)

-- the redirects that were followed to a response
follow-All :
    (w : World) (urls : List Text) (r : Fetched Response) (body : Text)
    → read_response (follow w urls r) ≡ ok body
    → All (IsAllowed w) urls × (read_response r ≡ ok body)
unfolding follow
follow-All w [] r body e = (tt, e)
follow-All w (url ∷ urls) r body e = elim (Bool-cases (redirect_request w url)) [
  | inl g ↦
      let later = follow-All w urls r body (rw g at e) in
      ((redirect-IsAllowed w url g, later.0), later.1)
  | inr g ↦ absurd (ground arith)
]

fetch_local-bound :
    (w : World) (src body : Text)
    → fetch_local w src ≡ ok body
    → (w.islink src ≡ false) × (length body ≤ max_zip_download_bytes)
unfolding fetch_local
fetch_local-bound w src body e = (ground arith, ground arith)

fetch_remote-IsAllowed :
    (w : World) (src body : Text)
    → fetch_remote w src ≡ ok body
    → IsAllowed w src × (read_response (follow w (w.opens src).0 (w.opens src).1) ≡ ok body)
unfolding fetch_remote
fetch_remote-IsAllowed w src body e =
    ((ground (arith, same_iff (w.urlparse src).scheme (codes "https")), ground arith), ground arith)

-- What is fetched is never more than the cap. A local archive is no symbolic link; from the network
-- it comes only over HTTPS, and neither the source nor any redirect is a local or private host.
pub fetch_is_safe :
    (w : World) (src body : Text)
    → fetch_zip_archive w src ≡ ok body
    → (length body ≤ max_zip_download_bytes)
      × ((w.exists src ≡ true) × (w.islink src ≡ false)
          ⊎ IsAllowed w src × All (IsAllowed w) (w.opens src).0)
unfolding fetch_zip_archive
fetch_is_safe w src body e = elim (Bool-cases (w.exists src)) [
  | inl g ↦ let found = fetch_local-bound w src body (rw g at e) in (found.1, inl (g, found.0))
  | inr g ↦
      let asked = fetch_remote-IsAllowed w src body (rw g at e) in
      let got = follow-All w (w.opens src).0 (w.opens src).1 body asked.1 in
      (read_response-bound (w.opens src).1 body got.1, inr (asked.0, got.0))
]
