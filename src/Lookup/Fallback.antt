-- ===== src/Lookup/Fallback.antt =====
-- What a lookup of eovpn/ip_lookup/lookup.py leaves, whichever provider answers.
use e_ovpn_pro.Base.{
  Bool, true, false, Option, none, some, List, [], ◌∷◌, Text, codes, lookup, is_some, ◌≡◌, refl,
}
use e_ovpn_pro.Lookup.{
  Lookup, Answers, update, try_all, or_next, cloudflare_https, ipapi_co, ipify_https, take_trace,
  take_ipapi, take_ipify, read_trace,
}

abbrev pub unless_empty : Option Text → Option Text
unless_empty none = none
unless_empty (some []) = none
unless_empty (some (c ∷ ip)) = some (c ∷ ip)

-- the address of the trace, where it is not empty
abbrev pub trace_address : Option (List Text) → Option Text
trace_address none = none
trace_address (some lines) = unless_empty (read_trace lines (none, none)).0

-- the address of a JSON answer, which may be empty
abbrev pub json_address : Option (List (Text × Text)) → Option Text
json_address none = none
json_address (some answer) = lookup (codes "ip") answer

abbrev pub or_else : Option Text → Option Text → Option Text
or_else (some ip) other = some ip
or_else none other = other

-- the first address that a provider gives, in their order
abbrev pub address : Answers → Option Text
address a = or_else (trace_address a.trace) (or_else (json_address a.ipapi) (json_address a.ipify))

-- the outcome for an address that was found, or for none
abbrev pub Found : Option Text → Lookup → Lookup × Bool → Type 0
Found none l r = (r.0 ≡ l) × (r.1 ≡ false)
Found (some ip) l r = (r.0.ip ≡ some ip) × (is_some r.0.country_code ≡ true) × (r.1 ≡ true)

module _ (o : Option Text) (next : Lookup → Lookup × Bool)
    (h : (k : Lookup) → Found o k (next k)) where
  cloudflare-Found :
      (trace : Option (List Text)) (l : Lookup)
      → Found (or_else (trace_address trace) o) l (or_next (cloudflare_https trace l) l next)
  unfolding cloudflare_https
  cloudflare-Found none l = h l
  cloudflare-Found (some lines) l = traced (read_trace lines (none, none))
    where
      traced :
          (found : Option Text × Option Text)
          → Found (or_else (unless_empty found.0) o) l (or_next (some (take_trace found l)) l next)
      traced (none, loc) = h l
      traced (some [], loc) = h l
      traced (some (c ∷ ip), loc) = (refl, refl, refl)

  ipapi-Found :
      (answer : Option (List (Text × Text))) (l : Lookup)
      → Found (or_else (json_address answer) o) l (or_next (ipapi_co answer l) l next)
  unfolding ipapi_co
  ipapi-Found none l = h l
  ipapi-Found (some answer) l = answered (lookup (codes "ip") answer)
    where
      answered :
          (ip : Option Text)
          → Found (or_else ip o) l (or_next (some (take_ipapi ip answer l)) l next)
      answered none = h l
      answered (some ip) = (refl, refl, refl)

-- the last provider
ipify-Found :
    (answer : Option (List (Text × Text))) (l : Lookup)
    → Found (json_address answer) l (or_next (ipify_https answer l) l (try_all []))
unfolding ipify_https try_all
ipify-Found none l = (refl, refl)
ipify-Found (some answer) l = answered (lookup (codes "ip") answer)
  where
    answered : (ip : Option Text) → Found ip l (or_next (some (take_ipify ip l)) l (try_all []))
    answered none = (refl, refl)
    answered (some ip) = (refl, refl, refl)

-- A lookup succeeds with the first address that a provider gives, in the order Cloudflare, ipapi.co,
-- ipify, where the address of Cloudflare counts only if it is not empty, and has a country code
-- then; it fails where none of the three gives one, whether they answer or raise, and leaves what it
-- had before.
pub update-Found : (a : Answers) (l : Lookup) → Found (address a) l (update a l)
unfolding update try_all
update-Found a l =
    cloudflare-Found (or_else (json_address a.ipapi) (json_address a.ipify))
      (try_all (ipapi_co a.ipapi ∷ ipify_https a.ipify ∷ []))
      (ipapi-Found (json_address a.ipify) (try_all (ipify_https a.ipify ∷ [])) (ipify-Found a.ipify)
        a.ipapi)
      a.trace l
