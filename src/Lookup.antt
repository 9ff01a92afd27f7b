-- ===== src/Lookup.antt =====
-- The lookup of the public address, eovpn/ip_lookup/lookup.py. The answers of the providers are
-- parameters: the lines of the trace, the members of the JSON objects, `none` where a request or its
-- reading raises. A member that is no text counts as its `str`.
pub mod Fallback
use e_ovpn_pro.Base.{
  ℕ, ◌+◌, ◌-◌, Bool, true, false, ◌&&◌, ◌||◌, Option, none, some, List, [], ◌∷◌, ◌++◌, map, Text,
  codes, same, lower, strip, lookup, leb, ◌==◌, if◌then◌else◌,
}

pub record Lookup : Type 0 where
  pub ip : Option Text
  pub country : Option Text
  pub country_code : Option Text

abbrev pub new_lookup : Lookup
new_lookup = record { ip = none; country = none; country_code = none }

-- what the three providers answer
pub record Answers : Type 0 where
  pub trace : Option (List Text)
  pub ipapi : Option (List (Text × Text))
  pub ipify : Option (List (Text × Text))

-- `str.upper` on ASCII
abbrev pub upper : Text → Text
upper = map (λ c. if leb b'a' c && leb c b'z' then c - 32 else c)

-- `line.split("=", 1)`, `none` without an equals sign
unfoldable pub split_pair : Text → Text → Option (Text × Text)
split_pair key [] = none
split_pair key (c ∷ rest) =
    let more = split_pair (key ++ c ∷ []) rest in if c == b'=' then some (key, rest) else more

abbrev pub take_pair : Option (Text × Text) → Option Text × Option Text → Option Text × Option Text
take_pair none found = found
take_pair (some (key, value)) (ip, loc) =
    if same (strip key) (codes "ip")
    then (some (strip value), loc)
    else if same (strip key) (codes "loc")
    then (ip, some (lower (strip value)))
    else (ip, loc)

-- the loop over the lines of the trace
unfoldable pub read_trace : List Text → Option Text × Option Text → Option Text × Option Text
unfolding split_pair
read_trace [] found = found
read_trace (line ∷ lines) found = read_trace lines (take_pair (split_pair [] line) found)

abbrev pub is_given : Option Text → Bool
is_given (some (_ ∷ _)) = true
is_given _ = false

abbrev pub given_or : Option Text → Text → Text
given_or (some (c ∷ t)) default = c ∷ t
given_or _ default = default

abbrev pub upper_or : Option Text → Text → Text
upper_or (some (c ∷ t)) default = upper (c ∷ t)
upper_or _ default = default

-- A provider's result: the lookup, and whether it succeeded; `none` where it raises.
abbrev pub Tried : Type 0
Tried = Option (Lookup × Bool)

abbrev pub take_trace : Option Text × Option Text → Lookup → Lookup × Bool
take_trace (some (c ∷ ip), loc) l = (
  record {
    ip = some (c ∷ ip);
    country = some (upper_or loc (codes "Unknown"));
    country_code = some (given_or loc (codes "uno"));
  },
  true,
)
take_trace _ l = (l, false)

-- `cloudflare_https`
unfoldable pub cloudflare_https : Option (List Text) → Lookup → Tried
unfolding read_trace
cloudflare_https none l = none
cloudflare_https (some lines) l = some (take_trace (read_trace lines (none, none)) l)

abbrev pub text_or : Option Text → Text → Text
text_or none default = default
text_or (some t) default = t

abbrev pub take_ipapi : Option Text → List (Text × Text) → Lookup → Lookup × Bool
take_ipapi none answer l = (l, false)
take_ipapi (some ip) answer l = (
  record {
    ip = some ip;
    country = some (text_or (lookup (codes "country_name") answer) (codes "Unknown"));
    country_code = some (lower (text_or (lookup (codes "country_code") answer) (codes "uno")));
  },
  true,
)

-- `ipapi_co`
unfoldable pub ipapi_co : Option (List (Text × Text)) → Lookup → Tried
ipapi_co none l = none
ipapi_co (some answer) l = some (take_ipapi (lookup (codes "ip") answer) answer l)

abbrev pub take_ipify : Option Text → Lookup → Lookup × Bool
take_ipify none l = (l, false)
take_ipify (some ip) l =
    (record l { ip = some ip; country_code = some (given_or l.country_code (codes "uno")) }, true)

-- `ipify_https`
unfoldable pub ipify_https : Option (List (Text × Text)) → Lookup → Tried
ipify_https none l = none
ipify_https (some answer) l = some (take_ipify (lookup (codes "ip") answer) l)

-- the providers in their order
abbrev pub providers : Answers → List (Lookup → Tried)
providers a = cloudflare_https a.trace ∷ ipapi_co a.ipapi ∷ ipify_https a.ipify ∷ []

-- one round of the loop, before the rest of it
abbrev pub or_next : Tried → Lookup → (Lookup → Lookup × Bool) → Lookup × Bool
or_next none l next = next l
or_next (some (l', true)) l next = (l', true)
or_next (some (l', false)) l next = next l'

unfoldable pub try_all : List (Lookup → Tried) → Lookup → Lookup × Bool
try_all [] l = (l, false)
try_all (provider ∷ rest) l = or_next (provider l) l (try_all rest)

-- `update`
unfoldable pub update : Answers → Lookup → Lookup × Bool
unfolding cloudflare_https ipapi_co ipify_https try_all
update a l = try_all (providers a) l
