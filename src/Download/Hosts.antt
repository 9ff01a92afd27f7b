-- ===== src/Download/Hosts.antt =====
-- Which hosts a configuration may come from: `is_private_or_loopback_host` and
-- `is_hard_blocked_source_host` of eovpn/utils.py.
use e_ovpn_pro.Base.{
  Bool, true, false, ◌&&◌, ◌||◌, Option, none, some, [], ◌∷◌, Text, codes, same, starts_with,
  ends_with, if◌then◌else◌,
}

-- What `ipaddress.ip_address` says of an address.
pub record Address : Type 0 where
  pub is_loopback : Bool
  pub is_private : Bool
  pub is_link_local : Bool
  pub is_reserved : Bool

abbrev pub Lookup : Type 0
Lookup = Text → Option Address

unfoldable pub drop_last : Text → Text
drop_last [] = []
drop_last (c ∷ []) = []
drop_last (c ∷ d ∷ s) = c ∷ drop_last (d ∷ s)

-- `host[1:-1]`
unfoldable pub inside : Text → Text
inside [] = []
inside (c ∷ s) = drop_last s

-- the brackets of an IPv6 address taken off
unfoldable pub without_brackets : Text → Text
unfolding inside
without_brackets host =
    if starts_with host (codes "[") && ends_with host (codes "]") then inside host else host

unfoldable pub is_localhost : Text → Bool
is_localhost host = same host (codes "localhost") || same host (codes "localhost.localdomain")

unfoldable pub is_local_name : Text → Bool
is_local_name host = ends_with host (codes ".local") || ends_with host (codes ".localhost")

abbrev pub is_internal : Address → Bool
is_internal a = a.is_loopback || a.is_private || a.is_link_local || a.is_reserved

module _ (ip_address : Lookup) where
  unfoldable pub is_private_or_loopback_host : Text → Bool
  unfolding is_localhost is_local_name without_brackets
  is_private_or_loopback_host [] = false
  is_private_or_loopback_host (c ∷ host) =
      if is_localhost (c ∷ host) then true else elim (ip_address (without_brackets (c ∷ host))) [
        | some a ↦ is_internal a
        | none ↦ is_local_name (without_brackets (c ∷ host))
      ]

  unfoldable pub is_hard_blocked_source_host : Text → Bool
  unfolding is_localhost is_local_name without_brackets
  is_hard_blocked_source_host [] = false
  is_hard_blocked_source_host (c ∷ bracketed) =
      let host = without_brackets (c ∷ bracketed) in
      if is_localhost host
      then true
      else if is_local_name host
      then true
      else elim (ip_address host) [ none ↦ false | some _ ↦ is_private_or_loopback_host host ]
