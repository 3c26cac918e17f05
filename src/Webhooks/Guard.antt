-- ===== src/Webhooks/Guard.antt =====
-- apps/webhooks/services.py and context.py: signatures, the guard against private targets, event
-- patterns and the origin that a delivery carries. Texts are ASCII but for those that are compared
-- with a signature.
use cwstation.Prelude.{
  ℕ, Bool, true, false, not, ◌&&◌, ◌||◌, Option, none, some, List, [], ◌∷◌, ◌++◌, map, Text, codes,
  text_eq, to_lower, ltb, ◌==◌, if◌then◌else◌, strip, any_where, all_where,
}
use cwstation.Webhooks.Model.{
  WebhookEndpoint, Refusal, not_http, no_host, not_in_allowlist, private_address, UrlParts, Flags,
  Address, Outside, WebSettings,
}

abbrev pub is_empty : Text → Bool
is_empty [] = true
is_empty (c ∷ rest) = false

-- `str.startswith`: what follows the prefix.
abbrev pub after_prefix : Text → Text → Option Text
after_prefix [] s = some s
after_prefix (c ∷ p) [] = none
after_prefix (c ∷ p) (d ∷ s) = let rest = after_prefix p s in if c == d then rest else none

abbrev pub has_prefix : Text → Text → Bool
has_prefix p s = elim (after_prefix p s) [ none ↦ false | some rest ↦ true ]

unfoldable pub ends_with : Text → Text → Bool
ends_with p [] = text_eq p []
ends_with p (c ∷ s) = let rest = ends_with p s in text_eq p (c ∷ s) || rest

abbrev pub signature_prefix : Text
signature_prefix = codes "sha256="

-- `hmac.compare_digest` on texts: it raises on one that is not ASCII.
abbrev pub compare_digest : Text → Text → Option Bool
compare_digest a b =
    if all_where (λ c. ltb c 128) a && all_where (λ c. ltb c 128) b
    then some (text_eq a b)
    else none

abbrev pub candidate_of : Text → Text
candidate_of provided = elim (after_prefix signature_prefix provided) [
  | none ↦ provided
  | some rest ↦ rest
]

-- The answers of `url_is_allowed`, one of them an exception.
pub data Verdict : Type 0 where
  allowed : Verdict
  refused : Refusal → Verdict
  raises : Verdict

abbrev pub flagged : Flags → Bool
flagged f =
    f.is_private
    || (f.is_loopback
        || (f.is_link_local || (f.is_reserved || (f.is_multicast || f.is_unspecified))))

abbrev pub mapped_flags : Address → Flags
mapped_flags a = elim a.ipv4_mapped [ none ↦ a.flags | some f ↦ f ]

-- `ip.split("%", 1)[0]`
unfoldable pub before_zone : Text → Text
before_zone [] = []
before_zone (c ∷ rest) = if c == b'%' then [] else c ∷ before_zone rest

abbrev drop_slashes : Text → Text
drop_slashes [] = []
drop_slashes (c ∷ rest) = let tail = drop_slashes rest in if c == b'/' then tail else c ∷ rest

abbrev drop_slashes_end : Text → Text
drop_slashes_end [] = []
drop_slashes_end (c ∷ rest) =
    let tail = drop_slashes_end rest in
    elim tail [ [] ↦ if c == b'/' then [] else c ∷ [] | d ∷ t ↦ c ∷ d ∷ t ]

-- `path.strip("/")`
unfoldable pub strip_slashes : Text → Text
strip_slashes t = drop_slashes_end (drop_slashes t)

abbrev pub default_port : UrlParts → ℕ
default_port p = if text_eq p.scheme (codes "https") then 443 else 80

-- `parts.port or …`: a port 0 counts as none.
abbrev pub port_of : UrlParts → ℕ
port_of p = elim p.port [ none ↦ default_port p | some n ↦ if n == 0 then default_port p else n ]

abbrev pub is_http : UrlParts → Bool
is_http p = text_eq p.scheme (codes "http") || text_eq p.scheme (codes "https")

-- The host is the entry of the allowlist, or under it.
abbrev pub under : Text → Text → Bool
under host a = text_eq host a || ends_with (b'.' ∷ a) host

module _ ⦃o : Outside⦄ ⦃s : WebSettings⦄ where
  unfoldable pub sign : Text → Text → Text
  sign secret body = o.hmac_sha256 secret body

  unfoldable pub signature_header_value : Text → Text → Text
  signature_header_value secret body = signature_prefix ++ sign secret body

  -- `none` where `compare_digest` raises.
  unfoldable pub verify : Text → Text → Text → Option Bool
  verify secret body provided =
      if is_empty provided || is_empty secret
      then some false
      else compare_digest (sign secret body) (strip (candidate_of provided))

  abbrev blocked_address : Option Address → Bool
  blocked_address none = false
  blocked_address (some a) = flagged (mapped_flags a)

  unfoldable pub ip_is_blocked : Text → Bool
  ip_is_blocked ip = blocked_address (o.ip_address (before_zone ip))

  unfoldable pub check_addresses : List Text → Verdict
  check_addresses [] = allowed
  check_addresses (ip ∷ rest) =
      let later = check_addresses rest in
      if ip_is_blocked ip then refused (private_address ip) else later

  abbrev pub check_resolved : Option (List Text) → Verdict
  check_resolved none = allowed
  check_resolved (some ips) = check_addresses ips

  abbrev in_allowlist : UrlParts → Bool
  in_allowlist p = any_where (under (map to_lower p.hostname)) s.allowlist

  abbrev has_allowlist : List Text → Bool
  has_allowlist [] = false
  has_allowlist (a ∷ rest) = true

  abbrev pub check_parts : Option UrlParts → Verdict
  check_parts none = raises
  check_parts (some p) =
      if not (is_http p)
      then refused not_http
      else if is_empty p.hostname
      then refused no_host
      else if has_allowlist s.allowlist && not (in_allowlist p)
      then refused not_in_allowlist
      else if s.allow_private
      then allowed
      else check_resolved (o.getaddrinfo p.hostname (port_of p))

  unfoldable pub url_is_allowed : Text → Verdict
  url_is_allowed url = check_parts (o.urlsplit url)

  -- WebhookEndpoint.matches
  unfoldable pub matches_event : WebhookEndpoint → Text → Bool
  matches_event ep event_type = any_where (o.fnmatch event_type) ep.event_filter

  abbrev origin_parts : Option UrlParts → Option (Option Text)
  origin_parts none = none
  origin_parts (some p) =
      if not (is_empty p.scheme) && not (is_empty p.netloc)
      then some (some (p.scheme ++ codes "://" ++ p.netloc))
      else if not (is_empty p.path)
      then some (some (strip_slashes p.path))
      else some none

  -- The first of the settings that names a host; outside, `none` where `urlsplit` raises.
  unfoldable pub site_origin : List Text → Option Text
  site_origin [] = some o.gethostname
  site_origin (site ∷ rest) =
      let later = site_origin rest in
      if is_empty site then later else elim (origin_parts (o.urlsplit site)) [
        | none ↦ none
        | some none ↦ later
        | some (some origin) ↦ some origin
      ]

  unfoldable pub current_origin : Option Text
  current_origin = if is_empty s.origin then site_origin s.site_urls else some (strip s.origin)

  -- True for an origin that is an absolute URL.
  unfoldable pub origin_is_configured : Option Bool
  origin_is_configured = elim current_origin [
    | none ↦ none
    | some origin ↦
        some (has_prefix (codes "http://") origin || has_prefix (codes "https://") origin)
  ]
