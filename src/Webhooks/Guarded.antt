-- ===== src/Webhooks/Guarded.antt =====
-- What leaves the machine, and under which signature (apps/webhooks/services.py and tasks.py).
use cwstation.Prelude.{
  ◌≡◌, refl, ap, ◌∙◌, subst, Bool, true, false, not, ◌&&◌, Option, none, some, [], ◌∷◌, ◌++◌, Text,
  dict_get, dict_set, all_where, Bool-cases, Option-cases, inl, inr, arith,
}
use cwstation.Webhooks.Model.{WebhookEndpoint, WebhookDelivery, Outside, WebSettings}
use cwstation.Webhooks.Headers.{Dict}
use cwstation.Webhooks.Guard.{
  current_origin, is_empty, Verdict, allowed, url_is_allowed, signature_header_value, verify,
}
use cwstation.Webhooks.Hooks.{
  or_default_hook, Transform, Registry, register, register_all, is_registered, resolve, hmac_name,
  Hooks, Transformed, default_auth, get_auth, get_transform, signature_header_name,
}
use cwstation.Webhooks.Send.{
  request_of, authorise_by, built_by, base_headers, transformed, Request, Sent, to_proxy, to_peer,
  build_request, peer_is_blocked, add_static, dict_update, target_with, add_headers,
}
use cwstation.Webhooks.Wire.{
  wire_signature_name, carries, is_apart, get_set, get-becomes, add_static-carries,
  add_headers-carried, base_headers-carries,
}
use cwstation.Webhooks.Verified.{HexDigest, verify-signature_header_value}

abbrev is_allowed : Verdict → Bool
is_allowed allowed = true
is_allowed _ = false

module _ ⦃o : Outside⦄ ⦃s : WebSettings⦄ where
  -- A request that has left went to an allowed URL, and to an address that is not blocked.
  abbrev pub sent_rightly : Sent → Bool
  sent_rightly (to_proxy req) = is_allowed (url_is_allowed req.url)
  sent_rightly (to_peer peer req) =
      is_allowed (url_is_allowed req.url) && not (peer_is_blocked peer)

get_kept :
    (k v j w : Text) (m : Dict)
    → dict_get k m ≡ some v
    → dict_get j m ≡ none
    → dict_get k (dict_set j w m) ≡ some v
get_kept k v j w [] e f = cc
get_kept k v j w ((i, x) ∷ m) e f = ground (arith, get_kept k v j w m)

add_static_kept :
    (k v : Text) (statics m : Dict)
    → dict_get k m ≡ some v
    → dict_get k (add_static statics m) ≡ some v
unfolding add_static
add_static_kept k v [] m e = e
add_static_kept k v ((j, w) ∷ statics) m e = elim (Option-cases (dict_get j m)) [
  | inl n ↦ rw n (add_static_kept k v statics (dict_set j w m) (get_kept k v j w m e n))
  | inr (x, n) ↦ rw n (add_static_kept k v statics m e)
]

get_appended {ℓ} :
    {A : Type ℓ} (k : Text) (f : A) (r more : Registry A)
    → dict_get k r ≡ some f
    → dict_get k (r ++ more) ≡ some f
get_appended k f [] more e = cc
get_appended k f ((j, g) ∷ r) more e = ground (arith, get_appended k f r more)

-- What is registered under a name first stays.
register_all_kept {ℓ} :
    {A : Type ℓ} (k : Text) (f : A) (more r : Registry A)
    → dict_get k r ≡ some f
    → dict_get k (register_all more r) ≡ some f
unfolding register_all register
register_all_kept k f [] r e = e
register_all_kept k f ((j, g) ∷ more) r e = elim (Bool-cases (is_registered j r)) [
  | inl y ↦ rw y (register_all_kept k f more r e)
  | inr n ↦
      rw n (register_all_kept k f more (r ++ (j, g) ∷ []) (get_appended k f r ((j, g) ∷ []) e))
]

-- A request that the default auth scheme signs.
unfoldable pub Signed : Outside → WebSettings → WebhookEndpoint → Request → Type 0
Signed o s ep req =
    (value : Text) × (dict_get wire_signature_name req.headers ≡ some value)
    × (verify ⦃o = o⦄ ⦃s = s⦄ ep.secret req.body value ≡ some true)

module _ ⦃o : Outside⦄ ⦃s : WebSettings⦄ ⦃h : Hooks⦄ where
  -- The headers before urllib takes them.
  abbrev signed_headers : WebhookEndpoint → Text → Dict → Dict
  signed_headers ep value headers =
      add_static ep.headers (dict_set signature_header_name value headers)

  signed_headers-wire :
      (ep : WebhookEndpoint) (value : Text) (headers : Dict)
      → all_where is_apart ep.headers ≡ true
      → carries value (dict_set signature_header_name value headers) ≡ true
      → dict_get wire_signature_name (add_headers (signed_headers ep value headers) []) ≡ some value
  signed_headers-wire ep value headers apart only =
      let base = dict_set signature_header_name value headers in
      let there = get_set signature_header_name value headers in
      add_headers-carried value (signed_headers ep value headers) []
        (add_static-carries value ep.headers base apart there only)
        (get-becomes value (signed_headers ep value headers)
          (add_static_kept signature_header_name value ep.headers base there))

  request_of-Signed :
      HexDigest o
      → (ep : WebhookEndpoint) (body : Text) (headers : Dict) (url : Option Text) (req : Request)
      → is_empty ep.secret ≡ false
      → all_where is_apart ep.headers ≡ true
      → ((v : Text) → carries v (dict_set signature_header_name v headers) ≡ true)
      → request_of ep body headers
          (record {
            headers = (signature_header_name, signature_header_value ep.secret body) ∷ [];
            params = [];
          })
          url
        ≡ some req
      → Signed o s ep req
  unfolding Signed dict_update
  request_of-Signed hex ep body headers none req full apart only e = cc
  request_of-Signed hex ep body headers (some url) req full apart only e =
      let value : Text = signature_header_value ep.secret body in
      let made : Request = record {
        url = url;
        body = body;
        headers = add_headers (signed_headers ep value headers) [];
      } in
      let same : made ≡ req = ground arith in
      subst (λ r. Signed o s ep r) same
        (
          value,
          signed_headers-wire ep value headers apart (only value),
          verify-signature_header_value hex ep.secret body full,
        )

  -- No app takes the place of the default scheme.
  get_auth-hmac_name : get_auth hmac_name ≡ some default_auth
  unfolding get_auth resolve register
  get_auth-hmac_name =
      ap (or_default_hook (register_all h.auths ((hmac_name, default_auth) ∷ [])) hmac_name)
        (register_all_kept hmac_name default_auth h.auths ((hmac_name, default_auth) ∷ []) refl)

  -- Each request that urllib is given for an endpoint with the default auth scheme carries, under the
  -- capitalized name, a signature header whose value verifies against the body of that request under
  -- the endpoint's secret, whatever hooks the apps register, if the secret is not empty, hex digests are
  -- ASCII without blanks, and no static header of the endpoint has the signature's name in other upper
  -- and lower case (such a header would take its place).
  pub build_request-verify :
      HexDigest o
      → (d : WebhookDelivery) (ep : WebhookEndpoint) (req : Request) → ep.auth_scheme ≡ hmac_name
      → is_empty ep.secret ≡ false
      → all_where is_apart ep.headers ≡ true
      → build_request d ep ≡ some req
      → (value : Text) × (dict_get wire_signature_name req.headers ≡ some value)
        × (verify ep.secret req.body value ≡ some true)
  unfolding build_request Signed default_auth target_with
  build_request-verify hex d ep req scheme full apart e =
      from_transform (get_transform ep.transform) e
    where
      by_default :
          (body : Text) (headers : Dict)
          → ((v : Text) → carries v (dict_set signature_header_name v headers) ≡ true)
          → authorise_by d ep body headers (some default_auth) ≡ some req
          → Signed o s ep req
      by_default body headers only e =
          request_of-Signed hex ep body headers (some ep.target_url) req full apart only e

      from_url :
          (body : Text) (headers : Dict)
          → ((v : Text) → carries v (dict_set signature_header_name v headers) ≡ true)
          → authorise_by d ep body headers (get_auth ep.auth_scheme) ≡ some req
          → Signed o s ep req
      from_url body headers only e = by_default body headers only (
          subst (λ f. authorise_by d ep body headers f ≡ some req)
            (ap get_auth scheme ∙ get_auth-hmac_name) e)

      from_body :
          (origin : Option Text) (t : Option Transformed)
          → transformed d ep origin t ≡ some req
          → Signed o s ep req
      from_body origin none e = cc
      from_body none (some t) e = cc
      from_body (some origin) (some t) e =
          from_url t.body (base_headers t d origin) (λ v. base_headers-carries v t d origin) e

      from_transform : (t : Option Transform) → built_by d ep t ≡ some req → Signed o s ep req
      from_transform none e = cc
      from_transform (some transform) e = from_body current_origin (transform d.payload) e
