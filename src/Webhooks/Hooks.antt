-- ===== src/Webhooks/Hooks.antt =====
-- apps/webhooks/hooks.py and registry.py: the registries of transforms, auth schemes, verifiers and
-- challenges, their defaults, and the inbound handlers.
use cwstation.Prelude.{
  ℕ, Bool, true, false, Option, none, some, List, [], ◌∷◌, ◌++◌, Text, codes, text_eq, dict_get,
  if◌then◌else◌,
}
use cwstation.Webhooks.Headers.{Dict, lower}
use cwstation.Webhooks.Model.{WebhookEndpoint, WebhookReceiver, Outside, WebSettings}
use cwstation.Webhooks.Guard.{is_empty, signature_header_value, verify}

pub record Transformed : Type 0 where
  pub body : Text
  pub content_type : Text

pub record OutgoingRequest : Type 0 where
  pub url : Text
  pub body : Text
  pub headers : Dict
  pub event_type : Text

pub record AuthResult : Type 0 where
  pub headers : Dict
  pub params : Dict

-- `none` is an exception.
abbrev pub Transform : Type 0
Transform = ℕ → Option Transformed

abbrev pub Auth : Type 0
Auth = OutgoingRequest → WebhookEndpoint → Option AuthResult

abbrev pub Verifier : Type 0
Verifier = Text → Dict → WebhookReceiver → Option Bool

-- A challenge answers with a response's status, or not (the None inside).
abbrev pub Challenge : Type 0
Challenge = Text → Dict → WebhookReceiver → Option (Option ℕ)

abbrev pub Registry {ℓ} : Type ℓ → Type ℓ
Registry A = List (Text × A)

module _ {ℓ} {A : Type ℓ} where
  abbrev pub is_registered : Text → Registry A → Bool
  is_registered name r = elim (dict_get name r) [ none ↦ false | some f ↦ true ]

  -- The decorators: the first function of a name is kept.
  unfoldable pub register : Text → A → Registry A → Registry A
  register name f r = if is_registered name r then r else r ++ (name, f) ∷ []

  unfoldable pub register_all : Registry A → Registry A → Registry A
  register_all [] r = r
  register_all ((name, f) ∷ more) r = register_all more (register name f r)

  abbrev pub or_default_hook : Registry A → Text → Option A → Option A
  or_default_hook r default none = dict_get default r
  or_default_hook r default (some f) = some f

  -- `_resolve` of `name or default`; `none` is the KeyError.
  unfoldable pub resolve : Registry A → Text → Text → Option A
  resolve r name default =
      or_default_hook r default (dict_get (if is_empty name then default else name) r)

abbrev pub default_transform_name : Text
default_transform_name = codes "smallstack"

-- DEFAULT_AUTH and DEFAULT_VERIFIER
abbrev pub hmac_name : Text
hmac_name = codes "hmac"

abbrev pub signature_header_name : Text
signature_header_name = codes "X-SmallStack-Signature"

-- The value of the first header whose name is the wanted one but for case, or the empty text.
unfoldable pub first_header : Text → Dict → Text
first_header wanted [] = []
first_header wanted ((name, value) ∷ rest) =
    let later = first_header wanted rest in if text_eq (lower name) wanted then value else later

-- What the installed apps register, in the order in which they do.
pub record Hooks : Type 0 where
  pub transforms : Registry Transform
  pub auths : Registry Auth
  pub verifiers : Registry Verifier
  pub challenges : Registry Challenge
  -- an inbound handler's name, and whether it was registered with cascade=True
  pub handlers : Registry Bool

module _ ⦃o : Outside⦄ ⦃s : WebSettings⦄ where
  unfoldable pub default_transform : Transform
  default_transform payload =
      some (record { body = o.dumps payload; content_type = codes "application/json" })

  unfoldable pub default_auth : Auth
  default_auth req ep = some (record {
    headers = (signature_header_name, signature_header_value ep.secret req.body) ∷ [];
    params = [];
  })

  unfoldable pub default_verifier : Verifier
  default_verifier body headers receiver =
      verify receiver.secret body (first_header (lower receiver.signature_header) headers)

  module _ ⦃h : Hooks⦄ where
    -- `register_default_hooks` runs when the module is loaded, before any other.
    unfoldable pub get_transform : Text → Option Transform
    get_transform name =
        resolve (register_all h.transforms (register default_transform_name default_transform []))
          name default_transform_name

    unfoldable pub get_auth : Text → Option Auth
    get_auth name =
        resolve (register_all h.auths (register hmac_name default_auth [])) name hmac_name

    unfoldable pub get_verifier : Text → Option Verifier
    get_verifier name =
        resolve (register_all h.verifiers (register hmac_name default_verifier [])) name hmac_name

module _ ⦃h : Hooks⦄ where
  -- A blank name and an unknown one run no handshake.
  unfoldable pub get_challenge : Text → Option Challenge
  get_challenge name = if is_empty name then none else dict_get name (register_all h.challenges [])

  -- `get_handler` of registry.py with `handler_cascades`.
  unfoldable pub get_handler : Text → Option Bool
  get_handler name = dict_get name (register_all h.handlers [])
