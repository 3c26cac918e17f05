-- ===== src/Webhooks/Wire.antt =====
-- Which headers survive in a request of urllib, which capitalizes their names
-- (apps/webhooks/tasks.py).
use cwstation.Prelude.{
  if◌then◌else◌, ◌≡◌, refl, ap, ◌∙◌, Bool, true, false, not, ◌||◌, Option, none, some, [], ◌∷◌,
  Text, codes, text_eq, text_eq→eq, text_eq_refl, dict_get, dict_set, all_where, any_where,
  Bool-cases, Option-cases, inl, inr, arith,
}
use cwstation.Webhooks.Model.{WebhookDelivery}
use cwstation.Webhooks.Headers.{Dict}
use cwstation.Webhooks.Hooks.{Transformed, signature_header_name}
use cwstation.Webhooks.Send.{capitalize, add_headers, add_static, base_headers}

-- The name under which the signature leaves.
abbrev pub wire_signature_name : Text
wire_signature_name = codes "X-smallstack-signature"

abbrev becomes_signature : Text → Bool
becomes_signature k = text_eq (capitalize k) wire_signature_name

-- No other value goes out under the signature's name.
abbrev pub carries : Text → Dict → Bool
carries v m = all_where (λ e. not (becomes_signature e.0) || text_eq e.1 v) m

-- A static header whose name is not another spelling of the signature's.
abbrev pub is_apart : Text × Text → Bool
is_apart e = text_eq e.0 signature_header_name || not (becomes_signature e.0)

pub get_set : (k v : Text) (m : Dict) → dict_get k (dict_set k v m) ≡ some v
get_set k v [] = rw (text_eq_refl k) refl
get_set k v ((i, x) ∷ m) = elim (Bool-cases (text_eq i k)) [
  | inl e ↦ ground (arith, e)
  | inr n ↦ ground (arith, n, get_set k v m)
]

get_other :
    (k j w : Text) (m : Dict) → text_eq j k ≡ false → dict_get k (dict_set j w m) ≡ dict_get k m
get_other k j w [] n = rw n refl
get_other k j w ((i, x) ∷ m) n = elim (Bool-cases (text_eq i j)) [
  | inl e ↦ rw (text_eq→eq i j e, text_eq_refl j, n) refl
  | inr f ↦ rw f (ap (λ o. if text_eq i k then some x else o) (get_other k j w m n))
]

set-carries :
    (v k w : Text) (m : Dict)
    → becomes_signature k ≡ false
    → carries v m ≡ true
    → carries v (dict_set k w m) ≡ true
set-carries v k w [] n h = ground arith
set-carries v k w ((i, x) ∷ m) n h = elim (Bool-cases (text_eq i k)) [
  | inl e ↦
      let other : becomes_signature i ≡ false = rw (text_eq→eq i k e) n in ground (arith, e, other)
  | inr f ↦ ground (arith, f, set-carries v k w m n)
]

pub get-becomes :
    (v : Text) (m : Dict)
    → dict_get signature_header_name m ≡ some v
    → any_where (λ e. becomes_signature e.0) m ≡ true
unfolding capitalize
get-becomes v [] h = cc
get-becomes v ((i, x) ∷ m) h = elim (Bool-cases (text_eq i signature_header_name)) [
  | inl e ↦ rw (text_eq→eq i signature_header_name e) refl
  | inr f ↦ ground (arith, f, get-becomes v m)
]

-- Static headers go in under other names, or not at all.
pub add_static-carries :
    (v : Text) (statics m : Dict)
    → all_where is_apart statics ≡ true
    → dict_get signature_header_name m ≡ some v
    → carries v m ≡ true
    → carries v (add_static statics m) ≡ true
unfolding add_static
add_static-carries v [] m a g h = h
add_static-carries v ((k, w) ∷ rest) m a g h = elim (Option-cases (dict_get k m)) [
  | inr (x, e) ↦ rw e (add_static-carries v rest m (ground arith) g h)
  | inl e ↦ elim (Bool-cases (text_eq k signature_header_name)) [
    | inl same ↦
        let there : dict_get k m ≡ some v = rw (text_eq→eq k signature_header_name same) g in cc
    | inr other ↦ rw e (
        add_static-carries v rest (dict_set k w m) (ground arith)
          (get_other signature_header_name k w m other ∙ g) (set-carries v k w m (ground arith) h))
  ]
]

add_headers-kept :
    (v : Text) (hs m : Dict)
    → carries v hs ≡ true
    → dict_get wire_signature_name m ≡ some v
    → dict_get wire_signature_name (add_headers hs m) ≡ some v
unfolding add_headers
add_headers-kept v [] m c g = g
add_headers-kept v ((k, w) ∷ hs) m c g = elim (Bool-cases (becomes_signature k)) [
  | inl e ↦
      let value : text_eq w v ≡ true = ground arith in
      add_headers-kept v hs (dict_set (capitalize k) w m) (ground arith) (
        rw (text_eq→eq (capitalize k) wire_signature_name e, text_eq→eq w v value)
          (get_set wire_signature_name v m))
  | inr n ↦
      add_headers-kept v hs (dict_set (capitalize k) w m) (ground arith)
        (get_other wire_signature_name (capitalize k) w m n ∙ g)
]

-- A value that is there and that no other contradicts goes out.
pub add_headers-carried :
    (v : Text) (hs m : Dict)
    → carries v hs ≡ true
    → any_where (λ e. becomes_signature e.0) hs ≡ true
    → dict_get wire_signature_name (add_headers hs m) ≡ some v
unfolding add_headers
add_headers-carried v [] m c a = cc
add_headers-carried v ((k, w) ∷ hs) m c a = elim (Bool-cases (becomes_signature k)) [
  | inl e ↦
      let value : text_eq w v ≡ true = ground arith in
      add_headers-kept v hs (dict_set (capitalize k) w m) (ground arith) (
        rw (text_eq→eq (capitalize k) wire_signature_name e, text_eq→eq w v value)
          (get_set wire_signature_name v m))
  | inr n ↦
      add_headers-carried v hs (dict_set (capitalize k) w m) (ground arith) (ground (arith, n))
]

pub base_headers-carries :
    (v : Text) (t : Transformed) (d : WebhookDelivery) (origin : Text)
    → carries v (dict_set signature_header_name v (base_headers t d origin)) ≡ true
unfolding base_headers capitalize
base_headers-carries v t d origin = by_id d.event_id
  where
    by_id :
        (id : Option Text)
        → carries v
            (dict_set signature_header_name v (base_headers t (record d { event_id = id }) origin))
          ≡ true
    by_id none = rw (text_eq_refl v) refl
    by_id (some i) = rw (text_eq_refl v) refl
