-- ===== src/Webhooks/HeadersAsDict.antt =====
-- A CaseInsensitiveDict is a plain dictionary whose keys are in lower case (apps/webhooks/hooks.py).
use cwstation.Prelude.{
  ◌≡◌, refl, sym, ◌∙◌, ap, Bool, true, false, ◌&&◌, Option, none, some, [], ◌∷◌, Text, text_eq,
  text_eq→eq, text_eq_refl, dict_get, dict_set, Bool-cases, Option-cases, inl, inr, arith, subst,
}
use cwstation.Webhooks.Headers.{
  Dict, lower, fold_get, actual_key, header_get, header_set, header_update,
}

unfoldable pub folded : Dict → Dict
folded [] = []
folded ((k, v) ∷ m) = (lower k, v) ∷ folded m

is_absent : Option Text → Bool
is_absent none = true
is_absent (some v) = false

-- No two keys are the same.
distinct : Dict → Bool
unfolding is_absent
distinct [] = true
distinct ((k, v) ∷ m) = is_absent (dict_get k m) && distinct m

text_eq_self : {a b : Text} → a ≡ b → text_eq a b ≡ true
text_eq_self {a} {b} e = rw e (text_eq_refl b)

text_eq_sym : (a b : Text) → text_eq a b ≡ text_eq b a
text_eq_sym [] [] = refl
text_eq_sym [] (y ∷ b) = refl
text_eq_sym (x ∷ a) [] = refl
text_eq_sym (x ∷ a) (y ∷ b) = ground (arith, text_eq_sym a b)

lower_eq : (j k : Text) → text_eq j k ≡ true → text_eq (lower j) (lower k) ≡ true
lower_eq j k e = text_eq_self (ap lower (text_eq→eq j k e))

-- A key that stands in the dictionary is the only one with its lower case.
dict_get-folded :
    (k v : Text) (m : Dict)
    → distinct (folded m) ≡ true
    → dict_get k m ≡ some v
    → dict_get (lower k) (folded m) ≡ some v
unfolding folded distinct is_absent
dict_get-folded k v [] d e = cc
dict_get-folded k v ((j, w) ∷ m) d e = elim (Bool-cases (text_eq j k)) [
  | inl same ↦ ground (arith, lower_eq j k same)
  | inr other ↦ elim (Bool-cases (text_eq (lower j) (lower k))) [
    | inl alike ↦ ground (arith, text_eq→eq (lower j) (lower k) alike, dict_get-folded k v m)
    | inr apart ↦ ground (arith, dict_get-folded k v m)
  ]
]

fold_get-none : (k : Text) (m : Dict) → fold_get k m ≡ none → dict_get (lower k) (folded m) ≡ none
unfolding fold_get folded
fold_get-none k [] e = refl
fold_get-none k ((j, w) ∷ m) e = elim (Option-cases (fold_get k m)) [
  | inl n ↦ ground (arith, n, fold_get-none k m)
  | inr (i, n) ↦ ground (arith, n)
]

-- The key that the folded index gives is alike, and is a key.
fold_get-some :
    (k i : Text) (m : Dict)
    → fold_get k m ≡ some i
    → (lower i ≡ lower k) × (v : Text) × (dict_get i m ≡ some v)
unfolding fold_get
fold_get-some k i [] e = cc
fold_get-some k i ((j, w) ∷ m) e = elim (Option-cases (fold_get k m)) [
  | inl n ↦ elim (Bool-cases (text_eq (lower j) (lower k))) [
    | inl alike ↦
        let same : j ≡ i = ground (arith, n) in
        subst (λ t. (lower t ≡ lower k) × (v : Text) × (dict_get t ((j, w) ∷ m) ≡ some v)) same
          (text_eq→eq (lower j) (lower k) alike, w, rw (text_eq_refl j) refl)
    | inr apart ↦ ground (arith, n)
  ]
  | inr (h, n) ↦
      let same : h ≡ i = ground (arith, n) in
      let found = fold_get-some k h m n in
      subst (λ t. (lower t ≡ lower k) × (v : Text) × (dict_get t ((j, w) ∷ m) ≡ some v)) same
        (found.0, (kept h (found.1, found.2)).0, (kept h (found.1, found.2)).1)
]
  where
    kept :
        (h : Text)
        → (v : Text) × (dict_get h m ≡ some v)
        → (v : Text) × (dict_get h ((j, w) ∷ m) ≡ some v)
    kept h (v, e) = elim (Bool-cases (text_eq j h)) [
      | inl same ↦ (w, rw same refl)
      | inr other ↦ (v, rw other e)
    ]

-- What `_actual_key` gives.
actual_key-some :
    (k i : Text) (m : Dict)
    → distinct (folded m) ≡ true
    → actual_key k m ≡ some i
    → (lower i ≡ lower k) × (dict_get i m ≡ dict_get (lower i) (folded m))
unfolding actual_key
actual_key-some k i m d e = elim (Option-cases (dict_get k m)) [
  | inl n ↦
      let found = fold_get-some k i m (ground (arith, n)) in
      (found.0, found.2 ∙ sym (dict_get-folded i found.1 m d found.2))
  | inr (v, n) ↦
      let same : k ≡ i = ground (arith, n) in
      subst (λ t. (lower t ≡ lower k) × (dict_get t m ≡ dict_get (lower t) (folded m))) same
        (refl, n ∙ sym (dict_get-folded k v m d n))
]

actual_key-none :
    (k : Text) (m : Dict)
    → actual_key k m ≡ none
    → (dict_get k m ≡ none) × (dict_get (lower k) (folded m) ≡ none)
unfolding actual_key
actual_key-none k m e = elim (Option-cases (dict_get k m)) [
  | inl n ↦ (n, fold_get-none k m (ground (arith, n)))
  | inr (v, n) ↦ ground (arith, n)
]

header_get-folded :
    (k : Text) (m : Dict)
    → distinct (folded m) ≡ true
    → header_get k m ≡ dict_get (lower k) (folded m)
unfolding header_get
header_get-folded k m d = elim (Option-cases (actual_key k m)) [
  | inl n ↦ rw n (sym (actual_key-none k m n).1)
  | inr (i, n) ↦
      let found = actual_key-some k i m d n in
      rw n (found.1 ∙ ap (λ t. dict_get t (folded m)) found.0)
]

-- Replacing the value of a key, or adding a key that is not there in any spelling.
folded-dict_set :
    (k v : Text) (m : Dict)
    → distinct (folded m) ≡ true
    → dict_get k m ≡ dict_get (lower k) (folded m)
    → folded (dict_set k v m) ≡ dict_set (lower k) v (folded m)
unfolding folded distinct is_absent
folded-dict_set k v [] d e = refl
folded-dict_set k v ((j, w) ∷ m) d e = elim (Bool-cases (text_eq j k)) [
  | inl same ↦ rw (same, lower_eq j k same) refl
  | inr other ↦ elim (Bool-cases (text_eq (lower j) (lower k))) [
    | inl alike ↦ elim (Option-cases (dict_get k m)) [
      | inl n ↦ ground (arith, n)
      | inr (x, n) ↦
          ground
            (arith, text_eq→eq (lower j) (lower k) alike, dict_get-folded k x m (ground arith) n)
    ]
    | inr apart ↦
        let rest = folded-dict_set k v m (ground arith) (ground arith) in
        rw (other, apart) (ap (λ t. (lower j, w) ∷ t) rest)
  ]
]

folded-header_set :
    (k v : Text) (m : Dict)
    → distinct (folded m) ≡ true
    → folded (header_set k v m) ≡ dict_set (lower k) v (folded m)
unfolding header_set
folded-header_set k v m d = elim (Option-cases (actual_key k m)) [
  | inl n ↦ let gone = actual_key-none k m n in rw n (folded-dict_set k v m d (gone.0 ∙ sym gone.1))
  | inr (i, n) ↦
      let found = actual_key-some k i m d n in
      rw n (folded-dict_set i v m d found.1 ∙ ap (λ t. dict_set t v (folded m)) found.0)
]

dict_get-set_other :
    (j k v : Text) (m : Dict)
    → text_eq j k ≡ false
    → dict_get j m ≡ none
    → dict_get j (dict_set k v m) ≡ none
dict_get-set_other j k v [] o e = rw (text_eq_sym k j, o) refl
dict_get-set_other j k v ((i, w) ∷ m) o e = elim (Bool-cases (text_eq i k)) [
  | inl same ↦ ground (arith, same, text_eq→eq i k)
  | inr other ↦ ground (arith, other, dict_get-set_other j k v m)
]

distinct-dict_set : (k v : Text) (m : Dict) → distinct m ≡ true → distinct (dict_set k v m) ≡ true
unfolding distinct is_absent
distinct-dict_set k v [] d = refl
distinct-dict_set k v ((j, w) ∷ m) d = elim (Bool-cases (text_eq j k)) [
  | inl same ↦ rw same d
  | inr other ↦ elim (Option-cases (dict_get j m)) [
    | inl n ↦ ground (arith, n, distinct-dict_set k v m, dict_get-set_other j k v m other n)
    | inr (x, n) ↦ ground (arith, n)
  ]
]

distinct-header_set :
    (k v : Text) (m : Dict)
    → distinct (folded m) ≡ true
    → distinct (folded (header_set k v m)) ≡ true
distinct-header_set k v m d =
    rw (folded-header_set k v m d) (distinct-dict_set (lower k) v (folded m) d)

-- The same items, put one by one into a plain dictionary under their names in lower case.
unfoldable pub lower_update : Dict → Dict → Dict
lower_update [] m = m
lower_update ((k, v) ∷ items) m = lower_update items (dict_set (lower k) v m)

folded-header_update :
    (items m : Dict)
    → distinct (folded m) ≡ true
    → (folded (header_update items m) ≡ lower_update items (folded m))
      × (distinct (folded (header_update items m)) ≡ true)
unfolding header_update lower_update
folded-header_update [] m d = (refl, d)
folded-header_update ((k, v) ∷ items) m d =
    let rest = folded-header_update items (header_set k v m) (distinct-header_set k v m d) in
    (rest.0 ∙ ap (lower_update items) (folded-header_set k v m d), rest.1)

-- A CaseInsensitiveDict made of any items, and updated with any others, finds under a name in any
-- spelling what a plain dictionary finds that was made of the same items with their names in lower
-- case: no spelling of a name hides another.
pub header_get-header_update :
    (items others : Dict) (k : Text)
    → header_get k (header_update others (header_update items []))
      ≡ dict_get (lower k) (lower_update others (lower_update items []))
unfolding folded distinct
header_get-header_update items others k =
    let made = folded-header_update items [] refl in
    let updated = folded-header_update others (header_update items []) made.1 in
    header_get-folded k (header_update others (header_update items [])) updated.1
    ∙ ap (dict_get (lower k)) (updated.0 ∙ ap (lower_update others) made.0)
