-- ===== src/Webhooks/Headers.antt =====
-- CaseInsensitiveDict of apps/webhooks/hooks.py: a dictionary whose keys keep their spelling and are
-- looked up without regard to case. Names are ASCII.
use cwstation.Prelude.{
  Bool, true, false, Option, none, some, List, [], ◌∷◌, map, Text, text_eq, to_lower, dict_get,
  dict_set, if◌then◌else◌,
}

abbrev pub Dict : Type 0
Dict = List (Text × Text)

abbrev pub lower : Text → Text
lower s = map to_lower s

-- `_fold`: of the keys that are lowered alike, the last.
unfoldable pub fold_get : Text → Dict → Option Text
fold_get k [] = none
fold_get k ((j, v) ∷ m) =
    let later = fold_get k m in
    elim later [ some i ↦ some i | none ↦ if text_eq (lower j) (lower k) then some j else none ]

abbrev pub has_key : Text → Dict → Bool
has_key k m = elim (dict_get k m) [ none ↦ false | some v ↦ true ]

unfoldable pub actual_key : Text → Dict → Option Text
actual_key k m = if has_key k m then some k else fold_get k m

abbrev pub value_at : Dict → Option Text → Option Text
value_at m none = none
value_at m (some i) = dict_get i m

-- `get`, and `__getitem__` with the KeyError as `none`.
unfoldable pub header_get : Text → Dict → Option Text
header_get k m = value_at m (actual_key k m)

abbrev pub set_at : Text → Text → Dict → Option Text → Dict
set_at k v m none = dict_set k v m
set_at k v m (some i) = dict_set i v m

-- `__setitem__`
unfoldable pub header_set : Text → Text → Dict → Dict
header_set k v m = set_at k v m (actual_key k m)

abbrev pub dict_del : Text → Dict → Dict
dict_del k [] = []
dict_del k ((j, v) ∷ m) = if text_eq j k then m else (j, v) ∷ dict_del k m

abbrev pub del_at : Dict → Option Text → Option Dict
del_at m none = none
del_at m (some i) = some (dict_del i m)

-- `__delitem__`, with the KeyError as `none`; `pop` gives the value that `get` gives before it.
unfoldable pub header_del : Text → Dict → Option Dict
header_del k m = del_at m (actual_key k m)

abbrev pub default_at : Text → Text → Dict → Option Text → Dict
default_at k v m none = dict_set k v m
default_at k v m (some i) = m

-- What `setdefault` leaves.
unfoldable pub header_setdefault : Text → Text → Dict → Dict
header_setdefault k v m = default_at k v m (actual_key k m)

-- `update`, and so `__init__` and `copy` from an empty dictionary.
unfoldable pub header_update : Dict → Dict → Dict
header_update [] m = m
header_update ((k, v) ∷ items) m = header_update items (header_set k v m)
