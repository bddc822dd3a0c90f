-- ===== src/QueryResolver/Registry.antt =====
-- What registering does to the map.
use yomotsusaka.Prelude.{
  Text, eq_text, eq_text_refl, eq_text_sound, Bool, true, false, some, List, [], ◌∷◌, ◌≡◌, ◌≢◌,
  refl, All, arith, Result, ok, err, Bool-cases, inl, inr,
}
use yomotsusaka.Schemas.{PrivateDictEntry}
use yomotsusaka.QueryResolver.{
  Registry, RegisterError, find_key, put_key, conflicts, put_unless, register, and_then,
  register_entries,
}

find_key-put_key :
    (raw key : Text) (entries : Registry) → find_key raw (put_key raw key entries) ≡ some key
unfolding find_key put_key
find_key-put_key raw key [] = rw (eq_text_refl raw) refl
find_key-put_key raw key ((r, k) ∷ entries) = elim (Bool-cases (eq_text r raw)) [
  | inl e ↦ rw (e, find_key, e) refl
  | inr e ↦ rw (e, find_key, e) (find_key-put_key raw key entries)
]

agreed : (existing key : Text) → conflicts (some existing) key ≡ false → existing ≡ key
agreed existing key h = eq_text_sound existing key (ground arith)

-- A key that is there already, and the same, is not changed; the others are not touched.
find_key-put_key_same :
    (other raw key k : Text) (entries : Registry)
    → conflicts (find_key raw entries) key ≡ false
    → find_key other entries ≡ some k
    → find_key other (put_key raw key entries) ≡ some k
unfolding find_key put_key
find_key-put_key_same other raw key k [] c h = cc
find_key-put_key_same other raw key k ((r, j) ∷ entries) c h = elim (Bool-cases (eq_text r raw)) [
  | inl e ↦
      let same : conflicts (some j) key ≡ false = rw (e, find_key) at c in
      rw (e, ← agreed j key same) h
  | inr e ↦
      let later : conflicts (find_key raw entries) key ≡ false = rw (e, find_key) at c in
      elim (Bool-cases (eq_text r other)) [
        | inl f ↦ rw (e, find_key, f) (rw (f, find_key) at h)
        | inr f ↦
            rw (e, find_key, f)
              (find_key-put_key_same other raw key k entries later (rw (f, find_key) at h))
      ]
]

-- Everything that the one map finds, the other finds too.
abbrev pub Extends : Registry → Registry → Type 0
Extends entries more =
    (raw key : Text) → find_key raw entries ≡ some key → find_key raw more ≡ some key

put_unless-Extends :
    (b : Bool) (raw key : Text) (entries : Registry)
    → conflicts (find_key raw entries) key ≡ b
    → Extends entries (put_unless b raw key entries).1
put_unless-Extends true raw key entries e r k h = h
put_unless-Extends false raw key entries e r k h = find_key-put_key_same r raw key k entries e h

put_unless_ok :
    (b : Bool) (raw key : Text) (entries : Registry)
    → (put_unless b raw key entries).0 ≡ ok tt
    → find_key raw (put_unless b raw key entries).1 ≡ some key
put_unless_ok true raw key entries h = cc
put_unless_ok false raw key entries h = find_key-put_key raw key entries

register-Extends :
    (raw key : Text) (entries : Registry) → Extends entries (register raw key entries).1
unfolding register
register-Extends [] key entries r k h = h
register-Extends (c ∷ raw) [] entries r k h = h
register-Extends (c ∷ raw) (d ∷ key) entries r k h =
    put_unless-Extends (conflicts (find_key (c ∷ raw) entries) (d ∷ key)) (c ∷ raw) (d ∷ key)
      entries refl r k h

-- What a call of `register` that does not raise has made sure of.
abbrev pub IsRegistered : Registry → PrivateDictEntry → Type 0
IsRegistered entries e =
    (e.original_value ≢ []) × (e.key ≢ []) × (find_key e.original_value entries ≡ some e.key)

register_ok :
    (raw key : Text) (entries : Registry)
    → (register raw key entries).0 ≡ ok tt
    → (raw ≢ []) × (key ≢ []) × (find_key raw (register raw key entries).1 ≡ some key)
unfolding register
register_ok [] key entries h = cc
register_ok (c ∷ raw) [] entries h = cc
register_ok (c ∷ raw) (d ∷ key) entries h = (
  λ e. cc,
  λ e. cc,
  put_unless_ok (conflicts (find_key (c ∷ raw) entries) (d ∷ key)) (c ∷ raw) (d ∷ key) entries h,
)

and_then-Extends :
    (entries : Registry) (r : Result RegisterError (Unit {0}) × Registry)
    (next : Registry → Result RegisterError (Unit {0}) × Registry)
    → Extends entries r.1
    → ((st : Registry) → Extends st (next st).1)
    → Extends entries (and_then r next).1
and_then-Extends entries (err cause, st) next h f = h
and_then-Extends entries (ok done, st) next h f = λ raw key found. f st raw key (h raw key found)

pub register_entries-Extends :
    (es : List PrivateDictEntry) (entries : Registry)
    → Extends entries (register_entries es entries).1
unfolding register_entries
register_entries-Extends [] entries = λ raw key h. h
register_entries-Extends (e ∷ es) entries =
    and_then-Extends entries (register e.original_value e.key entries) (register_entries es)
      (register-Extends e.original_value e.key entries) (register_entries-Extends es)

IsRegistered-first :
    (e : PrivateDictEntry) (es : List PrivateDictEntry)
    (r : Result RegisterError (Unit {0}) × Registry)
    → (r.0 ≡ ok tt → IsRegistered r.1 e)
    → ((st : Registry)
        → (register_entries es st).0 ≡ ok tt
        → All (IsRegistered (register_entries es st).1) es)
    → (and_then r (register_entries es)).0 ≡ ok tt
    → All (IsRegistered (and_then r (register_entries es)).1) (e ∷ es)
IsRegistered-first e es (err cause, st) first rest h = cc
IsRegistered-first e es (ok tt, st) first rest h =
    let (value, key, found) = first refl in
    ((value, key, register_entries-Extends es st e.original_value e.key found), rest st h)

register_entries_ok :
    (es : List PrivateDictEntry) (entries : Registry)
    → (register_entries es entries).0 ≡ ok tt
    → All (IsRegistered (register_entries es entries).1) es
unfolding register_entries
register_entries_ok [] entries h = tt
register_entries_ok (e ∷ es) entries h =
    IsRegistered-first e es (register e.original_value e.key entries)
      (register_ok e.original_value e.key entries) (register_entries_ok es) h

-- Registering entries never changes what the map finds already, also when it raises; and if it
-- does not raise, then no entry has an empty value or key, and the map finds each entry's key
-- under its value.
pub register_entries_lem :
    (es : List PrivateDictEntry) (entries : Registry)
    → let call = register_entries es entries in
      Extends entries call.1 × (call.0 ≡ ok tt → All (IsRegistered call.1) es)
register_entries_lem es entries =
    (register_entries-Extends es entries, register_entries_ok es entries)
