-- ===== src/Luaconv/Plain.antt =====
-- The values that survive the way to Lua and back, and the laws of the code that is called.
use runtimelua.Common.{
  ℕ, suc, ◌+◌, ◌<◌, ◌^◌, ◌-◌, ◌⊎◌, ◌≡◌, refl, ap, Bool, true, false, Bytes, bytes_eq, bytes_eq_iff,
  arith,
}
use runtimelua.Lua.{LValue, number, string, Entries, end, entry}
use runtimelua.Luaconv.Convert.{
  GoValue, gbool, gstring, gint, gfloat, gmap, gslice, Fields, no_field, field, Items, no_item,
  item, Api, set_field, push, value,
}

-- The float64 numbers hold every integer between - 2 ^ 53 and 2 ^ 53.
abbrev pub exact_bound : ℕ
exact_bound = 2 ^ 53

-- The int64 patterns of these.
abbrev pub IsExact : ℕ → Type 0
IsExact n = (n < exact_bound) ⊎ ((2 ^ 64 - exact_bound < n) × (n < 2 ^ 64))

-- A table whose keys are all strings, and one with `n` entries at the numbers from `i` on.
abbrev pub HasStringKeys : Entries → Type 0
HasStringKeys end = Unit {0}
HasStringKeys (entry (string k) v rest) = HasStringKeys rest
HasStringKeys (entry _ v rest) = ⊥

pub data IsSequence (of_int : ℕ → ℕ) : ℕ → ℕ → Entries → Type 0 where
  empty : (i : ℕ) → IsSequence of_int i 0 end
  more :
      (i n : ℕ) (v : LValue) (rest : Entries)
      → IsSequence of_int (i + 1) n rest
      → IsSequence of_int i (suc n) (entry (number (of_int i)) v rest)

-- What the round trip relies on, of the code outside the repository.
pub record Laws (api : Api) : Type 0 where
  pub exact : (n : ℕ) → IsExact n → api.to_int (api.of_int n) ≡ n
  pub equal : (n : ℕ) → IsExact n → api.same_float (api.of_int n) (api.of_int n) ≡ true
  pub sprint-string : (s : Bytes) → api.sprint (gstring s) ≡ s
  pub max_n_strings : (t : Entries) → HasStringKeys t → api.max_n t ≡ 0
  pub max_n_sequence : (n : ℕ) (t : Entries) → IsSequence api.of_int 1 n t → api.max_n t ≡ n

unfoldable pub count_items : Items → ℕ
count_items no_item = 0
count_items (item v rest) = suc (count_items rest)

abbrev pub Fresh : Bytes → Fields → Type 0
Fresh k no_field = Unit {0}
Fresh k (field j v rest) = (bytes_eq j k ≡ false) × Fresh k rest

-- The values that JSON decodes to, with no null, no empty array, and whole numbers as int64 within
-- the exact range; the fields of a map are distinct.
mutual
  pub data IsPlain (api : Api) : GoValue → Type 0 where
    plain_bool : (b : Bool) → IsPlain api (gbool b)
    plain_string : (s : Bytes) → IsPlain api (gstring s)
    plain_int : (n : ℕ) → IsExact n → IsPlain api (gint n)
    plain_float :
        (v : ℕ) → api.same_float v (api.of_int (api.to_int v)) ≡ false → IsPlain api (gfloat v)
    plain_map : (fs : Fields) → PlainFields api fs → IsPlain api (gmap fs)
    plain_slice :
        (v : GoValue) (xs : Items)
        → PlainItems api (item v xs)
        → suc (count_items (item v xs)) < exact_bound
        → IsPlain api (gslice (item v xs))

  pub data PlainFields (api : Api) : Fields → Type 0 where
    no_fields : PlainFields api no_field
    one_field :
        (k : Bytes) (v : GoValue) (rest : Fields)
        → IsPlain api v
        → Fresh k rest
        → PlainFields api rest
        → PlainFields api (field k v rest)

  pub data PlainItems (api : Api) : Items → Type 0 where
    no_items : PlainItems api no_item
    one_item :
        (v : GoValue) (rest : Items)
        → IsPlain api v
        → PlainItems api rest
        → PlainItems api (item v rest)

-- A plain value is not nil, so its entry is made.
pub push_plain :
    (api : Api) (k : LValue) (v : GoValue) (rest : Entries)
    → IsPlain api v
    → push k (value api v) rest ≡ entry k (value api v) rest
unfolding push value
push_plain api k _ rest (plain_bool b) = refl
push_plain api k _ rest (plain_string s) = refl
push_plain api k _ rest (plain_int n h) = refl
push_plain api k _ rest (plain_float v h) = refl
push_plain api k _ rest (plain_map fs h) = refl
push_plain api k _ rest (plain_slice v xs h l) = refl

abbrev pub append_fields : Fields → Fields → Fields
append_fields no_field gs = gs
append_fields (field k v rest) gs = field k v (append_fields rest gs)

pub append_fields_one :
    (k : Bytes) (v : GoValue) (fs gs : Fields)
    → append_fields (append_fields fs (field k v no_field)) gs ≡ append_fields fs (field k v gs)
append_fields_one k v no_field gs = refl
append_fields_one k v (field j w rest) gs = ap (field j w) (append_fields_one k v rest gs)

pub append_fields_nil : (fs : Fields) → append_fields fs no_field ≡ fs
append_fields_nil no_field = refl
append_fields_nil (field k v rest) = ap (field k v) (append_fields_nil rest)

pub set_field-Fresh :
    (k : Bytes) (v : GoValue) (fs : Fields)
    → Fresh k fs
    → set_field k v fs ≡ append_fields fs (field k v no_field)
unfolding set_field
set_field-Fresh k v no_field h = refl
set_field-Fresh k v (field j w rest) h = rw h.0 (ap (field j w) (set_field-Fresh k v rest h.1))

-- No key of the second map stands in the first.
abbrev pub AllFresh : Fields → Fields → Type 0
AllFresh acc no_field = Unit {0}
AllFresh acc (field j w rest) = Fresh j acc × AllFresh acc rest

Fresh-snoc :
    (j k : Bytes) (v : GoValue) (acc : Fields)
    → Fresh j acc
    → bytes_eq j k ≡ false
    → Fresh j (append_fields acc (field k v no_field))
Fresh-snoc j k v no_field h e = (ground (arith, bytes_eq_iff j k, bytes_eq_iff k j), tt)
Fresh-snoc j k v (field i w acc) h e = (h.0, Fresh-snoc j k v acc h.1 e)

pub AllFresh-snoc :
    (k : Bytes) (v : GoValue) (acc fs : Fields)
    → AllFresh acc fs
    → Fresh k fs
    → AllFresh (append_fields acc (field k v no_field)) fs
AllFresh-snoc k v acc no_field h e = tt
AllFresh-snoc k v acc (field j w rest) h e =
    (Fresh-snoc j k v acc h.0 e.0, AllFresh-snoc k v acc rest h.1 e.1)
