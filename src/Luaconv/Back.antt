-- ===== src/Luaconv/Back.antt =====
-- From Lua to Go and back: which Lua values survive, as those that a script sends in a packet.
use runtimelua.Common.{
  ℕ, suc, ◌+◌, ◌<◌, ◌≡◌, refl, sym, ap, ◌∙◌, true, Bool, inl, inr, false, Bytes, Bool-cases,
  bytes_eq, arith,
}
use mathlib.Core.Path.{ap₂}
use runtimelua.Lua.{LValue, bool, number, string, table, Entries, end, entry}
use runtimelua.Luaconv.Convert.{
  gmap, gslice, Fields, no_field, field, Items, no_item, item, Api, push, fill, collect,
  from_number, lua_value, lua_pairs, value, map_fields, array,
}
use runtimelua.Luaconv.Plain.{
  AllFresh, AllFresh-snoc, Fresh, HasStringKeys, IsSequence, Laws, append_fields, append_fields_nil,
  append_fields_one, empty, exact_bound, more, set_field-Fresh,
}
use runtimelua.Luaconv.Roundtrip.{
  AllFresh-empty, collect_behind, fill_step, get_int_at, map_back, slice_back,
}

-- A float64 that is the integer that Go's conversion gives has the pattern of that integer: so for
-- all numbers but the negative zero, and those out of the range of int64.
abbrev pub IsNormal : Api → ℕ → Type 0
IsNormal api p = api.same_float p (api.of_int (api.to_int p)) ≡ true → api.of_int (api.to_int p) ≡ p

abbrev pub FreshKey : Bytes → Entries → Type 0
FreshKey k end = Unit {0}
FreshKey k (entry (string j) v rest) = (bytes_eq j k ≡ false) × FreshKey k rest
FreshKey k (entry _ v rest) = FreshKey k rest

-- The Lua values without nil, functions and tables of events: a table has distinct texts as its
-- keys, or the numbers from 1 on.
mutual
  pub data IsPure (api : Api) : LValue → Type 0 where
    pure_bool : (b : Bool) → IsPure api (bool b)
    pure_string : (s : Bytes) → IsPure api (string s)
    pure_number : (p : ℕ) → IsNormal api p → IsPure api (number p)
    pure_fields : (t : Entries) → PureFields api t → IsPure api (table t)
    pure_sequence :
        (n : ℕ) (t : Entries)
        → PureSequence api 1 (suc n) t
        → suc (suc n) < exact_bound
        → IsPure api (table t)

  pub data PureFields (api : Api) : Entries → Type 0 where
    no_entries : PureFields api end
    one_entry :
        (k : Bytes) (v : LValue) (rest : Entries)
        → IsPure api v
        → FreshKey k rest
        → PureFields api rest
        → PureFields api (entry (string k) v rest)

  pub data PureSequence (api : Api) : ℕ → ℕ → Entries → Type 0 where
    ended : (i : ℕ) → PureSequence api i 0 end
    then_entry :
        (i n : ℕ) (v : LValue) (rest : Entries)
        → IsPure api v
        → PureSequence api (i + 1) n rest
        → PureSequence api i (suc n) (entry (number (api.of_int i)) v rest)

-- A pure value is not nil, so its entry is made.
push_pure :
    (api : Api) (k v : LValue) (rest : Entries) → IsPure api v → push k v rest ≡ entry k v rest
unfolding push
push_pure api k _ rest (pure_bool b) = refl
push_pure api k _ rest (pure_string s) = refl
push_pure api k _ rest (pure_number p h) = refl
push_pure api k _ rest (pure_fields t h) = refl
push_pure api k _ rest (pure_sequence n t h l) = refl

PureFields-HasStringKeys : (api : Api) (t : Entries) → PureFields api t → HasStringKeys t
PureFields-HasStringKeys api _ no_entries = tt
PureFields-HasStringKeys api _ (one_entry k v rest p f ps) = PureFields-HasStringKeys api rest ps

PureSequence-IsSequence :
    (api : Api) (i n : ℕ) (t : Entries) → PureSequence api i n t → IsSequence api.of_int i n t
PureSequence-IsSequence api i _ _ (ended _) = empty i
PureSequence-IsSequence api i _ _ (then_entry _ n v rest p ps) =
    more i n v rest (PureSequence-IsSequence api (i + 1) n rest ps)

-- The map and the array that a pure table becomes.
abbrev go_fields : Api → Entries → Fields
go_fields api end = no_field
go_fields api (entry (string k) v rest) = field k (lua_value api v) (go_fields api rest)
go_fields api (entry _ v rest) = go_fields api rest

abbrev go_items : Api → Entries → Items
go_items api end = no_item
go_items api (entry k v rest) = item (lua_value api v) (go_items api rest)

go_fields-Fresh :
    (api : Api) (k : Bytes) (t : Entries)
    → PureFields api t
    → FreshKey k t
    → Fresh k (go_fields api t)
go_fields-Fresh api k _ no_entries f = tt
go_fields-Fresh api k _ (one_entry j v rest p g ps) f = (f.0, go_fields-Fresh api k rest ps f.1)

module _ (api : Api) (laws : Laws api) where
  fill-go_fields :
      (t : Entries) (acc : Fields)
      → PureFields api t
      → AllFresh acc (go_fields api t)
      → fill api (lua_pairs api t) acc ≡ append_fields acc (go_fields api t)
  unfolding lua_value fill
  fill-go_fields _ acc no_entries fresh = sym (append_fields_nil acc)
  fill-go_fields _ acc (one_entry k v rest p f ps) fresh =
      fill_step api laws k (lua_value api v) (lua_pairs api rest) acc
      ∙ ap (fill api (lua_pairs api rest)) (set_field-Fresh k (lua_value api v) acc fresh.0)
      ∙ fill-go_fields rest (append_fields acc (field k (lua_value api v) no_field)) ps (
          AllFresh-snoc k (lua_value api v) acc (go_fields api rest) fresh.1
            (go_fields-Fresh api k rest ps f))
      ∙ append_fields_one k (lua_value api v) acc (go_fields api rest)

  collect-go_items :
      (i n : ℕ) (t : Entries)
      → PureSequence api i n t
      → i + n < exact_bound
      → collect api n i (lua_pairs api t) ≡ go_items api t
  unfolding lua_value collect
  collect-go_items i _ _ (ended _) l = refl
  collect-go_items i _ _ (then_entry _ n v rest p ps) l =
      ap₂ item
        (get_int_at api laws i (from_number api (api.of_int i)) (lua_value api v)
          (lua_pairs api rest))
        (collect_behind api laws n i (i + 1) (from_number api (api.of_int i)) (lua_value api v)
            (lua_pairs api rest) (omega arith) (omega arith)
          ∙ collect-go_items (i + 1) n rest ps (omega arith))

  value-from_number : (p : ℕ) → IsNormal api p → value api (from_number api p) ≡ number p
  unfolding value from_number
  value-from_number p h = elim (Bool-cases (api.same_float p (api.of_int (api.to_int p)))) [
    | inl same ↦ rw same (ap number (h same))
    | inr differs ↦ rw differs refl
  ]

  mutual
    unfolding value lua_value

    again : (v : LValue) → IsPure api v → value api (lua_value api v) ≡ v
    again _ (pure_bool b) = refl
    again _ (pure_string s) = refl
    again _ (pure_number p h) = value-from_number p h
    again _ (pure_fields t h) =
        ap (value api) (
          map_back api laws t (lua_pairs api t) (PureFields-HasStringKeys api t h)
          ∙ ap gmap (fill-go_fields t no_field h (AllFresh-empty api laws (go_fields api t))))
        ∙ ap table (again_fields t h)
    again _ (pure_sequence n t h l) =
        ap (value api) (
          slice_back api laws n t (lua_pairs api t) (PureSequence-IsSequence api 1 (suc n) t h)
          ∙ ap gslice (collect-go_items 1 (suc n) t h (omega arith)))
        ∙ ap table (again_items 1 (suc n) t h)

    again_fields : (t : Entries) → PureFields api t → map_fields api (go_fields api t) ≡ t
    again_fields _ no_entries = refl
    again_fields _ (one_entry k v rest p f ps) =
        ap₂ (push (string k)) (again v p) (again_fields rest ps) ∙ push_pure api (string k) v rest p

    again_items :
        (i n : ℕ) (t : Entries) → PureSequence api i n t → array api i (go_items api t) ≡ t
    again_items i _ _ (ended _) = refl
    again_items i _ _ (then_entry _ n v rest p ps) =
        ap₂ (push (number (api.of_int i))) (again v p) (again_items (i + 1) n rest ps)
        ∙ push_pure api (number (api.of_int i)) v rest p

-- A pure Lua value that goes to Go and comes back is what it was, under the laws of the conversions
-- that are called.
pub value-lua_value :
    (api : Api) (laws : Laws api) (v : LValue) → IsPure api v → value api (lua_value api v) ≡ v
value-lua_value api laws v p = again api laws v p
