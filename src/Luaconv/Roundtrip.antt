-- ===== src/Luaconv/Roundtrip.antt =====
-- From Go to Lua and back: which values survive.
use runtimelua.Common.{ℕ, zero, suc, ◌+◌, ◌<◌, ◌≡◌, refl, sym, ap, ◌∙◌, inl, false, Bytes, arith}
use mathlib.Core.Path.{ap₂}
use runtimelua.Lua.{number, string, Entries, end}
use runtimelua.Luaconv.Convert.{
  GoValue, gstring, gint, gfloat, gmap, gslice, Fields, no_field, field, Items, no_item, item, Api,
  set_field, Pairs, no_pair, pair, fill, get_int, collect, from_table, from_number, lua_value,
  lua_pairs, value, map_fields, array,
}
use runtimelua.Luaconv.Plain.{
  AllFresh, AllFresh-snoc, HasStringKeys, IsExact, IsPlain, IsSequence, Laws, PlainFields,
  PlainItems, append_fields, append_fields_nil, append_fields_one, count_items, empty, exact_bound,
  more, push_plain, set_field-Fresh, plain_bool, plain_string, plain_int, plain_float, plain_map,
  plain_slice, no_fields, one_field, no_items, one_item,
}

module _ (api : Api) (laws : Laws api) where
  of_int-injective :
      (m n : ℕ) → m < exact_bound → n < exact_bound → api.of_int m ≡ api.of_int n → m ≡ n
  of_int-injective m n hm hn e =
      sym (laws.exact m (inl hm)) ∙ ap api.to_int e ∙ laws.exact n (inl hn)

  -- A later index does not meet an earlier entry.
  get_int_behind :
      (i m : ℕ) (w v : GoValue) (ps : Pairs)
      → i < m
      → m < exact_bound
      → get_int (api.of_int m) (pair (number (api.of_int i)) w v ps) ≡ get_int (api.of_int m) ps
  unfolding get_int
  get_int_behind i m w v ps h l = ground (arith, of_int-injective m i l, l)

  pub get_int_at :
      (i : ℕ) (w v : GoValue) (ps : Pairs)
      → get_int (api.of_int i) (pair (number (api.of_int i)) w v ps) ≡ v
  unfolding get_int
  get_int_at i w v ps = ground arith

  pub collect_behind :
      (n i m : ℕ) (w v : GoValue) (ps : Pairs)
      → i < m
      → m + n < exact_bound
      → collect api n m (pair (number (api.of_int i)) w v ps) ≡ collect api n m ps
  unfolding collect
  collect_behind zero i m w v ps h l = refl
  collect_behind (suc n) i m w v ps h l =
      ap₂ item (get_int_behind i m w v ps h (omega arith))
        (collect_behind n i (m + 1) w v ps (omega arith) (omega arith))

  array-IsSequence :
      (i : ℕ) (xs : Items)
      → PlainItems api xs
      → IsSequence api.of_int i (count_items xs) (array api i xs)
  unfolding value count_items
  array-IsSequence i no_item no_items = empty i
  array-IsSequence i (item v rest) (one_item _ _ p ps) =
      rw (push_plain api (number (api.of_int i)) v (array api (i + 1) rest) p) (
        more i (count_items rest) (value api v) (array api (i + 1) rest)
          (array-IsSequence (i + 1) rest ps))

  map_fields-HasStringKeys : (fs : Fields) → PlainFields api fs → HasStringKeys (map_fields api fs)
  unfolding value
  map_fields-HasStringKeys no_field no_fields = tt
  map_fields-HasStringKeys (field k v rest) (one_field _ _ _ p f ps) =
      rw (push_plain api (string k) v (map_fields api rest) p) (map_fields-HasStringKeys rest ps)

  number_back : (n : ℕ) → IsExact n → from_number api (api.of_int n) ≡ gint n
  unfolding from_number
  number_back n h = ground (arith, laws.exact n h, laws.equal n h)

  float_back :
      (v : ℕ) → api.same_float v (api.of_int (api.to_int v)) ≡ false → from_number api v ≡ gfloat v
  unfolding from_number
  float_back v h = ground (arith, h)

  pub map_back :
      (t : Entries) (ps : Pairs)
      → HasStringKeys t
      → from_table api (api.max_n t) ps ≡ gmap (fill api ps no_field)
  unfolding from_table
  map_back t ps h = ground (arith, laws.max_n_strings t h)

  pub slice_back :
      (n : ℕ) (t : Entries) (ps : Pairs)
      → IsSequence api.of_int 1 (suc n) t
      → from_table api (api.max_n t) ps ≡ gslice (collect api (suc n) 1 ps)
  unfolding from_table
  slice_back n t ps h = ground (arith, laws.max_n_sequence (suc n) t h)

  pub fill_step :
      (k : Bytes) (v : GoValue) (ps : Pairs) (acc : Fields)
      → fill api (pair (string k) (gstring k) v ps) acc ≡ fill api ps (set_field k v acc)
  unfolding fill
  fill_step k v ps acc = rw (laws.sprint-string k) refl

  pub AllFresh-empty : (fs : Fields) → AllFresh no_field fs
  AllFresh-empty no_field = tt
  AllFresh-empty (field k v rest) = (tt, AllFresh-empty rest)

  mutual
    unfolding value lua_value fill collect count_items

    back : (v : GoValue) → IsPlain api v → lua_value api (value api v) ≡ v
    back _ (plain_bool b) = refl
    back _ (plain_string s) = refl
    back _ (plain_int n h) = number_back n h
    back _ (plain_float v h) = float_back v h
    back _ (plain_map fs h) =
        map_back (map_fields api fs) (lua_pairs api (map_fields api fs))
          (map_fields-HasStringKeys fs h)
        ∙ ap gmap (back_fields fs no_field h (AllFresh-empty fs))
    back _ (plain_slice v xs h l) =
        slice_back (count_items xs) (array api 1 (item v xs))
          (lua_pairs api (array api 1 (item v xs))) (array-IsSequence 1 (item v xs) h)
        ∙ ap gslice (back_items 1 (item v xs) h (omega arith))

    back_fields :
        (fs acc : Fields)
        → PlainFields api fs
        → AllFresh acc fs
        → fill api (lua_pairs api (map_fields api fs)) acc ≡ append_fields acc fs
    back_fields _ acc no_fields fresh = sym (append_fields_nil acc)
    back_fields _ acc (one_field k v rest p f ps) fresh =
        let ps' = lua_pairs api (map_fields api rest) in
        rw (push_plain api (string k) v (map_fields api rest) p) (
          fill_step k (lua_value api (value api v)) ps' acc
          ∙ ap (λ t. fill api ps' (set_field k t acc)) (back v p)
          ∙ ap (fill api ps') (set_field-Fresh k v acc fresh.0)
          ∙ back_fields rest (append_fields acc (field k v no_field)) ps
              (AllFresh-snoc k v acc rest fresh.1 f)
          ∙ append_fields_one k v acc rest)

    back_items :
        (i : ℕ) (xs : Items)
        → PlainItems api xs
        → i + count_items xs < exact_bound
        → collect api (count_items xs) i (lua_pairs api (array api i xs)) ≡ xs
    back_items i _ no_items l = refl
    back_items i _ (one_item v rest p ps) l =
        rw (push_plain api (number (api.of_int i)) v (array api (i + 1) rest) p) (
          ap₂ item
            (get_int_at i (from_number api (api.of_int i)) (lua_value api (value api v))
                (lua_pairs api (array api (i + 1) rest))
              ∙ back v p)
            (collect_behind (count_items rest) i (i + 1) (from_number api (api.of_int i))
                (lua_value api (value api v)) (lua_pairs api (array api (i + 1) rest)) (omega arith)
                (omega arith)
              ∙ back_items (i + 1) rest ps (omega arith)))

-- A Go value that Value converts to Lua and LuaValue converts back is the same value, of the same
-- type, if it is built from booleans, strings, float64 numbers that are not whole, int64 numbers
-- between - 2 ^ 53 and 2 ^ 53, maps with distinct keys and nonempty arrays, under the laws of the conversions
-- that are called.
pub lua_value-value :
    (api : Api) (laws : Laws api) (v : GoValue) → IsPlain api v → lua_value api (value api v) ≡ v
lua_value-value api laws v p = back api laws v p

-- An empty array comes back as an empty map, under the same laws.
pub empty_slice_back :
    (api : Api) (laws : Laws api) → lua_value api (value api (gslice no_item)) ≡ gmap no_field
unfolding value lua_value fill
empty_slice_back api laws = map_back api laws end no_pair tt
