-- ===== src/Tests/Values.antt =====
-- Conversions, times and single events.
use runtimelua.Common.{
  ℕ, suc, ◌+◌, ◌*◌, ◌/◌, ◌≡◌, refl, ap, inl, inr, ◌^◌, ◌-◌, [], some, Bytes, codes, arith, ◌==◌,
  bytes_eq,
}
use runtimelua.Lua.{LValue, number, string, table, Entries, end, entry}
use runtimelua.Luaconv.Convert.{
  GoValue, gstring, gint, gfloat, gmap, gslice, gother, no_field, field, Items, no_item, item, Api,
  lua_value, value,
}
use runtimelua.Luaconv.Plain.{
  Laws, HasStringKeys, IsSequence, IsPlain, empty, more, plain_string, plain_int, plain_float,
  plain_map, plain_slice, no_fields, one_field, no_items, one_item, count_items,
}
use runtimelua.Luaconv.Roundtrip.{lua_value-value}
use runtimelua.Luaconv.Back.{
  IsPure, PureSequence, pure_string, pure_number, pure_fields, pure_sequence, no_entries, one_entry,
  ended, then_entry, value-lua_value,
}
use runtimelua.Auxlib.Strftime.{strftime}
use runtimelua.Auxlib.Expand.{expand, strftime-expand}

strftime-expand_example :
    strftime (λ v. v) 3 (codes "%Y-%%%w%q%") ≡ some (expand (λ v. v) 3 (codes "%Y-%%%w%q%"))
strftime-expand_example = strftime-expand (λ v. v) 3 (codes "%Y-%%%w%q%")

-- Numbers whose even patterns are the integers.
abbrev sprint : GoValue → Bytes
sprint (gstring s) = s
sprint _ = []

abbrev max_n : Entries → ℕ
max_n end = 0
max_n (entry (number p) v rest) = suc (max_n rest)
max_n (entry _ v rest) = max_n rest

abbrev pub api : Api
api = record {
  of_int = λ n. 2 * n;
  of_uint = λ n. 2 * n;
  of_float32 = λ p. 2 * p + 1;
  to_int = λ p. p / 2;
  same_float = λ p q. p == q;
  sprint = sprint;
  max_n = max_n;
  function_string = λ f. codes "function";
  handle_value = λ a. gother a;
}

max_n_strings : (t : Entries) → HasStringKeys t → max_n t ≡ 0
max_n_strings end h = refl
max_n_strings (entry (string k) v rest) h = max_n_strings rest h
max_n_strings (entry _ v rest) h = absurd h

max_n_sequence : (i n : ℕ) (t : Entries) → IsSequence (λ k. 2 * k) i n t → max_n t ≡ n
max_n_sequence i _ _ (empty _) = refl
max_n_sequence i _ _ (more _ n v rest s) = ap suc (max_n_sequence (i + 1) n rest s)

half : (n : ℕ) → 2 * n / 2 ≡ n
half n = omega arith

pub laws : Laws api
laws = record {
  exact = λ n h. half n;
  equal = λ n h. ground arith;
  sprint-string = λ s. refl;
  max_n_strings = max_n_strings;
  max_n_sequence = λ n t s. max_n_sequence 1 n t s;
}

-- {"id": 5, "low": -5, "tags": ["a", 1.5]}
abbrev items : Items
items = item (gstring (codes "a")) (item (gfloat 3) no_item)

abbrev tree : GoValue
tree = gmap (
    field (codes "id") (gint 5)
      (field (codes "low") (gint (2 ^ 64 - 5)) (field (codes "tags") (gslice items) no_field)))

tree-IsPlain : IsPlain api tree
unfolding bytes_eq count_items
tree-IsPlain =
    let tags : IsPlain api (gslice items) =
      plain_slice (gstring (codes "a")) (item (gfloat 3) no_item)
        (one_item _ _ (plain_string (codes "a")) (one_item _ _ (plain_float 3 refl) no_items))
        (omega arith) in
    plain_map _ (
      one_field (codes "id") (gint 5) _ (plain_int 5 (inl (omega arith))) (refl, (refl, tt))
        (one_field (codes "low") (gint (2 ^ 64 - 5)) _
          (plain_int (2 ^ 64 - 5) (inr (omega arith, omega arith))) (refl, tt)
          (one_field (codes "tags") (gslice items) no_field tags tt no_fields)))

lua_value-value_example : lua_value api (value api tree) ≡ tree
lua_value-value_example = lua_value-value api laws tree tree-IsPlain

-- {id = 5, tags = {"a", 1.5}}, as a script has it.
abbrev lua_items : Entries
lua_items = entry (number 2) (string (codes "a")) (entry (number 4) (number 3) end)

abbrev lua_tree : LValue
lua_tree =
    table (
      entry (string (codes "id")) (number 10) (entry (string (codes "tags")) (table lua_items) end))

lua_items-PureSequence : PureSequence api 1 2 lua_items
lua_items-PureSequence =
    then_entry 1 1 (string (codes "a")) _ (pure_string (codes "a"))
      (then_entry 2 0 (number 3) end (pure_number 3 (λ e. ground (arith, e))) (ended 3))

lua_tree-IsPure : IsPure api lua_tree
unfolding bytes_eq
lua_tree-IsPure = pure_fields _ (
    one_entry (codes "id") (number 10) _ (pure_number 10 (λ e. refl)) (refl, tt)
      (one_entry (codes "tags") (table lua_items) end
        (pure_sequence 1 lua_items lua_items-PureSequence (omega arith)) tt no_entries))

value-lua_value_example : value api (lua_value api lua_tree) ≡ lua_tree
value-lua_value_example = value-lua_value api laws lua_tree lua_tree-IsPure
