-- ===== src/Scripts/Registry.antt =====
-- scripts.go: `localScriptModule`, the cache of the scripts' files, with `add`, `get` and `List`.
-- Its lock makes each call one step.
use runtimelua.Common.{
  ◌≡◌, refl, Option, none, some, List, [], ◌∷◌, ◌++◌, Bytes, bytes_eq, bytes_eq_iff, arith,
  if◌then◌else◌, All, Bool-cases, inl, inr, subst,
}
use runtimelua.Event.Object.{FileCache}

-- A Go map with string keys.
unfoldable pub lookup {ℓ} : {V : Type ℓ} → Bytes → List (Bytes × V) → Option V
lookup k [] = none
lookup k ((j, v) ∷ m) = if bytes_eq j k then some v else lookup k m

unfoldable pub insert {ℓ} : {V : Type ℓ} → Bytes → V → List (Bytes × V) → List (Bytes × V)
insert k v [] = (k, v) ∷ []
insert k v ((j, w) ∷ m) = if bytes_eq j k then (k, v) ∷ m else (j, w) ∷ insert k v m

unfoldable pub delete {ℓ} : {V : Type ℓ} → Bytes → List (Bytes × V) → List (Bytes × V)
delete k [] = []
delete k ((j, w) ∷ m) = if bytes_eq j k then delete k m else (j, w) ∷ delete k m

pub lookup-insert {ℓ} :
    {V : Type ℓ} (k j : Bytes) (v : V) (m : List (Bytes × V))
    → lookup j (insert k v m) ≡ (if bytes_eq k j then some v else lookup j m)
unfolding lookup insert
lookup-insert k j v [] = refl
lookup-insert k j v ((i, w) ∷ m) =
    ground (arith, bytes_eq_iff k j, bytes_eq_iff i k, bytes_eq_iff i j, lookup-insert k j v m)

pub lookup-delete {ℓ} :
    {V : Type ℓ} (k j : Bytes) (m : List (Bytes × V))
    → lookup j (delete k m) ≡ (if bytes_eq k j then none else lookup j m)
unfolding lookup delete
lookup-delete k j [] = ground arith
lookup-delete k j ((i, w) ∷ m) =
    ground (arith, bytes_eq_iff k j, bytes_eq_iff i k, bytes_eq_iff i j, lookup-delete k j m)

-- What holds of all values of a table holds of one that is looked up.
pub All-lookup {ℓ κ} :
    {V : Type ℓ} (P : V → Type κ) (k : Bytes) (v : V) (m : List (Bytes × V))
    → All (λ entry. P entry.1) m
    → lookup k m ≡ some v
    → P v
unfolding lookup
All-lookup P k v [] h e = absurd cc
All-lookup P k v ((j, w) ∷ m) (first, rest) e = elim (Bool-cases (bytes_eq j k)) [
  | inl same ↦ let is : w ≡ v = ground (arith, e, same) in subst P is first
  | inr differs ↦ All-lookup P k v m rest (ground (arith, e, differs))
]

pub record ScriptModule : Type 0 where
  pub names : List Bytes
  pub modules : List (Bytes × FileCache)

-- `NewScriptModule`.
unfoldable pub new_script_module : ScriptModule
new_script_module = record { names = []; modules = [] }

unfoldable pub get : Bytes → ScriptModule → Option FileCache
get name sm = lookup name sm.modules

-- `m.HotfixDisabled.Swap(old.HotfixDisabled.Load())`.
unfoldable pub inherit : Option FileCache → FileCache → FileCache
inherit none m = m
inherit (some old) m = record m { hotfix_disabled = old.hotfix_disabled }

unfoldable pub add_name :
    (List Bytes → List Bytes) → Option FileCache → Bytes → List Bytes → List Bytes
add_name sort none name names = sort (names ++ (name ∷ []))
add_name sort (some old) name names = names

-- `sort` is `sort.Sort` on `ModuleNames`.
unfoldable pub add : (List Bytes → List Bytes) → FileCache → ScriptModule → ScriptModule
unfolding inherit add_name
add sort m sm =
    let old = get m.name sm in
    record {
      names = add_name sort old m.name sm.names;
      modules = insert m.name (inherit old m) sm.modules;
    }

-- `List`: a copy of the names.
unfoldable pub list : ScriptModule → List Bytes
list sm = sm.names

-- After `add`, the added name has the new file, with the reload flag of the file that it replaces if
-- there was one; every other name has the file that it had.
pub get-add :
    (sort : List Bytes → List Bytes) (m : FileCache) (sm : ScriptModule) (name : Bytes)
    → get name (add sort m sm)
      ≡ (if bytes_eq m.name name then some (inherit (get m.name sm) m) else get name sm)
unfolding get add
get-add sort m sm name = lookup-insert m.name name (inherit (get m.name sm) m) sm.modules

unfoldable pub adds : (List Bytes → List Bytes) → List FileCache → ScriptModule → ScriptModule
adds sort [] sm = sm
adds sort (m ∷ ms) sm = adds sort ms (add sort m sm)
