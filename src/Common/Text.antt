-- ===== src/Common/Text.antt =====
-- Go's `strings` and `filepath` functions that the program calls, on byte strings.
use Prim.Native.Nat.{ℕ, suc, ◌+◌, ◌-◌}
use mathlib.Core.Bool.{Bool, true, false, not, ◌&&◌, ◌||◌}
use mathlib.Core.List.{List, [], ◌∷◌, ◌++◌, map}
use runtimelua.Common.Tests.{Bytes, bytes_eq, leb, ◌==◌, if◌then◌else◌}
use runtimelua.Common.Lists.{length, drop, take}

-- `strings.HasPrefix(s, p)`, `strings.HasSuffix(s, p)`.
unfoldable pub has_prefix : Bytes → Bytes → Bool
has_prefix s [] = true
has_prefix [] (y ∷ ys) = false
has_prefix (x ∷ xs) (y ∷ ys) = (x == y) && has_prefix xs ys

unfoldable pub has_suffix : Bytes → Bytes → Bool
has_suffix s p = leb (length p) (length s) && bytes_eq (drop (length s - length p) s) p

-- `strings.TrimPrefix`, `strings.TrimSuffix`.
unfoldable pub trim_prefix : Bytes → Bytes → Bytes
trim_prefix s p = if has_prefix s p then drop (length p) s else s

unfoldable pub trim_suffix : Bytes → Bytes → Bytes
trim_suffix s p = if has_suffix s p then take (length s - length p) s else s

-- `strings.Count` and `strings.ReplaceAll` at a string of one byte.
unfoldable pub count_byte : Bytes → ℕ → ℕ
count_byte [] b = 0
count_byte (x ∷ xs) b = if x == b then suc (count_byte xs b) else count_byte xs b

unfoldable pub replace_byte : Bytes → ℕ → Bytes → Bytes
replace_byte [] b new = []
replace_byte (x ∷ xs) b new = (if x == b then new else x ∷ []) ++ replace_byte xs b new

-- `strings.Split` at a separator of one byte.
unfoldable pub push_first : ℕ → List Bytes → List Bytes
push_first c [] = (c ∷ []) ∷ []
push_first c (p ∷ ps) = (c ∷ p) ∷ ps

unfoldable pub split_byte : Bytes → ℕ → List Bytes
unfolding push_first
split_byte [] b = [] ∷ []
split_byte (x ∷ xs) b = if x == b then [] ∷ split_byte xs b else push_first x (split_byte xs b)

unfoldable pub contains_byte : Bytes → ℕ → Bool
contains_byte [] b = false
contains_byte (x ∷ xs) b = (x == b) || contains_byte xs b

-- `filepath.Ext`: from the last dot of the last path element, with the separator `/`.
unfoldable pub ext : Bytes → Bytes
unfolding contains_byte
ext [] = []
ext (c ∷ cs) =
    if (c == b'.') && (not (contains_byte cs b'.') && not (contains_byte cs b'/'))
    then c ∷ cs
    else ext cs

-- `strings.ToLower`, on ASCII.
unfoldable pub lower : ℕ → ℕ
lower c = if leb b'A' c && leb c b'Z' then c + 32 else c

unfoldable pub to_lower : Bytes → Bytes
unfolding lower
to_lower = map lower

-- `strings.ToUpper`, on ASCII.
unfoldable pub upper : ℕ → ℕ
upper c = if leb b'a' c && leb c b'z' then c - 32 else c

unfoldable pub to_upper : Bytes → Bytes
unfolding upper
to_upper = map upper
