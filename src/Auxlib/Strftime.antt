-- ===== src/Auxlib/Strftime.antt =====
-- auxlib/utils.go: `flagScanner` and `strftime`. A time is `format`, its method `Format`, and
-- `weekday`, its day of the week from 0 to 6.
use runtimelua.Common.{
  ℕ, zero, suc, ◌+◌, ◌-◌, Bool, true, false, not, ◌&&◌, Option, none, some, List, [], ◌∷◌, ◌++◌,
  Bytes, codes, ◌==◌, ltb, if◌then◌else◌, length, get_elem?,
}

pub record FlagScanner : Type 0 where
  pub flag : ℕ
  pub start : Bytes
  pub end : Bytes
  pub buf : Bytes
  pub str : Bytes
  pub len : ℕ
  pub pos : ℕ
  pub has_flag : Bool
  pub change_flag : Bool

unfoldable pub new_flag_scanner : ℕ → Bytes → Bytes → Bytes → FlagScanner
new_flag_scanner flag start end str = record {
  flag = flag;
  start = start;
  end = end;
  buf = [];
  str = str;
  len = length str;
  pos = 0;
  has_flag = false;
  change_flag = false;
}

unfoldable pub append_string : FlagScanner → Bytes → FlagScanner
append_string fs s = record fs { buf = fs.buf ++ s }

unfoldable pub append_char : FlagScanner → ℕ → FlagScanner
append_char fs c = record fs { buf = fs.buf ++ (c ∷ []) }

unfoldable pub is_flag : FlagScanner → Option ℕ → Bool
is_flag fs none = false
is_flag fs (some c) = c == fs.flag

-- The branch in which a flag starts: `end` of the last one, `start`, and the marks.
unfoldable pub open_flag : FlagScanner → FlagScanner
unfolding append_string
open_flag fs =
    let closed = if fs.has_flag then append_string fs fs.end else fs in
    record (append_string closed fs.start) { change_flag = true; has_flag = true }

unfoldable pub step_pos : FlagScanner → FlagScanner
step_pos fs = record fs { pos = fs.pos + 1 }

-- `Next` at a byte of the text; `again` is the recursive call of the doubled flag.
unfoldable pub next_at :
    FlagScanner
    → ℕ
    → (FlagScanner → Option (FlagScanner × ℕ × Bool))
    → Option (FlagScanner × ℕ × Bool)
unfolding is_flag open_flag step_pos append_char
next_at fs c again =
    if c == fs.flag
    then (if ltb fs.pos (fs.len - 1) && is_flag fs (get_elem? fs.str (fs.pos + 1))
        then again
            (record (append_char (record fs { has_flag = false }) fs.flag) { pos = fs.pos + 2 })
        else if not (fs.pos == fs.len - 1)
        then some (step_pos (open_flag fs), c, false)
        else some (step_pos fs, c, false))
    else some (step_pos fs, c, false)

-- `Next`, with fuel for its recursion; `none` is an index out of range, or no fuel.
unfoldable pub next : ℕ → FlagScanner → Option (FlagScanner × ℕ × Bool)
unfolding next_at append_string
next zero fs0 = none
next (suc fuel) fs0 =
    let fs = record fs0 { change_flag = false } in
    if fs.pos == fs.len
    then some (if fs.has_flag then append_string fs fs.end else fs, 0, true)
    else elim (get_elem? fs.str fs.pos) [ none ↦ none | some c ↦ next_at fs c (next fuel) ]

-- `cDateFlagToGo`.
abbrev pub c_date_flag_to_go : List (ℕ × Bytes)
c_date_flag_to_go =
    (b'a', codes "mon")
    ∷ (b'A', codes "Monday")
    ∷ (b'b', codes "Jan")
    ∷ (b'B', codes "January")
    ∷ (b'c', codes "02 Jan 06 15:04 MST")
    ∷ (b'd', codes "02")
    ∷ (b'F', codes "2006-01-02")
    ∷ (b'H', codes "15")
    ∷ (b'I', codes "03")
    ∷ (b'm', codes "01")
    ∷ (b'M', codes "04")
    ∷ (b'p', codes "PM")
    ∷ (b'P', codes "pm")
    ∷ (b'S', codes "05")
    ∷ (b'x', codes "15/04/05")
    ∷ (b'X', codes "15:04:05")
    ∷ (b'y', codes "06")
    ∷ (b'Y', codes "2006")
    ∷ (b'z', codes "-0700")
    ∷ (b'Z', codes "MST")
    ∷ []

unfoldable pub layout_in : ℕ → List (ℕ × Bytes) → Option Bytes
layout_in c [] = none
layout_in c ((k, v) ∷ rest) = if k == c then some v else layout_in c rest

-- What stands for the flag character `c`: the branches under `if sc.HasFlag`.
unfoldable pub verb : (Bytes → Bytes) → ℕ → ℕ → Bytes
unfolding layout_in
verb format weekday c = elim (layout_in c c_date_flag_to_go) [
  | some v ↦ format v
  | none ↦ if c == b'w' then (b'0' + weekday) ∷ [] else b'%' ∷ c ∷ []
]

-- The body of the loop in `strftime`.
unfoldable pub body : (Bytes → Bytes) → ℕ → FlagScanner → ℕ → FlagScanner
unfolding verb append_string append_char
body format weekday sc c =
    if not sc.change_flag
    then (if sc.has_flag
        then record (append_string sc (verb format weekday c)) { has_flag = false }
        else append_char sc c)
    else sc

-- `for c, eos := sc.Next(); !eos; c, eos = sc.Next()`, with fuel.
unfoldable pub loop : (Bytes → Bytes) → ℕ → ℕ → ℕ → FlagScanner → Option Bytes
unfolding next body
loop format weekday next_fuel zero sc = none
loop format weekday next_fuel (suc fuel) sc = elim (next next_fuel sc) [
  | none ↦ none
  | some (sc', c, eos) ↦
      let rest = loop format weekday next_fuel fuel (body format weekday sc' c) in
      if eos then some sc'.buf else rest
]

-- `strftime`. A text of n bytes takes n + 1 calls of `Next` at most, each with as many recursions.
unfoldable pub strftime : (Bytes → Bytes) → ℕ → Bytes → Option Bytes
unfolding loop new_flag_scanner
strftime format weekday cfmt =
    loop format weekday (suc (length cfmt)) (suc (length cfmt)) (new_flag_scanner b'%' [] [] cfmt)
