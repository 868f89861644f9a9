-- ===== src/Scripts/Opened.antt =====
-- What the first call of `OpenPackage` caches (scripts.go).
use runtimelua.Common.{
  ◌≡◌, ◌≢◌, refl, sym, ap, ◌∙◌, ◌↔◌, ◌⊎◌, inl, inr, true, false, none, some, List, [], ◌∷◌, ◌++◌,
  Bytes, bytes_eq, bytes_eq_iff, arith, All, Bool-cases, if◌then◌else◌,
}
use mathlib.Core.List.{append_assoc, append-nil}
use runtimelua.Event.Object.{FileCache}
use runtimelua.Scripts.Registry.{ScriptModule, new_script_module, get, lookup, add, get-add}
use runtimelua.Scripts.Watch.{module_name, file_cache}
use runtimelua.Scripts.Loader.{is_lua, scan_file, scan_loop, scanned}
use runtimelua.Scripts.Requires.{scans}
use runtimelua.Scripts.Open.{Visit, visit, failure, walk, scan, found_paths, open_scripts}

-- The files among the visits of a walk.
abbrev pub files : List Visit → List Bytes
files [] = []
files (visit path is_dir ∷ vs) = if is_dir then files vs else path ∷ files vs
files (failure e ∷ vs) = files vs

-- A script of this name is among the files.
abbrev pub Names : (Bytes → Bytes) → Bytes → List Bytes → Type 0
Names rel name [] = ⊥
Names rel name (path ∷ paths) =
    ((is_lua path ≡ true) × (module_name rel path ≡ name)) ⊎ Names rel name paths

-- The folder can be walked, and the scripts in it read.
abbrev pub IsFine : (Bytes → Bytes ⊎ Bytes) → Visit → Type 0
IsFine read_file (visit path is_dir) =
    is_dir ≡ false → is_lua path ≡ true → (content : Bytes) × (read_file path ≡ inr content)
IsFine read_file (failure e) = ⊥

abbrev Reads : (Bytes → Bytes ⊎ Bytes) → Bytes → Type 0
Reads read_file path = is_lua path ≡ true → (content : Bytes) × (read_file path ≡ inr content)

walk-files :
    (read_file : Bytes → Bytes ⊎ Bytes) (vs : List Visit) (paths : List Bytes)
    → All (IsFine read_file) vs
    → (walk vs paths ≡ some (paths ++ files vs)) × All (Reads read_file) (files vs)
unfolding walk
walk-files read_file [] paths fine = (ap some (sym (append-nil paths)), tt)
walk-files read_file (visit path true ∷ vs) paths fine = walk-files read_file vs paths fine.1
walk-files read_file (visit path false ∷ vs) paths fine =
    let (walked, reads) = walk-files read_file vs (paths ++ (path ∷ [])) fine.1 in
    (walked ∙ ap some (append_assoc paths (path ∷ []) (files vs)), (fine.0 refl, reads))
walk-files read_file (failure e ∷ vs) paths fine = absurd fine.0

module _ (sort : List Bytes → List Bytes) (rel : Bytes → Bytes)
    (read_file : Bytes → Bytes ⊎ Bytes) where
  -- An addition caches its name, and no other.
  added_iff :
      (m : FileCache) (sm : ScriptModule) (name : Bytes)
      → (get name (add sort m sm) ≢ none) ↔ ((m.name ≡ name) ⊎ (get name sm ≢ none))
  added_iff m sm name = elim (Bool-cases (bytes_eq m.name name)) [
    | inl e ↦ (
      λ h. inl ((bytes_eq_iff m.name name).0 e),
      λ h gone. ground (arith, get-add sort m sm name, e, gone),
    )
    | inr e ↦ (
      λ h. inr (λ gone. h (get-add sort m sm name ∙ rw e gone)),
      λ h gone. elim h [
        | inl same ↦ ground (arith, bytes_eq_iff m.name name, e, same)
        | inr held ↦ held (ground (arith, get-add sort m sm name, e, gone))
      ],
    )
  ]

  passed :
      (path : Bytes) (sm : ScriptModule)
      → is_lua path ≡ false
      → scan_file sort rel read_file path sm ≡ scanned sm
  unfolding scan_file
  passed path sm other = rw (other, scan_file) refl

  -- A file that is no script is passed over, and a script is added.
  scan_passes :
      (path : Bytes) (paths : List Bytes) (sm : ScriptModule)
      → is_lua path ≡ false
      → scan_loop sort rel read_file (path ∷ paths) sm ≡ scan_loop sort rel read_file paths sm
  unfolding scan_loop
  scan_passes path paths sm other = rw (passed path sm other, scan_loop) refl

  scan_adds :
      (path content : Bytes) (paths : List Bytes) (sm : ScriptModule)
      → is_lua path ≡ true
      → read_file path ≡ inr content
      → scan_loop sort rel read_file (path ∷ paths) sm
        ≡ scan_loop sort rel read_file paths
            (add sort (file_cache (module_name rel path) path content) sm)
  unfolding scan_loop
  scan_adds path content paths sm lua good =
      rw (scans sort rel read_file path content sm lua good, scan_loop) refl

  scan_loop-Names :
      (paths : List Bytes) (sm : ScriptModule) (name : Bytes)
      → All (Reads read_file) paths
      → (get name (scan_loop sort rel read_file paths sm) ≢ none)
        ↔ ((get name sm ≢ none) ⊎ Names rel name paths)
  unfolding scan_loop file_cache
  scan_loop-Names [] sm name reads =
      (λ h. inl h, λ h. elim h [ inl held ↦ held | inr e ↦ absurd e ])
  scan_loop-Names (path ∷ paths) sm name reads = elim (Bool-cases (is_lua path)) [
    | inr other ↦
        let (there, back) = scan_loop-Names paths sm name reads.1 in
        (
          λ h. elim (there (λ gone. h (ap (get name) (scan_passes path paths sm other) ∙ gone))) [
            | inl held ↦ inl held
            | inr n ↦ inr (inr n)
          ],
          λ h gone.
              back
                (elim h [
                  | inl held ↦ inl held
                  | inr (inl (lua, e)) ↦ absurd (ground (arith, lua, other))
                  | inr (inr n) ↦ inr n
                ])
                (sym (ap (get name) (scan_passes path paths sm other)) ∙ gone),
        )
    | inl lua ↦
        let (content, good) = reads.0 lua in
        let m = file_cache (module_name rel path) path content in
        let step = ap (get name) (scan_adds path content paths sm lua good) in
        let (there, back) = scan_loop-Names paths (add sort m sm) name reads.1 in
        let (of_add, to_add) = added_iff m sm name in
        (
          λ h. elim (there (λ gone. h (step ∙ gone))) [
            | inl held ↦ elim (of_add held) [ inl same ↦ inr (inl (lua, same)) | inr old ↦ inl old ]
            | inr n ↦ inr (inr n)
          ],
          λ h gone.
              back
                (elim h [
                  | inl held ↦ inl (to_add (inr held))
                  | inr (inl (l, same)) ↦ inl (to_add (inl same))
                  | inr (inr n) ↦ inr n
                ])
                (sym step ∙ gone),
        )
  ]

  -- In a folder that can be walked and whose scripts can be read, the first call of OpenPackage
  -- caches a file under a name if and only if this is the name of a script among the files of the
  -- folder; and further calls change nothing, whatever the folder holds then.
  pub open_scripts-Names :
      (visits : List Visit)
      → All (IsFine read_file) visits
      → let s =
          open_scripts sort rel read_file visits
            (record { once = false; scripts = new_script_module }) in
        ((name : Bytes) → (get name s.scripts ≢ none) ↔ Names rel name (files visits))
        × ((later : List Visit) → open_scripts sort rel read_file later s ≡ s)
  unfolding open_scripts scan found_paths new_script_module get lookup
  open_scripts-Names visits fine =
      let (walked, reads) = walk-files read_file visits [] fine in
      (
        λ name.
            let (there, back) = scan_loop-Names (files visits) new_script_module name reads in
            let same =
              ap (λ r. get name (scan_loop sort rel read_file (found_paths r) new_script_module))
                walked in
            (
              λ h. elim (there (λ gone. h (same ∙ gone))) [
                | inl held ↦ absurd (held refl)
                | inr n ↦ n
              ],
              λ n gone. back (inr n) (sym same ∙ gone),
            ),
        λ later. refl,
      )
