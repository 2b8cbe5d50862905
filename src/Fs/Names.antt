-- ===== src/Fs/Names.antt =====
-- File names of src/fs/fs.c: the eleven bytes of a directory entry's name, and the text that a
-- listing shows. A text is the list of its characters, without the closing NUL.
use turning_machine_operatin.Base.{
  ℕ, zero, suc, ◌+◌, ◌-◌, Bool, ◌&&◌, ◌||◌, not, Option, none, some, List, [], ◌∷◌, ◌++◌, leb, ◌==◌,
  if◌then◌else◌, put, cells,
}

-- `isalnum` and `toupper` in the C locale.
unfoldable pub isalnum : ℕ → Bool
isalnum ch = leb 48 ch && leb ch 57 || (leb 65 ch && leb ch 90 || leb 97 ch && leb ch 122)

unfoldable pub toupper : ℕ → ℕ
toupper ch = if leb 97 ch && leb ch 122 then ch - 32 else ch

-- The second loop of `fs_build_cpm_name`: the extension goes to `out[8 + j]`. `none` is -1.
unfoldable pub build_extension : List ℕ → ℕ → (ℕ → ℕ) → Option (ℕ → ℕ)
unfolding isalnum toupper
build_extension [] j out = if j == 0 then none else some out
build_extension (ch ∷ rest) j out =
    let next = build_extension rest (j + 1) (put out (8 + j) (toupper ch)) in
    if leb 3 j || not (isalnum ch) then none else next

-- The first loop, up to the end or the first dot.
unfoldable pub build_base : List ℕ → ℕ → (ℕ → ℕ) → Option (ℕ → ℕ)
unfolding isalnum toupper build_extension
build_base [] j out = if j == 0 then none else some out
build_base (ch ∷ rest) j out =
    let next = build_base rest (j + 1) (put out j (toupper ch)) in
    if ch == 46
    then (if j == 0 then none else build_extension rest 0 out)
    else if leb 8 j || not (isalnum ch)
    then none
    else next

-- The eleven bytes start as spaces.
unfoldable pub fs_build_cpm_name : List ℕ → Option (List ℕ)
unfolding build_base
fs_build_cpm_name [] = none
fs_build_cpm_name (ch ∷ rest) = elim (build_base (ch ∷ rest) 0 (λ i. 32)) [
  | none ↦ none
  | some out ↦ some (cells out 0 11)
]

-- The characters of `entry[from .. from + left)` before the first space.
unfoldable pub until_space : (ℕ → ℕ) → ℕ → ℕ → List ℕ
until_space entry zero from = []
until_space entry (suc left) from =
    let rest = until_space entry left (from + 1) in
    if entry from == 32 then [] else entry from ∷ rest

unfoldable pub fs_entry_to_name13 : (ℕ → ℕ) → List ℕ
unfolding until_space
fs_entry_to_name13 entry =
    until_space entry 8 1 ++ (if entry 9 == 32 then [] else 46 ∷ until_space entry 3 9)
