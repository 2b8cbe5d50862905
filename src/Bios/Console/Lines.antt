-- ===== src/Bios/Console/Lines.antt =====
-- What `bios_readline` of src/bios/bios.c leaves in the line buffer.
use native.Mathlib.Decide.{dec_lt}
use turning_machine_operatin.Base.{
  ◌⊎◌, drop, ℕ, zero, suc, ◌≤◌, ◌<◌, ◌≡◌, refl, sym, ap, ap₂, ◌∙◌, true, false, ◌||◌, List, [], ◌∷◌,
  ◌++◌, length, ltb, ◌==◌, if◌then◌else◌, put, arith, Bool-cases, inl, inr,
}
use mathlib.Core.Path.{subst}
use turning_machine_operatin.Bios.State.{World}
use turning_machine_operatin.Bios.Console.{close_line, edit_line, readline_loop, bios_readline}

-- A line as it is typed, its last character first: 8 and 127 rub out, and at most 128 characters
-- are kept.
abbrev pub edit : ℕ → List ℕ → List ℕ
edit key [] = if key == 8 || key == 127 then [] else key ∷ []
edit key (ch ∷ line) =
    if key == 8 || key == 127
    then line
    else if ltb (length (ch ∷ line)) 128
    then key ∷ (ch ∷ line)
    else ch ∷ line

abbrev pub typed : List ℕ → List ℕ → List ℕ
typed [] line = line
typed (key ∷ keys) line = typed keys (edit key line)

abbrev pub IsLineEnd : ℕ → Type 0
IsLineEnd ch = (ch == 10 || ch == 13) ≡ true

abbrev pub NoLineEnd : List ℕ → Type 0
NoLineEnd [] = Unit
NoLineEnd (key ∷ keys) = ((key == 10 || key == 13) ≡ false) × NoLineEnd keys

-- The first `n` cells, the last one first.
unfoldable pub backwards : (ℕ → ℕ) → ℕ → List ℕ
backwards f zero = []
backwards f (suc n) = f n ∷ backwards f n

backwards-put : (f : ℕ → ℕ) (i v n : ℕ) → n ≤ i → backwards (put f i v) n ≡ backwards f n
unfolding backwards put
backwards-put f i v zero h = refl
backwards-put f i v (suc n) h = ap₂ ◌∷◌ (ground arith) (backwards-put f i v n (omega arith))

length-backwards : (f : ℕ → ℕ) (n : ℕ) → length (backwards f n) ≡ n
unfolding backwards
length-backwards f zero = refl
length-backwards f (suc n) = ap suc (length-backwards f n)

-- The buffer's first `len` characters.
abbrev line_of : ℕ → World → List ℕ
line_of len w = backwards w.bios.shell_line len

edit_line_lem :
    (ch len : ℕ) (w : World)
    → len ≤ 128
    → let next = edit_line ch len w in
      (next.0 ≤ 128) × (line_of next.0 next.1 ≡ edit ch (line_of len w))
unfolding edit_line backwards put
edit_line_lem ch zero w h = elim (Bool-cases (ch == 8 || ch == 127)) [
  | inl rub ↦ rw rub (omega arith, refl)
  | inr key ↦ rw key (omega arith, refl)
]
edit_line_lem ch (suc len) w h =
    let size = length-backwards w.bios.shell_line len in
    let same = backwards-put w.bios.shell_line (suc len) ch (suc len) (omega arith) in
    ground (arith, size, same)

-- What a line end leaves: the length, and the characters, but for the last one of a full line,
-- which the closing NUL overwrites.
abbrev pub Reads : List ℕ → List ℕ → World → Type 0
Reads line rest w =
    (w.bios.shell_line_len ≡ length line)
    × (w.input ≡ rest)
    × (((length line < 128) × (line_of (length line) w ≡ line))
        ⊎ ((length line ≡ 128) × (line_of 127 w ≡ drop 1 line)))

but_last : (f : ℕ → ℕ) → backwards f 127 ≡ drop 1 (backwards f 128)
unfolding backwards
but_last f = refl

close_full_line :
    (rest : List ℕ) (w : World)
    → Reads (line_of 128 w) rest (close_line (record w { input = rest }) 128)
unfolding close_line
close_full_line rest w =
    let size = length-backwards w.bios.shell_line 128 in
    (sym size, refl, inr (size, cut w.bios.shell_line))
  where
    cut : (f : ℕ → ℕ) → backwards (put f 127 0) 127 ≡ drop 1 (backwards f 128)
    cut f = backwards-put f 127 0 127 (omega arith) ∙ but_last f

close_line-Reads :
    (len : ℕ) (rest : List ℕ) (w : World)
    → len ≤ 128
    → Reads (line_of len w) rest (close_line (record w { input = rest }) len)
unfolding close_line
close_line-Reads len rest w h =
    let size = length-backwards w.bios.shell_line len in
    let kept = λ (i : ℕ). backwards-put w.bios.shell_line i 0 i (omega arith) in
    elim (dec_lt len 128) [
      | yes l ↦
          let small : ltb len 128 ≡ true = ground arith in
          rw (size, small) (refl, refl, inl (l, kept len))
      | no l ↦
          let full : 128 ≡ len = omega arith in
          subst (λ (n : ℕ). Reads (line_of n w) rest (close_line (record w { input = rest }) n))
            full (close_full_line rest w)
    ]

readline_loop-Reads :
    (keys : List ℕ) (end len : ℕ) (rest : List ℕ) (w : World)
    → NoLineEnd keys
    → IsLineEnd end
    → len ≤ 128
    → Reads (typed keys (line_of len w)) rest (readline_loop (keys ++ (end ∷ rest)) len w)
unfolding readline_loop
readline_loop-Reads [] end len rest w no_end is_end h = rw is_end (close_line-Reads len rest w h)
readline_loop-Reads (key ∷ keys) end len rest w no_end is_end h =
    let next = edit_line key len w in
    let edited = edit_line_lem key len w h in
    let later = readline_loop-Reads keys end next.0 rest next.1 no_end.1 is_end edited.0 in
    rw no_end.0 (
      subst
        (λ (line : List ℕ).
          Reads (typed keys line) rest (readline_loop (keys ++ (end ∷ rest)) next.0 next.1))
        edited.1 later)

-- A line typed on standard input and closed by a line end is kept as it stands after the rubbing
-- out, at most 128 characters of it, with its length; what was typed after it stays on the input.
-- Of a line of 128 characters the last one is lost, while the length counts it.
pub bios_readline_lem :
    (keys : List ℕ) (end : ℕ) (rest : List ℕ) (w : World)
    → NoLineEnd keys
    → IsLineEnd end
    → w.input ≡ keys ++ (end ∷ rest)
    → Reads (typed keys []) rest (bios_readline w)
unfolding bios_readline backwards
bios_readline_lem keys end rest w no_end is_end typed_in =
    let cleared : World = record w {
      bios = record w.bios { shell_line_len = 0; shell_line = put w.bios.shell_line 0 0 };
    } in
    subst (λ (keyed : List ℕ). Reads (typed keys []) rest (readline_loop keyed 0 cleared))
      (sym typed_in) (readline_loop-Reads keys end 0 rest cleared no_end is_end (omega arith))
