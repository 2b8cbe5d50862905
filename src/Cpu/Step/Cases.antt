-- ===== src/Cpu/Step/Cases.antt =====
-- Which opcodes the switch knows, and how an opcode names its operands.
use turning_machine_operatin.Base.{
  ℕ, ◌+◌, ◌*◌, ◌/◌, ◌%◌, ◌<◌, ◌≡◌, ◌≢◌, ◌↔◌, refl, Bool, true, false, not, ◌&&◌, ◌||◌, ◌==◌,
  all_below, all_below_sound, List, [], ◌∷◌, arith,
}
use turning_machine_operatin.Cpu.Decode.{Case, decode, default_case, control_case, accumulator_case}
use turning_machine_operatin.Cpu.Groups.{middle_code, low_code}

-- Membership in a list of numbers.
abbrev pub one_of : ℕ → List ℕ → Bool
one_of n [] = false
one_of n (x ∷ xs) = n == x || one_of n xs

-- STAX B, STAX D, LDAX B and LDAX D.
abbrev pub indirect_loads_and_stores : List ℕ
indirect_loads_and_stores = 0x02 ∷ 0x12 ∷ 0x0A ∷ 0x1A ∷ []

-- The opcodes that the 8080 leaves undefined.
abbrev pub undefined_opcodes : List ℕ
undefined_opcodes =
    0x08 ∷ 0x10 ∷ 0x18 ∷ 0x20 ∷ 0x28 ∷ 0x30 ∷ 0x38 ∷ 0xCB ∷ 0xD9 ∷ 0xDD ∷ 0xED ∷ 0xFD ∷ []

-- Two of them are instructions of the 8085: RIM and SIM.
abbrev pub interrupt_mask_opcodes : List ℕ
interrupt_mask_opcodes = 0x20 ∷ 0x30 ∷ []

-- The opcodes without a case: STAX, LDAX, and those that neither processor defines.
unfoldable pub lacks_case : ℕ → Bool
lacks_case n =
    one_of n indirect_loads_and_stores
    || (one_of n undefined_opcodes && not (one_of n interrupt_mask_opcodes))

pub is_fallback : Case → Bool
is_fallback Case.fallback = true
is_fallback _ = false

fallback_table :
    all_below
      (λ n.
        (is_fallback (decode n) && lacks_case n) || not (is_fallback (decode n) || lacks_case n))
      256
    ≡ true
unfolding all_below is_fallback lacks_case decode accumulator_case control_case default_case
fallback_table = refl

agree : (p q : Bool) → ((p && q) || not (p || q)) ≡ true → p ≡ q
agree p q h = ground arith

is_fallback-decode : (opcode : ℕ) → opcode < 256 → is_fallback (decode opcode) ≡ lacks_case opcode
is_fallback-decode opcode h = agree _ _ (all_below_sound _ 256 fallback_table opcode h)

-- An opcode falls through to the last branch of the switch exactly when it is STAX or LDAX, or one
-- that the 8080 leaves undefined other than 0x20 and 0x30; those two have the cases of the 8085, and
-- every other instruction of the 8080 has a case.
pub decode-fallback_iff :
    (opcode : ℕ)
    → opcode < 256
    → (decode opcode ≡ Case.fallback) ↔ (
        (one_of opcode indirect_loads_and_stores
          || (one_of opcode undefined_opcodes && not (one_of opcode interrupt_mask_opcodes)))
        ≡ true)
unfolding is_fallback lacks_case
decode-fallback_iff opcode h = ground (arith, is_fallback-decode opcode h)

is_mov : Case → Bool
is_mov Case.mov = true
is_mov _ = false

mov_table :
    all_below
      (λ k.
        k == 54
        || (is_mov (decode (0x40 + k))
            && middle_code (0x40 + k) == k / 8
            && low_code (0x40 + k) == k % 8))
      64
    ≡ true
unfolding all_below is_mov decode accumulator_case control_case default_case
mov_table = refl

is_mov-eq : (c : Case) → is_mov c ≡ true → c ≡ Case.mov
unfolding is_mov
is_mov-eq c h = ground arith

-- The opcode of MOV dst,src holds both codes; the one of MOV M,M is HLT.
pub decode-mov :
    (dst src : ℕ)
    → dst < 8
    → src < 8
    → dst * 8 + src ≢ 54
    → let opcode = 0x40 + (dst * 8 + src) in
      (decode opcode ≡ Case.mov) × (middle_code opcode ≡ dst) × (low_code opcode ≡ src)
decode-mov dst src hd hs ne =
    let k = dst * 8 + src in
    let row = all_below_sound _ 64 mov_table k (omega arith) in
    ground (arith, row, is_mov-eq (decode (0x40 + k)))
