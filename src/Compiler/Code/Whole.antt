-- ===== src/Compiler/Code/Whole.antt =====
-- `cc_codegen` and `cc_compile` of src/compiler/compiler.c: the whole program.
use turning_machine_operatin.Base.{until_nul}
use turning_machine_operatin.Base.{
  ℕ, zero, suc, ◌+◌, Bool, true, false, ◌||◌, Option, none, some, List, [], ◌∷◌, ◌==◌,
  if◌then◌else◌, length, take, same_bytes, codes, u8, bit_and, ◌>>>◌,
}
use turning_machine_operatin.Compiler.Result.{Result, ok, err, starved, bind}
use turning_machine_operatin.Compiler.Action.{◌>>=◌, ◌>>◌, pure, fail, hungry, when_else}
use turning_machine_operatin.Compiler.Token.{Token}
use turning_machine_operatin.Compiler.Lexer.{cc_lex}
use turning_machine_operatin.Compiler.Ast.{AstKind, AstNode, get_elem?, modify}
use turning_machine_operatin.Compiler.Parser.Stmt.{cc_parse}
use turning_machine_operatin.Compiler.Code.{
  Program, Codegen, Generate, cg_emit1, emit_all, cg_emit_addr16, cg_emit_jump_placeholder,
  cg_patch_jump,
}
use turning_machine_operatin.Compiler.Code.Symbols.{
  cg_symbol_resolve, cg_ident_name, cg_add_function, cg_find_function,
}
use turning_machine_operatin.Compiler.Code.Expr.{function_addr, cg_expr}
use turning_machine_operatin.Compiler.Code.Stmt.{optional_stmt, cg_stmt}

module _ (c : Program) where
  -- One declaration: a global variable, or an entry of the function table. `main_func` is the slot
  -- of `main` so far.
  unfoldable pub collect_decl : Option ℕ → AstNode → AstKind → Option ℕ → Generate (Option ℕ)
  unfolding cg_symbol_resolve cg_ident_name cg_add_function
  collect_decl (some ident) n AstKind.var_decl main_func = do
    ref ← cg_symbol_resolve c (some ident) false true
    pure main_func
  collect_decl (some ident) n AstKind.func_decl main_func = do
    fname ← cg_ident_name c (some ident)
    fidx ← cg_add_function fname n.third
    pure (if same_bytes fname (codes "main") then some fidx else main_func)
  collect_decl left n _ main_func = pure main_func

  unfoldable pub collect_loop : ℕ → Option ℕ → Option ℕ → Generate (Option ℕ)
  unfolding collect_decl
  collect_loop fuel none main_func = pure main_func
  collect_loop zero (some i) main_func = hungry
  collect_loop (suc fuel) (some i) main_func = elim (get_elem? c.nodes i) [
    | none ↦ fail
    | some n ↦ (do
      main_func₁ ← collect_decl n.left n n.kind main_func
      collect_loop fuel n.next main_func₁)
  ]

  -- `cg.functions[i].addr = cg_pos(&cg); cg.local_count = 0;`
  unfoldable pub begin_function : ℕ → Generate (Option ℕ)
  begin_function i g = ok (
    elim (get_elem? g.functions i) [ none ↦ none | some f ↦ f.body_node ],
    record g {
      functions = modify g.functions i (λ f. record f { addr = some (length g.buf) });
      locals = [];
    },
  )

  -- The functions from slot `i` on. One that need not return returns 0 at its end.
  unfoldable pub function_loop : ℕ → ℕ → ℕ → Generate (Unit {0})
  unfolding begin_function optional_stmt cg_stmt emit_all
  function_loop inner zero i = pure tt
  function_loop inner (suc left) i = do
    body ← begin_function i
    returned ← optional_stmt c (cg_expr c inner) (cg_stmt c inner) body
    when_else returned (pure tt) (emit_all c (0x3E ∷ 0x00 ∷ 0xC9 ∷ []))
    function_loop inner left (i + 1)

  -- A call's target is the address of a function, once it is generated.
  unfoldable pub patch_call : ℕ → Option ℕ → Generate (Unit {0})
  unfolding cg_patch_jump function_addr
  patch_call patch_at none = fail
  patch_call patch_at (some fidx) = λ g. elim (function_addr g.functions fidx) [
    | none ↦ err
    | some addr ↦ cg_patch_jump c patch_at addr g
  ]

  unfoldable pub patch_pending : List (List ℕ × ℕ) → Generate (Unit {0})
  unfolding patch_call cg_find_function
  patch_pending [] = pure tt
  patch_pending ((name, patch_at) ∷ rest) = do
    λ g. patch_call patch_at (cg_find_function name g) g
    patch_pending rest

  -- LXI SP,0xFDFF; CALL main; HLT; then the functions, and the calls patched.
  unfoldable pub generate_program : Generate (Unit {0})
  unfolding collect_loop cg_emit1 cg_emit_addr16 cg_emit_jump_placeholder emit_all function_loop
      patch_call patch_pending
  generate_program = do
    let inner = suc (length c.nodes)
    main_func ←
        collect_loop inner (elim (get_elem? c.nodes 0) [ none ↦ none | some n ↦ n.left ]) none
    count ← λ g. ok (length g.functions, g)
    when_else (count == 0) fail (pure tt)
    cg_emit1 c 0x31
    cg_emit_addr16 c 0xFDFF
    entry_call_patch ← cg_emit_jump_placeholder c 0xCD
    emit_all c (0x76 ∷ [])
    function_loop inner count 0
    patch_call entry_call_patch (some (elim main_func [ none ↦ 0 | some fidx ↦ fidx ]))
    pending ← λ g. ok (g.pending_calls, g)
    patch_pending pending

-- The code; its length is the value of `*out_len`.
unfoldable pub cc_codegen : List AstNode → List ℕ → List Token → ℕ → Result (List ℕ)
unfolding generate_program
cc_codegen nodes src tokens out_cap =
    let c : Program = record { nodes = nodes; src = src; tokens = tokens; cap = out_cap } in
    let empty : Codegen = record {
      buf = [];
      next_global_addr = 0x2000;
      globals = [];
      locals = [];
      functions = [];
      pending_calls = [];
    } in
    let is_program : Bool = elim (get_elem? nodes 0) [
      | none ↦ false
      | some n ↦ elim n.kind [ AstKind.program ↦ true | _ ↦ false ]
    ] in
    if length nodes == 0 || (length tokens == 0 || out_cap == 0)
    then err
    else if is_program
    then bind (generate_program c empty) (λ r. ok r.1.buf)
    else err

unfoldable pub checksum_loop : List ℕ → ℕ → ℕ
checksum_loop [] checksum = checksum
checksum_loop (ch ∷ rest) checksum = checksum_loop rest (bit_and (checksum + ch) 0xFFFF)

-- NOP; MVI A,low; MVI B,high; HLT
unfoldable pub stub : ℕ → List ℕ
stub checksum =
    0x00
    ∷ (0x3E
        ∷ (u8 (bit_and checksum 0xFF)
            ∷ (0x06 ∷ (u8 (bit_and (checksum >>> 8) 0xFF) ∷ (0x76 ∷ [])))))

-- What is written for the generator's outcome: the stub where it fails.
unfoldable pub code_or_stub : Result (List ℕ) → ℕ → Result (List ℕ)
unfolding stub
code_or_stub (ok code) checksum = if length code == 0 then err else ok code
code_or_stub err checksum = ok (stub checksum)
code_or_stub starved checksum = starved

-- The bytes of the output file for those of the source file; the files themselves are the host's.
unfoldable pub cc_compile : List ℕ → Result (List ℕ)
unfolding cc_lex cc_parse cc_codegen until_nul checksum_loop code_or_stub
cc_compile file =
    let bytes = take 16383 file in
    let src = until_nul bytes in
    bind (cc_lex src 4096) (λ tokens.
      bind (cc_parse src tokens 8192)
        (λ nodes. code_or_stub (cc_codegen nodes src tokens 16384) (checksum_loop bytes 0)))
