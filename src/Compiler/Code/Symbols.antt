-- ===== src/Compiler/Code/Symbols.antt =====
-- Names of the code generator of src/compiler/compiler.c: its tables, and how a variable is found,
-- loaded and stored.
use turning_machine_operatin.Base.{
  ℕ, ◌+◌, Bool, true, false, ◌&&◌, ◌||◌, not, Option, none, some, List, [], ◌∷◌, ◌++◌, leb, ltb,
  ◌==◌, if◌then◌else◌, length, take, drop, same_bytes, u16,
}
use turning_machine_operatin.Compiler.Result.{ok, err}
use turning_machine_operatin.Compiler.Action.{◌>>=◌, ◌>>◌, pure, fail, when_else}
use turning_machine_operatin.Compiler.Token.{Token}
use turning_machine_operatin.Compiler.Ast.{AstKind, AstNode, get_elem?}
use turning_machine_operatin.Compiler.Code.{
  Function, Program, Codegen, Generate, emit_all, cg_emit1, cg_emit_addr16,
}

-- Is the node a name?
unfoldable pub is_ident : AstNode → Bool
is_ident n = elim n.kind [ AstKind.ident ↦ true | _ ↦ false ]

-- The value of the first entry with a name.
unfoldable pub find_first : List (List ℕ × ℕ) → List ℕ → Option ℕ
find_first [] name = none
find_first ((key, value) ∷ rest) name =
    let later = find_first rest name in if same_bytes key name then some value else later

-- The value of the last entry with a name.
unfoldable pub find_last : List (List ℕ × ℕ) → List ℕ → Option ℕ
find_last [] name = none
find_last ((key, value) ∷ rest) name = elim (find_last rest name) [
  | some later ↦ some later
  | none ↦ if same_bytes key name then some value else none
]

unfoldable pub cg_find_global : List ℕ → Codegen → Option ℕ
unfolding find_first
cg_find_global name g = find_first g.globals name

unfoldable pub cg_find_local : List ℕ → Codegen → Option ℕ
unfolding find_last
cg_find_local name g = find_last g.locals name

-- A name that does not fit its array, or a full table.
abbrev bad_entry : List ℕ → ℕ → ℕ → Bool
bad_entry name count capacity = leb capacity count || (length name == 0 || ltb 15 (length name))

unfoldable pub cg_add_global : List ℕ → Generate ℕ
cg_add_global name g =
    if bad_entry name (length g.globals) 64
    then err
    else ok (
      g.next_global_addr,
      record g {
        globals = g.globals ++ ((name, g.next_global_addr) ∷ []);
        next_global_addr = u16 (g.next_global_addr + 1);
      },
    )

unfoldable pub cg_add_local : List ℕ → Generate ℕ
cg_add_local name g =
    let sp_offset = u16 (length g.locals + 2) in
    if bad_entry name (length g.locals) 64
    then err
    else ok (sp_offset, record g { locals = g.locals ++ ((name, sp_offset) ∷ []) })

-- The index of the first function with a name among those from `i` on.
unfoldable pub find_function_from : List Function → List ℕ → ℕ → Option ℕ
find_function_from [] name i = none
find_function_from (f ∷ fs) name i =
    let later = find_function_from fs name (i + 1) in
    if same_bytes f.name name then some i else later

unfoldable pub cg_find_function : List ℕ → Codegen → Option ℕ
unfolding find_function_from
cg_find_function name g = find_function_from g.functions name 0

-- The slot of the new function.
unfoldable pub cg_add_function : List ℕ → Option ℕ → Generate ℕ
cg_add_function name body_node g =
    let entry : Function = record { name = name; body_node = body_node; addr = none } in
    if bad_entry name (length g.functions) 32
    then err
    else ok (length g.functions, record g { functions = g.functions ++ (entry ∷ []) })

unfoldable pub cg_add_pending_call : List ℕ → ℕ → Generate (Unit {0})
cg_add_pending_call name patch_at g =
    if bad_entry name (length g.pending_calls) 64
    then err
    else ok (tt, record g { pending_calls = g.pending_calls ++ ((name, patch_at) ∷ []) })

-- `cg_symbol_ref_t`
pub record SymbolRef : Type 0 where
  pub is_local : Bool
  pub value : ℕ

module _ (c : Program) where
  -- A node and its token, where both are in range.
  unfoldable pub node_token : ℕ → Option (AstNode × Token)
  node_token i = elim (get_elem? c.nodes i) [
    | none ↦ none
    | some n ↦ elim (get_elem? c.tokens n.token_index) [ none ↦ none | some t ↦ some (n, t) ]
  ]

  unfoldable pub cg_ident_name : Option ℕ → Generate (List ℕ)
  unfolding node_token is_ident
  cg_ident_name none = fail
  cg_ident_name (some i) = elim (node_token i) [
    | none ↦ fail
    | some (n, t) ↦
        when_else (is_ident n && not (t.length == 0 || ltb 15 t.length))
          (pure (take t.length (drop t.offset c.src))) fail
  ]

  unfoldable pub resolve_name : List ℕ → Bool → Bool → Generate SymbolRef
  unfolding cg_find_local cg_find_global cg_add_local cg_add_global
  resolve_name name want_local create_if_missing g = elim (cg_find_local name g) [
    | some sp_offset ↦ ok (record { is_local = true; value = sp_offset }, g)
    | none ↦ elim (if want_local then none else cg_find_global name g) [
      | some addr ↦ ok (record { is_local = false; value = addr }, g)
      | none ↦
          if not create_if_missing
          then err
          else if want_local
          then (do value ← cg_add_local name; pure (record { is_local = true; value = value })) g
          else (do value ← cg_add_global name; pure (record { is_local = false; value = value })) g
    ]
  ]

  unfoldable pub cg_symbol_resolve : Option ℕ → Bool → Bool → Generate SymbolRef
  unfolding cg_ident_name resolve_name
  cg_symbol_resolve ident_idx want_local create_if_missing = do
    name ← cg_ident_name ident_idx
    resolve_name name want_local create_if_missing

  -- LXI H,offset; DAD SP; MOV A,M, or LDA addr.
  unfoldable pub cg_emit_load_ref : SymbolRef → Generate (Unit {0})
  unfolding emit_all cg_emit1 cg_emit_addr16
  cg_emit_load_ref ref =
      when_else ref.is_local
        (do cg_emit1 c 0x21; cg_emit_addr16 c ref.value; emit_all c (0x39 ∷ 0x7E ∷ []))
        (do cg_emit1 c 0x3A; cg_emit_addr16 c ref.value)

  -- MOV B,A; LXI H,offset; DAD SP; MOV M,B; MOV A,B, or STA addr.
  unfoldable pub cg_emit_store_ref : SymbolRef → Generate (Unit {0})
  unfolding emit_all cg_emit1 cg_emit_addr16
  cg_emit_store_ref ref =
      when_else ref.is_local
        (do
          emit_all c (0x47 ∷ 0x21 ∷ [])
          cg_emit_addr16 c ref.value
          emit_all c (0x39 ∷ 0x70 ∷ 0x78 ∷ []))
        (do cg_emit1 c 0x32; cg_emit_addr16 c ref.value)
