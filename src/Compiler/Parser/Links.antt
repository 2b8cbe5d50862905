-- ===== src/Compiler/Parser/Links.antt =====
-- Nodes whose links lead to nodes of the same array.
use turning_machine_operatin.Base.{
  ℕ, zero, suc, ◌≤◌, ◌<◌, ◌≡◌, refl, sym, ap, Option, none, some, List, [], ◌∷◌, ◌++◌, length,
  length-append, arith,
}
use mathlib.Core.Path.{subst}
use turning_machine_operatin.Compiler.Ast.{AstKind, AstNode, blank_node, modify}

-- The link is -1 or below `n`.
abbrev pub IsLink : ℕ → Option ℕ → Type 0
IsLink n none = Unit
IsLink n (some i) = i < n

abbrev pub IsNode : ℕ → AstNode → Type 0
IsNode n node = IsLink n node.left × IsLink n node.right × IsLink n node.third × IsLink n node.next

abbrev pub AllNodes : ℕ → List AstNode → Type 0
AllNodes n [] = Unit
AllNodes n (node ∷ nodes) = IsNode n node × AllNodes n nodes

-- Every link of every node is -1 or the index of a node.
abbrev pub IsLinked : List AstNode → Type 0
IsLinked nodes = AllNodes (length nodes) nodes

IsLink-mono : {n m : ℕ} (link : Option ℕ) → n ≤ m → IsLink n link → IsLink m link
IsLink-mono none h l = tt
IsLink-mono (some i) h l = omega arith

AllNodes-mono : {n m : ℕ} (nodes : List AstNode) → n ≤ m → AllNodes n nodes → AllNodes m nodes
AllNodes-mono [] h l = tt
AllNodes-mono (node ∷ nodes) h l = (
  (
    IsLink-mono node.left h l.0.0,
    IsLink-mono node.right h l.0.1,
    IsLink-mono node.third h l.0.2,
    IsLink-mono node.next h l.0.3,
  ),
  AllNodes-mono nodes h l.1,
)

AllNodes-append :
    (n : ℕ) (xs ys : List AstNode) → AllNodes n xs → AllNodes n ys → AllNodes n (xs ++ ys)
AllNodes-append n [] ys h l = l
AllNodes-append n (x ∷ xs) ys h l = (h.0, AllNodes-append n xs ys h.1 l)

pub IsLinked-append_blank :
    (nodes : List AstNode) (kind : AstKind) (token_index : ℕ)
    → IsLinked nodes
    → IsLinked (nodes ++ (blank_node kind token_index ∷ []))
unfolding blank_node
IsLinked-append_blank nodes kind token_index h =
    let blank = blank_node kind token_index in
    let grows : length nodes ≤ length (nodes ++ (blank ∷ [])) =
      omega (arith, length-append {0} nodes (blank ∷ [])) in
    AllNodes-append _ nodes (blank ∷ []) (AllNodes-mono nodes grows h) ((tt, tt, tt, tt), tt)

pub length-modify {ℓ} :
    {A : Type ℓ} (xs : List A) (i : ℕ) (f : A → A) → length (modify xs i f) ≡ length xs
length-modify [] i f = refl
length-modify (x ∷ xs) zero f = refl
length-modify (x ∷ xs) (suc i) f = ap suc (length-modify xs i f)

AllNodes-modify :
    (n : ℕ) (nodes : List AstNode) (i : ℕ) (f : AstNode → AstNode)
    → ((node : AstNode) → IsNode n node → IsNode n (f node))
    → AllNodes n nodes
    → AllNodes n (modify nodes i f)
AllNodes-modify n [] i f keeps h = tt
AllNodes-modify n (node ∷ nodes) zero f keeps h = (keeps node h.0, h.1)
AllNodes-modify n (node ∷ nodes) (suc i) f keeps h = (h.0, AllNodes-modify n nodes i f keeps h.1)

pub IsLinked-modify :
    (nodes : List AstNode) (i : ℕ) (f : AstNode → AstNode)
    → ((node : AstNode) → IsNode (length nodes) node → IsNode (length nodes) (f node))
    → IsLinked nodes
    → IsLinked (modify nodes i f)
IsLinked-modify nodes i f keeps h =
    subst (λ (n : ℕ). AllNodes n (modify nodes i f)) (sym (length-modify nodes i f))
      (AllNodes-modify (length nodes) nodes i f keeps h)
