-- ===== src/Pur/Ast.antt =====
-- The pools of the syntax tree, pur/src/ast.c. An index is a number, and how many elements the allocator
-- lets each pool grow to is a parameter.
pub mod Sound
use panuti.Base.{
  ℕ, suc, ◌+◌, Bool, true, false, List, [], ◌∷◌, ◌++◌, Option, none, some, length, get_or, set, ltb,
  leb, if◌then◌else◌,
}

-- `pur_kind_t`
pub data Kind : Type 0 where
  leaf group expr : Kind

pub record Node : Type 0 where
  pub kind : Kind
  pub first : ℕ
  pub count : ℕ
  pub rhs : ℕ

pub record Leaf : Type 0 where
  pub argv_first : ℕ
  pub argc : ℕ

pub record Ast : Type 0 where
  pub nodes : List Node
  pub leaves : List Leaf
  pub argv_off : List ℕ
  pub member_pool : List ℕ

-- What the allocator grants: the most elements of each pool.
pub record Memory : Type 0 where
  pub for_tokens : ℕ
  pub for_nodes : ℕ
  pub for_argv : ℕ
  pub for_members : ℕ

abbrev pub max_leaves : ℕ
max_leaves = 16

abbrev pub no_node : Node
no_node = record { kind = leaf; first = 0; count = 0; rhs = 0 }

abbrev pub no_leaf : Leaf
no_leaf = record { argv_first = 0; argc = 0 }

-- `pur_ast_reset`
abbrev pub reset : Ast
reset = record { nodes = []; leaves = []; argv_off = []; member_pool = [] }

-- `pur_node_new`; the index of the new node is the length of the pool before.
unfoldable pub node_new : Memory → Node → Ast → Option Ast
node_new m n a =
    if ltb (length a.nodes) m.for_nodes then some (record a { nodes = a.nodes ++ n ∷ [] }) else none

-- `pur_leaf_new`
unfoldable pub leaf_new : Leaf → Ast → Option Ast
leaf_new l a =
    if leb max_leaves (length a.leaves)
    then none
    else some (record a { leaves = a.leaves ++ l ∷ [] })

-- `pur_argv_push`
unfoldable pub argv_push : Memory → ℕ → Ast → Option Ast
argv_push m off a =
    if ltb (length a.argv_off) m.for_argv
    then some (record a { argv_off = a.argv_off ++ off ∷ [] })
    else none

-- `pur_group_set`
unfoldable pub group_set : Memory → (group_node : ℕ) → List ℕ → Ast → Option Ast
group_set m g members a =
    if ltb m.for_members (length a.member_pool + length members)
    then none
    else some (record a {
      nodes = set a.nodes g (record (get_or a.nodes g no_node) {
        first = length a.member_pool;
        count = length members;
      });
      member_pool = a.member_pool ++ members;
    })
