-- ===== src/Pur/Parser.antt =====
-- The parser of one expression, pur/src/parse.c. The tokens are a parameter, and a read behind them gives
-- the end token. An error ends every function that is running; `stuck` is a run without fuel.
pub mod Steps
pub mod Accepted
use panuti.Base.{
  ℕ, zero, suc, ◌+◌, ◌-◌, Bool, true, false, not, ◌&&◌, ◌||◌, List, [], ◌∷◌, ◌++◌, Option, none,
  some, length, get_or, ltb, leb, ◌==◌, if◌then◌else◌,
}
use panuti.Pur.Lexer.{
  TokenType, Token, Status, end_token, is, word, lparen, rparen, semi, gt, syntax, empty_group,
  nodes, leaves, argv, complex, memory,
}
use panuti.Pur.Ast.{
  Ast, Memory, Node, leaf, group, expr, no_node, node_new, leaf_new, argv_push, group_set,
}

abbrev pub max_depth : ℕ
max_depth = 16

abbrev pub max_argv : ℕ
max_argv = 32

-- `pos` and the pools.
pub record Parse : Type 0 where
  pub ast : Ast
  pub pos : ℕ

pub data Outcome {ℓ} (A : Type ℓ) : Type ℓ where
  done : Parse → A → Outcome A
  error : Status → Outcome A
  stuck : Outcome A

abbrev pub after {ℓ κ} : {A : Type ℓ} {B : Type κ} → Outcome A → (Parse → A → Outcome B) → Outcome B
after (done p a) k = k p a
after (error e) k = error e
after stuck k = stuck

-- A step that may find no room.
abbrev pub or_error {ℓ} : {A : Type ℓ} → Option Ast → Status → (Ast → Outcome A) → Outcome A
or_error none e k = error e
or_error (some a) e k = k a

abbrev pub advance : Parse → Parse
advance p = record p { pos = p.pos + 1 }

module _ (m : Memory) (toks : List Token) where
  abbrev pub token_at : ℕ → Token
  token_at i = get_or toks i end_token

  abbrev pub at : Parse → TokenType → Bool
  at p t = is (token_at p.pos).type t

  -- The loop of `parse_leaf`, with room for `left` more words; it gives `argc`.
  unfoldable pub words : (left : ℕ) → Parse → Outcome ℕ
  words zero p = if at p word then error argv else done p max_argv
  words (suc left) p =
      let pushed =
        or_error (argv_push m (token_at p.pos).off p.ast) argv
          (λ a. words left (record { ast = a; pos = p.pos + 1 })) in
      if at p word then pushed else done p (max_argv - suc left)

  -- The rest of `parse_leaf`.
  abbrev pub new_leaf : (argv_first : ℕ) → Parse → ℕ → Outcome ℕ
  new_leaf argv_first p argc =
      or_error (leaf_new (record { argv_first = argv_first; argc = argc }) p.ast) leaves (λ a.
        or_error (node_new m (record no_node { kind = leaf; first = length p.ast.leaves }) a) nodes
          (λ b. done (record p { ast = b }) (length p.ast.nodes)))

  unfoldable pub parse_leaf : Parse → Outcome ℕ
  parse_leaf p = after (words max_argv p) (new_leaf (length p.ast.argv_off))

  -- A node for `lhs > rhs`.
  abbrev pub new_expr : (lhs : ℕ) → Parse → (rhs : ℕ) → Outcome ℕ
  new_expr lhs p rhs =
      or_error (node_new m (record { kind = expr; first = lhs; count = 0; rhs = rhs }) p.ast) nodes
        (λ a. done (record p { ast = a }) (length p.ast.nodes))

  abbrev pub single : List ℕ → ℕ → ℕ
  single [] g = g
  single (n ∷ []) g = n
  single (n ∷ o ∷ ns) g = g

  -- The end of `parse_group`, with the members.
  abbrev pub close_group : Parse → List ℕ → Outcome ℕ
  close_group p members =
      if at p rparen
      then or_error (node_new m (record no_node { kind = group }) p.ast) nodes (λ a.
        or_error (group_set m (length p.ast.nodes) members a) nodes
          (λ b. done (record { ast = b; pos = p.pos + 1 }) (single members (length p.ast.nodes))))
      else error syntax

  abbrev pub starts_operand : Parse → Bool
  starts_operand p = at p word || at p lparen

  unfoldable mutual
    pub parse_expr : ℕ → (depth : ℕ) → Parse → Outcome ℕ
    parse_expr zero depth p = stuck
    parse_expr (suc fuel) depth p = after (parse_operand fuel depth p) (fold_loop fuel depth 0)

    -- The loop of `parse_expr`, with `node` the operands so far.
    pub fold_loop : ℕ → (depth fold : ℕ) → Parse → (node : ℕ) → Outcome ℕ
    fold_loop zero depth fold p node = stuck
    fold_loop (suc fuel) depth fold p node =
        let more =
          after (parse_operand fuel (depth + fold + 1) (advance p))
            (λ q rhs. after (new_expr node q rhs) (fold_loop fuel depth (fold + 1))) in
        if not (at p gt)
        then done p node
        else if ltb max_depth (depth + fold + 1)
        then error complex
        else if not (starts_operand (advance p))
        then error syntax
        else more

    pub parse_operand : ℕ → (depth : ℕ) → Parse → Outcome ℕ
    parse_operand zero depth p = stuck
    parse_operand (suc fuel) depth p =
        let grouped = parse_group fuel depth p in
        if at p lparen then grouped else if at p word then parse_leaf p else error syntax

    pub parse_group : ℕ → (depth : ℕ) → Parse → Outcome ℕ
    parse_group zero depth p = stuck
    parse_group (suc fuel) depth p =
        let members = after (group_loop fuel depth (advance p) []) close_group in
        if not (at p lparen)
        then error syntax
        else if leb max_depth depth
        then error complex
        else if at (advance p) rparen
        then error empty_group
        else members

    -- The loop of `parse_group`, with the members so far.
    pub group_loop : ℕ → (depth : ℕ) → Parse → List ℕ → Outcome (List ℕ)
    group_loop zero depth p members = stuck
    group_loop (suc fuel) depth p members =
        let parsed = after (parse_expr fuel (depth + 1) p) (λ q n.
          let again = group_loop fuel depth (advance q) (members ++ n ∷ []) in
          if not (at q semi)
          then done q (members ++ n ∷ [])
          else if at (advance q) rparen
          then done (advance q) (members ++ n ∷ [])
          else again) in
        if ltb m.for_members (length members + 1) then error memory else parsed
