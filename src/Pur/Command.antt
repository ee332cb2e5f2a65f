-- ===== src/Pur/Command.antt =====
-- Commands of the shell, pur/src/parse.c and pur/src/run.c: expressions joined by operators, checked as a
-- whole, and then loaded again and run one by one. What runs an expression is a parameter.
pub mod Checked
pub mod Chain
use panuti.Base.{
  ℕ, zero, suc, ◌+◌, ◌-◌, ◌*◌, Bool, true, false, not, ◌&&◌, ◌||◌, List, [], ◌∷◌, ◌++◌, Option,
  none, some, length, get_or, ltb, leb, ◌==◌, if◌then◌else◌,
}
use panuti.Pur.Lexer.{
  TokenType, Token, Status, is, end, and, or, bg, pipe, empty, syntax, operator, trailing_bg,
  reserved, exprs, Lexed, tokens, lex_error, lex_stuck, tokenize,
}
use panuti.Pur.Ast.{Ast, Memory, reset}
use panuti.Pur.Parser.{Outcome, done, error, stuck, Parse, token_at, parse_expr}

abbrev pub max_exprs : ℕ
max_exprs = 64

-- `pur_op_t`
pub data Op : Type 0 where
  op_none op_and op_or op_bg : Op

-- `expr_start` and `expr_op` of one expression.
pub record Part : Type 0 where
  pub start : ℕ
  pub op : Op

abbrev pub no_part : Part
no_part = record { start = 0; op = op_none }

pub data Command : Type 0 where
  parts : List Part → Command
  refused : Status → Command
  no_end : Command

abbrev pub is_bg : Op → Bool
is_bg op_none = false
is_bg op_and = false
is_bg op_or = false
is_bg op_bg = true

-- The operator that a token stands for.
abbrev pub op_of : TokenType → Op
op_of and = op_and
op_of or = op_or
op_of bg = op_bg
op_of type = op_none

abbrev pub is_join : TokenType → Bool
is_join type = is type and || is type or || is type bg

abbrev pub with_expr : Outcome ℕ → (Parse → ℕ → Command) → Command
with_expr (done q n) k = k q n
with_expr (error e) k = refused e
with_expr stuck k = no_end

module _ (m : Memory) (toks : List Token) where
  -- The expression that starts at a token, in empty pools.
  unfoldable pub expr_at : (start : ℕ) → Outcome ℕ
  expr_at start = parse_expr m toks (4 * length toks + 3) 0 (record { ast = reset; pos = start })

  -- The loop of `pur_parse_command`, with the expressions so far.
  unfoldable pub command_loop : ℕ → List Part → (pos : ℕ) → Command
  command_loop zero ps pos = no_end
  command_loop (suc fuel) ps pos =
      let t = (token_at m toks pos).type in
      let parsed = with_expr (expr_at pos) (λ q root.
        let behind = (token_at m toks q.pos).type in
        let again =
          command_loop fuel (ps ++ record { start = pos; op = op_of behind } ∷ []) (q.pos + 1) in
        if is_join behind
        then again
        else if is behind end
        then parts (ps ++ record { start = pos; op = op_none } ∷ [])
        else if is behind pipe
        then refused reserved
        else refused syntax) in
      if is t pipe
      then refused reserved
      else if is_join t
      then refused operator
      else if is t end
      then (if is_bg (get_or ps (length ps - 1) no_part).op
          then refused trailing_bg
          else refused operator)
      else if leb max_exprs (length ps)
      then refused exprs
      else parsed

  -- `pur_parse_command` behind the lexer.
  unfoldable pub check_command : Command
  check_command =
      if is (token_at m toks 0).type end then refused empty else command_loop (length toks + 1) [] 0

  -- `pur_parse_load`; the root is the answer.
  unfoldable pub load : List Part → (index : ℕ) → Outcome ℕ
  load ps index =
      if leb (length ps) index then error syntax else expr_at (get_or ps index no_part).start

-- `pur_parse_command`
unfoldable pub parse_command : Memory → (line : List ℕ) → Command
parse_command m line = elim (tokenize m.for_tokens line) as (λ _. Command) [
  | tokens ts ↦ check_command m ts
  | lex_error e ↦ refused e
  | lex_stuck ↦ no_end
]

-- `pur_parse_op`
abbrev pub op_at : List Part → (index : ℕ) → Op
op_at ps index = if leb (length ps) index then op_none else (get_or ps index no_part).op

-- `pur_op_should_run`
abbrev pub should_run : Op → (status : ℕ) → Bool
should_run op_none status = true
should_run op_and status = status == 0
should_run op_or status = not (status == 0)
should_run op_bg status = true

-- What comes of an expression: the status of its last command, or that it was not started.
pub data Ran : Type 0 where
  exit : (status : ℕ) → Ran
  not_found not_started : Ran

abbrev pub status_of : Ran → ℕ
status_of (exit st) = st
status_of not_found = 127
status_of not_started = 1

-- A run with what it changes and the last status.
pub record Run {ℓ} (W : Type ℓ) : Type ℓ where
  pub world : W
  pub status : ℕ

module _ {ℓ} {W : Type ℓ} (exec : Ast → (root : ℕ) → W → W)
    (result : Ast → (root : ℕ) → W → Ran) where
  abbrev pub exec_expr : Ast → (root : ℕ) → Run W → Run W
  exec_expr a root r = record {
    world = exec a root r.world;
    status = status_of (result a root r.world);
  }

  -- The allocator has another answer for each load, since it asks for the members of groups again.
  module _ (ms : (index : ℕ) → Memory) (toks : List Token) (ps : List Part) where
    -- The loop of `pur_run_command` without -n, with `left` more expressions: what the expressions that ran have
    -- left, and whether all of them loaded; the code returns -1 at the first one that does not load. `none` is
    -- a parser out of fuel.
    unfoldable pub run_loop : (left index : ℕ) → Run W → Option (Run W × Bool)
    run_loop zero index r = some (r, true)
    run_loop (suc left) index r =
        let skipped = run_loop left (index + 1) r in
        let runs = elim (load (ms index) toks ps index) as (λ _. Option (Run W × Bool)) [
          | done q root ↦ run_loop left (index + 1) (exec_expr q.ast root r)
          | error e ↦ some (r, false)
          | stuck ↦ none
        ] in
        if ltb 0 index && not (should_run (op_at ps (index - 1)) r.status) then skipped else runs

    -- `pur_run_command` without -n
    unfoldable pub run_command : W → Option (Run W × Bool)
    run_command w = run_loop (length ps) 0 (record { world = w; status = 0 })
