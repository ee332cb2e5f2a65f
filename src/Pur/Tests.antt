-- ===== src/Pur/Tests.antt =====
-- The shell on some lines.
use panuti.Base.{ℕ, ◌+◌, ◌≡◌, ◌==◌, if◌then◌else◌, refl, true, false, List, [], ◌∷◌, some, arith}
use panuti.Pur.Lexer.{
  Token, word, lparen, rparen, semi, gt, and, token_of, tokens, lex_error, quote, tokenize,
  lex_loop, next_token, skip, word_len, quoted_len, reserved, syntax, trailing_bg,
}
use panuti.Pur.Lexer.Bounds.{Ends, tokenize-Ends}
use panuti.Pur.Ast.{Ast, Memory, reset, node_new, leaf_new, argv_push, group_set}
use panuti.Pur.Parser.{parse_expr, parse_leaf, words}
use panuti.Pur.Parser.Steps.{Accepts, NodeOf}
use panuti.Pur.Parser.Accepted.{parse_expr-Accepts}
use panuti.Pur.Command.{
  Part, op_none, op_and, parts, refused, expr_at, command_loop, check_command, parse_command,
  run_loop, load, run_command, Ran, exit,
}
use panuti.Pur.Command.Checked.{CommandOf, parse_command-Runs, reset-IsSound}
use panuti.Pur.Command.Chain.{Tree, TreesOf, chain, run_command-chain}

abbrev room : Memory
room = record { for_tokens = 100; for_nodes = 100; for_argv = 100; for_members = 100 }

-- a "b c" && (d; e) > f
abbrev line : List ℕ
line =
    97 ∷ 32 ∷ 34 ∷ 98 ∷ 32 ∷ 99 ∷ 34 ∷ 32 ∷ 38 ∷ 38 ∷ 32 ∷ 40 ∷ 100 ∷ 59 ∷ 32 ∷ 101 ∷ 41 ∷ 62 ∷ 102
    ∷ []

abbrev line_tokens : List Token
line_tokens =
    token_of word 0 1
    ∷ token_of word 3 3
    ∷ token_of and 8 2
    ∷ token_of lparen 11 1
    ∷ token_of word 12 1
    ∷ token_of semi 13 1
    ∷ token_of word 15 1
    ∷ token_of rparen 16 1
    ∷ token_of gt 17 1
    ∷ token_of word 18 1
    ∷ []

abbrev line_parts : List Part
line_parts = record { start = 0; op = op_and } ∷ record { start = 3; op = op_none } ∷ []

tokenize_line : tokenize 100 line ≡ tokens line_tokens
unfolding tokenize lex_loop next_token skip word_len quoted_len
tokenize_line = refl

-- An open quote, and no room for the end token.
tokenize_open : tokenize 100 (97 ∷ 34 ∷ 98 ∷ []) ≡ lex_error quote
unfolding tokenize lex_loop next_token skip word_len quoted_len
tokenize_open = refl

check_command_line : check_command room line_tokens ≡ parts line_parts
unfolding check_command command_loop expr_at parse_expr parse_leaf words argv_push leaf_new node_new
    group_set
check_command_line = refl

-- a | b, a & and (a
parse_command_pipe : parse_command room (97 ∷ 124 ∷ 98 ∷ []) ≡ refused reserved
unfolding parse_command tokenize lex_loop next_token skip word_len quoted_len check_command
    command_loop expr_at parse_expr parse_leaf words argv_push leaf_new node_new group_set
parse_command_pipe = refl

parse_command_bg : parse_command room (97 ∷ 38 ∷ []) ≡ refused trailing_bg
unfolding parse_command tokenize lex_loop next_token skip word_len quoted_len check_command
    command_loop expr_at parse_expr parse_leaf words argv_push leaf_new node_new group_set
parse_command_bg = refl

parse_command_open : parse_command room (40 ∷ 97 ∷ []) ≡ refused syntax
unfolding parse_command tokenize lex_loop next_token skip word_len quoted_len check_command
    command_loop expr_at parse_expr parse_leaf words argv_push leaf_new node_new group_set
parse_command_open = refl

tokenize-Ends_example : Ends 0 19 100 0 (tokenize 100 line)
tokenize-Ends_example = tokenize-Ends 100 line

parse_expr-Accepts_example :
    Accepts
      (NodeOf room line_tokens (record { ast = reset; pos = 3 }))
      (parse_expr room line_tokens 43 0 (record { ast = reset; pos = 3 }))
parse_expr-Accepts_example =
    parse_expr-Accepts room line_tokens 43 0 (record { ast = reset; pos = 3 }) reset-IsSound
      (omega arith) (omega arith)

parse_command-Runs_example : CommandOf room (tokenize 100 line) (parse_command room line)
parse_command-Runs_example = parse_command-Runs room line

-- A world that counts what ran, and a first command that fails.
abbrev count : Ast → ℕ → ℕ → ℕ
count a root w = w + 1

abbrev fails : Ast → ℕ → ℕ → Ran
fails a root w = exit 1

-- The second load finds no room for the members of a group.
abbrev room_at : (index : ℕ) → Memory
room_at index = if index == 1 then record room { for_members = 1 } else room

run_command-chain_example :
    (ts : List Tree) × TreesOf room room_at line_tokens 0 line_parts ts
    × (run_command count fails room_at line_tokens line_parts 0
        ≡ some (chain count fails op_none ts (record { world = 0; status = 0 })))
run_command-chain_example =
    run_command-chain count fails room room_at line_tokens line_parts 0 check_command_line

run_command_line :
    run_command count fails room_at line_tokens line_parts 0
    ≡ some (record { world = 1; status = 1 }, true)
unfolding run_command run_loop load expr_at parse_expr parse_leaf words argv_push leaf_new node_new
    group_set
run_command_line = refl

-- With a first command that works, the second one is to run, and does not load.
abbrev works : Ast → ℕ → ℕ → Ran
works a root w = exit 0

run_command_fails :
    run_command count works room_at line_tokens line_parts 0
    ≡ some (record { world = 1; status = 0 }, false)
unfolding run_command run_loop load expr_at parse_expr parse_leaf words argv_push leaf_new node_new
    group_set
run_command_fails = refl
