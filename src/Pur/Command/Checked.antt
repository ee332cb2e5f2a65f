-- ===== src/Pur/Command/Checked.antt =====
-- A command that is accepted loads: every expression of it parses again, into sound pools.
use panuti.Base.{
  ℕ, zero, suc, ◌+◌, ◌-◌, ◌*◌, ◌≤◌, ◌<◌, ◌≡◌, refl, Bool, true, false, List, [], ◌∷◌, ◌++◌, arith,
  length, get_or, leb, if◌then◌else◌,
}
use panuti.Pur.Lexer.{
  Token, is, and, or, bg, pipe, end, TokenType, code, Lexed, tokens, lex_error, lex_stuck, tokenize,
}
use panuti.Pur.Lexer.Bounds.{Ends, tokenize-Ends}
use panuti.Pur.Ast.{Memory, reset}
use panuti.Pur.Ast.Sound.{IsSound, snoc_elim, length-snoc}
use panuti.Pur.Parser.{Outcome, done, Parse, token_at}
use panuti.Pur.Parser.Steps.{Accepts, accepts, refuses, NodeOf, at-inside}
use panuti.Pur.Parser.Accepted.{parse_expr-Accepts}
use panuti.Pur.Command.{
  max_exprs, Op, op_none, op_and, op_or, op_bg, Part, no_part, Command, parts, refused, no_end,
  is_bg, op_of, is_join, with_expr, expr_at, command_loop, check_command, parse_command,
}

abbrev pub IsJoin : Op → Type 0
IsJoin op_none = ⊥
IsJoin op_and = Unit {0}
IsJoin op_or = Unit {0}
IsJoin op_bg = Unit {0}

abbrev pub IsLast : Op → Type 0
IsLast op_none = Unit {0}
IsLast op_and = ⊥
IsLast op_or = ⊥
IsLast op_bg = ⊥

pub reset-IsSound : IsSound reset
reset-IsSound = record {
  nodes_in = λ i lt. absurd (omega arith);
  leaves_in = λ i lt. absurd (omega arith);
  few_leaves = omega arith;
}

op_of-IsJoin : (t : TokenType) → is_join t ≡ true → IsJoin (op_of t)
op_of-IsJoin and e = tt
op_of-IsJoin or e = tt
op_of-IsJoin bg e = tt
op_of-IsJoin end e = absurd (ground arith)
op_of-IsJoin _ e = absurd (ground arith)

join-real : (t : TokenType) → is_join t ≡ true → 0 < code t
join-real t e = ground arith

module _ (m : Memory) (toks : List Token) where
  -- The expression is a tree of sound pools.
  abbrev pub Loads : Part → Type 0
  Loads part =
      (q : Parse) × (root : ℕ) × (expr_at m toks part.start ≡ done q root)
      × IsSound q.ast
      × (root < length q.ast.nodes)
      × (part.start ≤ length toks)

  -- The expressions so far, each with an operator behind it.
  abbrev Joined : List Part → Type 0
  Joined ps =
      (i : ℕ) → i < length ps → Loads (get_or ps i no_part) × IsJoin (get_or ps i no_part).op

  -- An expression loads, and it alone has no operator behind it when it is the last.
  abbrev pub IsPart : (size i : ℕ) → Part → Type 0
  IsPart size i part =
      Loads part × (suc i < size → IsJoin part.op) × (suc i ≡ size → IsLast part.op)

  abbrev pub Runs : Command → Type 0
  Runs (parts ps) =
      (0 < length ps)
      × (length ps ≤ max_exprs)
      × ((i : ℕ) → i < length ps → IsPart (length ps) i (get_or ps i no_part))
  Runs (refused e) = Unit {0}
  Runs no_end = ⊥

  Runs-if :
      (b : Bool) (x y : Command)
      → (b ≡ true → Runs x)
      → (b ≡ false → Runs y)
      → Runs (if b then x else y)
  Runs-if true x y f g = f refl
  Runs-if false x y f g = g refl

  Runs-with_expr :
      (P : Parse → ℕ → Type 0) (o : Outcome ℕ) (k : Parse → ℕ → Command)
      → Accepts P o
      → ((q : Parse) (n : ℕ) → o ≡ done q n → P q n → Runs (k q n))
      → Runs (with_expr o k)
  Runs-with_expr P _ k (accepts {q} {a} h) next = next q a refl h
  Runs-with_expr P _ k refuses next = tt

  Runs-last :
      (ps : List Part) (part : Part)
      → Joined ps
      → length ps < max_exprs
      → Loads part
      → IsLast part.op
      → Runs (parts (ps ++ part ∷ []))
  Runs-last ps part joined few loads last =
      let size = length-snoc ps part in
      (
        omega (arith, size),
        omega (arith, size),
        snoc_elim (IsPart (length (ps ++ part ∷ []))) ps part no_part
            (λ i lt. ((joined i lt).0, (λ h. (joined i lt).1), (λ h. absurd (omega (arith, size)))))
            (loads, (λ h. absurd (omega (arith, size))), (λ h. last)),
      )

  pub expr_at-Accepts :
      (pos : ℕ)
      → pos ≤ length toks
      → Accepts (NodeOf m toks (record { ast = reset; pos = pos })) (expr_at m toks pos)
  unfolding expr_at
  expr_at-Accepts pos inside =
      parse_expr-Accepts m toks (4 * length toks + 3) 0 (record { ast = reset; pos = pos })
        reset-IsSound inside (omega arith)

  command_loop-Runs :
      (fuel : ℕ) (ps : List Part) (pos : ℕ)
      → Joined ps
      → pos ≤ length toks
      → length toks < fuel + pos
      → Runs (command_loop m toks fuel ps pos)
  unfolding command_loop
  command_loop-Runs zero ps pos joined inside enough = absurd (omega arith)
  command_loop-Runs (suc fuel) ps pos joined inside enough =
      Runs-if (is (token_at m toks pos).type pipe) _ _ (λ e. tt)
        (λ e.
          Runs-if (is_join (token_at m toks pos).type) _ _ (λ e. tt)
            (λ e.
              Runs-if (is (token_at m toks pos).type end) _ _
                (λ e.
                  Runs-if (is_bg (get_or ps (length ps - 1) no_part).op) _ _ (λ e. tt) (λ e. tt))
                (λ e.
                  Runs-if (leb max_exprs (length ps)) _ _ (λ e. tt)
                    (λ few.
                      let start : Parse = record { ast = reset; pos = pos } in
                      Runs-with_expr (NodeOf m toks start) (expr_at m toks pos) _
                        (expr_at-Accepts pos inside)
                        (λ q n same h.
                          let loads : (op : Op) → Loads (record { start = pos; op = op }) =
                            λ op. (q, n, same, h.0, h.4, inside) in
                          Runs-if (is_join (token_at m toks q.pos).type) _ _
                            (λ join.
                              let lt : q.pos < length toks =
                                at-inside m toks q (token_at m toks q.pos).type (join-real _ join)
                                  (ground arith) in
                              command_loop-Runs fuel
                                (ps
                                  ++ record { start = pos; op = op_of (token_at m toks q.pos).type }
                                    ∷ [])
                                (q.pos + 1)
                                (snoc_elim (λ i part. Loads part × IsJoin part.op) ps
                                  (record { start = pos; op = op_of (token_at m toks q.pos).type })
                                  no_part joined
                                  (loads (op_of (token_at m toks q.pos).type), op_of-IsJoin _ join))
                                (omega arith) (omega (arith, h.2)))
                            (λ e.
                              Runs-if (is (token_at m toks q.pos).type end) _ _
                                (λ e.
                                  Runs-last ps (record { start = pos; op = op_none }) joined
                                    (ground arith) (loads op_none) tt)
                                (λ e.
                                  Runs-if (is (token_at m toks q.pos).type pipe) _ _ (λ e. tt)
                                    (λ e. tt))))))))

  pub check_command-Runs : Runs (check_command m toks)
  unfolding check_command
  check_command-Runs =
      Runs-if (is (token_at m toks 0).type end) _ _ (λ e. tt)
        (λ e.
          command_loop-Runs (length toks + 1) [] 0 (λ i lt. absurd (omega arith)) (omega arith)
            (omega arith))

abbrev pub CommandOf : Memory → Lexed → Command → Type 0
CommandOf m (tokens ts) c = Runs m ts c
CommandOf m (lex_error e) c = c ≡ refused e
CommandOf m lex_stuck c = ⊥

-- `pur_parse_command` ends on every line, with an error of the lexer, another error or a command. A command has
-- between 1 and 64 expressions; with the same memory each one loads again into sound pools, and all but the last have
-- an operator behind them.
pub parse_command-Runs :
    (m : Memory) (line : List ℕ) → CommandOf m (tokenize m.for_tokens line) (parse_command m line)
unfolding parse_command
parse_command-Runs m line = by_lexer (tokenize m.for_tokens line) (tokenize-Ends m.for_tokens line)
  where
    by_lexer :
        (r : Lexed)
        → Ends 0 (length line) m.for_tokens 0 r
        → CommandOf m r (elim r as (λ _. Command) [
          | tokens ts ↦ check_command m ts
          | lex_error e ↦ refused e
          | lex_stuck ↦ no_end
        ])
    by_lexer (tokens ts) e = check_command-Runs m ts
    by_lexer (lex_error s) e = refl
    by_lexer lex_stuck e = e
