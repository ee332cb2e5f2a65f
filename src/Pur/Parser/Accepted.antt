-- ===== src/Pur/Parser/Accepted.antt =====
-- What the parser accepts: with enough fuel it ends, and an accepted expression is a tree in sound pools.
use panuti.Base.{
  ℕ, zero, suc, ◌+◌, ◌*◌, ◌≤◌, ◌<◌, ◌≡◌, not, List, [], ◌∷◌, ◌++◌, arith, length, ltb, leb,
}
use panuti.Pur.Lexer.{Token, word, lparen, rparen, semi, gt}
use panuti.Pur.Ast.{Memory}
use panuti.Pur.Ast.Sound.{IsSound, snoc_elim}
use panuti.Pur.Parser.{
  Parse, Outcome, max_depth, advance, starts_operand, parse_expr, fold_loop, parse_operand,
  parse_group, group_loop, at,
}
use panuti.Pur.Parser.Steps.{
  Accepts, accepts, refuses, Accepts-after, Accepts-if, of_not, NodeOf, at-inside,
  parse_leaf-Accepts, new_expr-Accepts, AllBelow, close_group-Accepts,
}

module _ (m : Memory) (toks : List Token) where
  abbrev FoldOf : Parse → Parse → ℕ → Type 0
  FoldOf p q n =
      IsSound q.ast
      × (length p.ast.nodes ≤ length q.ast.nodes)
      × (p.pos ≤ q.pos)
      × (q.pos ≤ length toks)
      × (n < length q.ast.nodes)

  abbrev MembersOf : Parse → Parse → List ℕ → Type 0
  MembersOf p q members =
      IsSound q.ast
      × (length p.ast.nodes ≤ length q.ast.nodes)
      × (p.pos ≤ q.pos)
      × AllBelow m toks (length q.ast.nodes) members

  -- What holds of the five functions with that fuel; each tests `4 * rest + c < fuel`, with `rest` the tokens left.
  record AcceptsAt (fuel : ℕ) : Type 0 where
    of_expr :
        (depth : ℕ) (p : Parse)
        → IsSound p.ast
        → p.pos ≤ length toks
        → 4 * length toks + 2 < fuel + 4 * p.pos
        → Accepts (NodeOf m toks p) (parse_expr m toks fuel depth p)
    of_fold :
        (depth fold : ℕ) (p : Parse) (node : ℕ)
        → IsSound p.ast
        → p.pos ≤ length toks
        → node < length p.ast.nodes
        → 4 * length toks + 1 < fuel + 4 * p.pos
        → Accepts (FoldOf p) (fold_loop m toks fuel depth fold p node)
    of_operand :
        (depth : ℕ) (p : Parse)
        → IsSound p.ast
        → p.pos ≤ length toks
        → 4 * length toks + 1 < fuel + 4 * p.pos
        → Accepts (NodeOf m toks p) (parse_operand m toks fuel depth p)
    of_group :
        (depth : ℕ) (p : Parse)
        → IsSound p.ast
        → p.pos ≤ length toks
        → 4 * length toks < fuel + 4 * p.pos
        → Accepts (NodeOf m toks p) (parse_group m toks fuel depth p)
    of_members :
        (depth : ℕ) (p : Parse) (members : List ℕ)
        → IsSound p.ast
        → p.pos ≤ length toks
        → AllBelow m toks (length p.ast.nodes) members
        → 4 * length toks + 3 < fuel + 4 * p.pos
        → Accepts (MembersOf p) (group_loop m toks fuel depth p members)

  expr-next :
      (fuel : ℕ)
      → AcceptsAt fuel
      → (depth : ℕ) (p : Parse) → IsSound p.ast
      → p.pos ≤ length toks
      → 4 * length toks + 2 < suc fuel + 4 * p.pos
      → Accepts (NodeOf m toks p) (parse_expr m toks (suc fuel) depth p)
  unfolding parse_expr
  expr-next fuel ih depth p sound inside enough =
      Accepts-after (ih.of_operand depth p sound inside (omega arith))
        (λ q n h. weaken q h (ih.of_fold depth 0 q n h.0 h.3 h.4 (omega (arith, h.2))))
    where
      weaken :
          (q : Parse) {n : ℕ} {o : Outcome ℕ}
          → NodeOf m toks p q n
          → Accepts (FoldOf q) o
          → Accepts (NodeOf m toks p) o
      weaken q h (accepts k) =
          accepts ((k.0, omega (arith, h.1, k.1), omega (arith, h.2, k.2), k.3, k.4))
      weaken q h refuses = refuses

  fold-next :
      (fuel : ℕ)
      → AcceptsAt fuel
      → (depth fold : ℕ) (p : Parse) (node : ℕ) → IsSound p.ast
      → p.pos ≤ length toks
      → node < length p.ast.nodes
      → 4 * length toks + 1 < suc fuel + 4 * p.pos
      → Accepts (FoldOf p) (fold_loop m toks (suc fuel) depth fold p node)
  unfolding fold_loop
  fold-next fuel ih depth fold p node sound inside old enough =
      Accepts-if (not (at m toks p gt))
        (λ e. accepts ((sound, omega arith, omega arith, inside, old)))
        (λ more.
          Accepts-if (ltb max_depth (depth + fold + 1)) (λ e. refuses)
            (λ e.
              Accepts-if (not (starts_operand m toks (advance p))) (λ e. refuses)
                (λ e.
                  let lt : p.pos < length toks =
                    at-inside m toks p gt (omega arith) (of_not more) in
                  Accepts-after
                    (ih.of_operand (depth + fold + 1) (record p { pos = p.pos + 1 }) sound
                      (omega arith) (omega arith))
                    (λ q rhs h.
                      Accepts-after
                        (new_expr-Accepts m toks node rhs q h.0 (omega (arith, h.1)) h.4 h.3)
                        (λ r n k. weaken q r h k (
                          ih.of_fold depth (fold + 1) r n k.0 (omega (arith, k.2, h.3)) k.3
                            (omega (arith, k.2, h.2))))))))
    where
      weaken :
          (q r : Parse) {rhs n : ℕ} {o : Outcome ℕ}
          → NodeOf m toks (record p { pos = p.pos + 1 }) q rhs
          → IsSound r.ast
            × (length q.ast.nodes ≤ length r.ast.nodes)
            × (q.pos ≡ r.pos)
            × (n < length r.ast.nodes)
          → Accepts (FoldOf r) o
          → Accepts (FoldOf p) o
      weaken q r h k (accepts j) =
          accepts ((j.0, omega (arith, h.1, k.1, j.1), omega (arith, h.2, k.2, j.2), j.3, j.4))
      weaken q r h k refuses = refuses

  operand-next :
      (fuel : ℕ)
      → AcceptsAt fuel
      → (depth : ℕ) (p : Parse) → IsSound p.ast
      → p.pos ≤ length toks
      → 4 * length toks + 1 < suc fuel + 4 * p.pos
      → Accepts (NodeOf m toks p) (parse_operand m toks (suc fuel) depth p)
  unfolding parse_operand
  operand-next fuel ih depth p sound inside enough =
      Accepts-if (at m toks p lparen) (λ e. ih.of_group depth p sound inside (omega arith))
        (λ e.
          Accepts-if (at m toks p word) (λ w. parse_leaf-Accepts m toks p sound w) (λ e. refuses))

  group-next :
      (fuel : ℕ)
      → AcceptsAt fuel
      → (depth : ℕ) (p : Parse) → IsSound p.ast
      → p.pos ≤ length toks
      → 4 * length toks < suc fuel + 4 * p.pos
      → Accepts (NodeOf m toks p) (parse_group m toks (suc fuel) depth p)
  unfolding parse_group
  group-next fuel ih depth p sound inside enough =
      Accepts-if (not (at m toks p lparen)) (λ e. refuses)
        (λ starts.
          Accepts-if (leb max_depth depth) (λ e. refuses)
            (λ e.
              Accepts-if (at m toks (advance p) rparen) (λ e. refuses)
                (λ e.
                  let lt : p.pos < length toks =
                    at-inside m toks p lparen (omega arith) (of_not starts) in
                  Accepts-after
                    (ih.of_members depth (record p { pos = p.pos + 1 }) [] sound (omega arith)
                      (λ k h. absurd (omega arith)) (omega arith))
                    (λ q ns h. weaken q ns h (close_group-Accepts m toks q ns h.0 h.3)))))
    where
      weaken :
          (q : Parse) (ns : List ℕ) {o : Outcome ℕ}
          → MembersOf (record p { pos = p.pos + 1 }) q ns
          → Accepts (NodeOf m toks q) o
          → Accepts (NodeOf m toks p) o
      weaken q ns h (accepts k) =
          accepts ((k.0, omega (arith, h.1, k.1), omega (arith, h.2, k.2), k.3, k.4))
      weaken q ns h refuses = refuses

  members-next :
      (fuel : ℕ)
      → AcceptsAt fuel
      → (depth : ℕ) (p : Parse) (members : List ℕ) → IsSound p.ast
      → p.pos ≤ length toks
      → AllBelow m toks (length p.ast.nodes) members
      → 4 * length toks + 3 < suc fuel + 4 * p.pos
      → Accepts (MembersOf p) (group_loop m toks (suc fuel) depth p members)
  unfolding group_loop
  members-next fuel ih depth p members sound inside below enough =
      Accepts-if (ltb m.for_members (length members + 1)) (λ e. refuses)
        (λ e. Accepts-after (ih.of_expr (depth + 1) p sound inside (omega arith)) (λ q n h.
          let all : AllBelow m toks (length q.ast.nodes) (members ++ n ∷ []) =
            snoc_elim (λ k v. v < length q.ast.nodes) members n 0
              (λ k lt. omega (arith, below k lt, h.1)) h.4 in
          Accepts-if (not (at m toks q semi)) (λ e. accepts ((h.0, h.1, omega (arith, h.2), all)))
            (λ more.
              Accepts-if (at m toks (advance q) rparen)
                (λ e. accepts ((h.0, h.1, omega (arith, h.2), all)))
                (λ f.
                  let lt : q.pos < length toks =
                    at-inside m toks q semi (omega arith) (of_not more) in
                  weaken q h (
                    ih.of_members depth (record q { pos = q.pos + 1 }) (members ++ n ∷ []) h.0
                      (omega arith) all (omega (arith, h.2)))))))
    where
      weaken :
          (q : Parse) {n : ℕ} {o : Outcome (List ℕ)}
          → NodeOf m toks p q n
          → Accepts (MembersOf (record q { pos = q.pos + 1 })) o
          → Accepts (MembersOf p) o
      weaken q h (accepts k) =
          accepts ((k.0, omega (arith, h.1, k.1), omega (arith, h.2, k.2), k.3))
      weaken q h refuses = refuses

  all_accept : (fuel : ℕ) → AcceptsAt fuel
  all_accept zero = record {
    of_expr = λ depth p sound inside enough. absurd (omega arith);
    of_fold = λ depth fold p node sound inside old enough. absurd (omega arith);
    of_operand = λ depth p sound inside enough. absurd (omega arith);
    of_group = λ depth p sound inside enough. absurd (omega arith);
    of_members = λ depth p members sound inside below enough. absurd (omega arith);
  }
  all_accept (suc fuel) =
      let ih = all_accept fuel in
      record {
        of_expr = expr-next fuel ih;
        of_fold = fold-next fuel ih;
        of_operand = operand-next fuel ih;
        of_group = group-next fuel ih;
        of_members = members-next fuel ih;
      }

  -- The parser ends from every state with sound pools, however much memory there is: with fuel for four calls
  -- for each token it answers or refuses. When it answers, it has taken a token, it is not behind the end
  -- token, the pools are sound (every leaf has its words, at most 32, there are at most 16 leaves, and every node
  -- names leaves and older nodes of the pools) and the answer is a node of them.
  pub parse_expr-Accepts :
      (fuel depth : ℕ) (p : Parse)
      → IsSound p.ast
      → p.pos ≤ length toks
      → 4 * length toks + 2 < fuel + 4 * p.pos
      → Accepts (NodeOf m toks p) (parse_expr m toks fuel depth p)
  parse_expr-Accepts fuel depth p = (all_accept fuel).of_expr depth p
