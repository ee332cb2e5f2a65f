-- ===== src/Pur/Parser/Steps.antt =====
-- The rules of a run that answers or refuses, and the steps of the parser that build nodes.
use panuti.Base.{
  ℕ, zero, suc, ◌+◌, ◌-◌, ◌≤◌, ◌<◌, ◌≡◌, refl, ap, subst, inl, inr, Bool, true, false, not, List,
  [], ◌∷◌, arith, length, length-set, get_or, get_or_of_ge, ltb, leb, if◌then◌else◌, Bool-cases,
}
use panuti.Pur.Lexer.{Token, Status, end_token, end, is, word, rparen, argv, code, TokenType}
use panuti.Pur.Ast.{
  Ast, Memory, Node, Leaf, leaf, group, expr, no_node, max_leaves, node_new, leaf_new, argv_push,
  group_set,
}
use panuti.Pur.Ast.Sound.{
  IsSound, length-snoc, get_or-snoc, with_node, with_node-IsSound, with_leaf, with_leaf-IsSound,
  with_argv, with_argv-IsSound, with_group, with_group-IsSound,
}
use panuti.Pur.Parser.{
  Parse, Outcome, done, error, after, or_error, max_argv, single, words, parse_leaf, new_expr,
  close_group, at,
}

-- A run that ends, and with `P` if it does not refuse.
pub data Accepts {ℓ} {A : Type ℓ} (P : Parse → A → Type ℓ) : Outcome A → Type ℓ where
  accepts : {q : Parse} → {a : A} → P q a → Accepts P (done q a)
  refuses : {s : Status} → Accepts P (error s)

module _ {ℓ} {A : Type ℓ} {P : Parse → A → Type ℓ} where
  pub Accepts-after {κ} :
      {B : Type κ} {Q : Parse → B → Type κ} {o : Outcome B} {k : Parse → B → Outcome A}
      → Accepts Q o
      → ((q : Parse) (b : B) → Q q b → Accepts P (k q b))
      → Accepts P (after o k)
  Accepts-after (accepts {q} {a} h) next = next q a h
  Accepts-after refuses next = refuses

  pub Accepts-if :
      (b : Bool) {x y : Outcome A}
      → (b ≡ true → Accepts P x)
      → (b ≡ false → Accepts P y)
      → Accepts P (if b then x else y)
  Accepts-if true f g = f refl
  Accepts-if false f g = g refl

  module _ (m : Memory) (s : Status) (k : Ast → Outcome A) (a : Ast) where
    Accepts-node_new :
        (n : Node) → Accepts P (k (with_node a n)) → Accepts P (or_error (node_new m n a) s k)
    unfolding node_new
    Accepts-node_new n h = elim (Bool-cases (ltb (length a.nodes) m.for_nodes)) [
      | inl e ↦ rw e h
      | inr e ↦ rw e refuses
    ]

    Accepts-leaf_new :
        (l : Leaf)
        → (length a.leaves < max_leaves → Accepts P (k (with_leaf a l)))
        → Accepts P (or_error (leaf_new l a) s k)
    unfolding leaf_new
    Accepts-leaf_new l h = elim (Bool-cases (leb max_leaves (length a.leaves))) [
      | inl e ↦ rw e refuses
      | inr e ↦ rw e (h (ground arith))
    ]

    Accepts-argv_push :
        (off : ℕ) → Accepts P (k (with_argv a off)) → Accepts P (or_error (argv_push m off a) s k)
    unfolding argv_push
    Accepts-argv_push off h = elim (Bool-cases (ltb (length a.argv_off) m.for_argv)) [
      | inl e ↦ rw e h
      | inr e ↦ rw e refuses
    ]

    Accepts-group_set :
        (g : ℕ) (members : List ℕ)
        → Accepts P (k (with_group a g members))
        → Accepts P (or_error (group_set m g members a) s k)
    unfolding group_set
    Accepts-group_set g members h =
        elim (Bool-cases (ltb m.for_members (length a.member_pool + length members))) [
          | inl e ↦ rw e refuses
          | inr e ↦ rw e h
        ]

pub of_not : {b : Bool} → not b ≡ false → b ≡ true
of_not {b = true} h = refl
of_not {b = false} h = absurd cc

module _ (m : Memory) (toks : List Token) where
  -- The result of a function that starts in `p` with a node.
  abbrev pub NodeOf : Parse → Parse → ℕ → Type 0
  NodeOf p q n =
      IsSound q.ast
      × (length p.ast.nodes ≤ length q.ast.nodes)
      × (p.pos < q.pos)
      × (q.pos ≤ length toks)
      × (n < length q.ast.nodes)

  -- Only the end token is read behind the tokens.
  pub at-inside :
      (p : Parse) (t : TokenType) → 0 < code t → at m toks p t ≡ true → p.pos < length toks
  at-inside p t real h = elim (Bool-cases (ltb p.pos (length toks))) [
    | inl lt ↦ ground arith
    | inr ge ↦
        let e : get_or toks p.pos end_token ≡ end_token =
          get_or_of_ge toks p.pos end_token (ground arith) in
        let h' : is end t ≡ true = subst (λ k. is k.type t ≡ true) e h in absurd (ground arith)
  ]

  abbrev WordsOf : (base : ℕ) → Parse → Parse → ℕ → Type 0
  WordsOf base p q argc =
      IsSound q.ast
      × (length p.ast.nodes ≤ length q.ast.nodes)
      × (p.pos ≤ q.pos)
      × (at m toks p word ≡ true → p.pos < q.pos)
      × (q.pos ≤ length toks)
      × (base + argc ≤ length q.ast.argv_off)
      × (argc ≤ max_argv)

  words-Accepts :
      (base left : ℕ) (p : Parse)
      → IsSound p.ast
      → p.pos ≤ length toks
      → left ≤ max_argv
      → base + (max_argv - left) ≤ length p.ast.argv_off
      → Accepts (WordsOf base p) (words m toks left p)
  unfolding words
  words-Accepts base zero p sound inside le room =
      Accepts-if (at m toks p word) (λ e. refuses)
        (λ e.
          accepts
            ((sound, omega arith, omega arith, (λ h. absurd cc), inside, omega arith, omega arith)))
  words-Accepts base (suc left) p sound inside le room =
      Accepts-if (at m toks p word)
        (λ e. Accepts-argv_push m argv _ p.ast (get_or toks p.pos end_token).off (
          weaken (
            words-Accepts base left
              (record { ast = with_argv p.ast (get_or toks p.pos end_token).off; pos = p.pos + 1 })
              (with_argv-IsSound p.ast _ sound) (omega (arith, at-inside p word (omega arith) e))
              (omega arith)
              (omega (arith, length-snoc p.ast.argv_off (get_or toks p.pos end_token).off)))))
        (λ e.
          accepts
            ((sound, omega arith, omega arith, (λ h. absurd cc), inside, omega arith, omega arith)))
    where
      weaken :
          {o : Outcome ℕ}
          → Accepts
              (WordsOf base (record {
                ast = with_argv p.ast (get_or toks p.pos end_token).off;
                pos = p.pos + 1;
              }))
              o
          → Accepts (WordsOf base p) o
      weaken (accepts h) =
          accepts ((h.0, h.1, omega (arith, h.2), (λ e. omega (arith, h.2)), h.4, h.5, h.6))
      weaken refuses = refuses

  pub parse_leaf-Accepts :
      (p : Parse)
      → IsSound p.ast
      → at m toks p word ≡ true
      → Accepts (NodeOf p) (parse_leaf m toks p)
  unfolding parse_leaf
  parse_leaf-Accepts p sound here =
      let first = length p.ast.argv_off in
      Accepts-after
        (words-Accepts first max_argv p sound (omega (arith, at-inside p word (omega arith) here))
          (omega arith) (omega arith))
        (λ q argc h.
          let l : Leaf = record { argv_first = first; argc = argc } in
          Accepts-leaf_new m _ _ q.ast l (λ room.
            let s = with_leaf-IsSound q.ast l h.0 (h.5, h.6) room in
            let n : Node = record no_node { kind = leaf; first = length q.ast.leaves } in
            Accepts-node_new m _ _ (with_leaf q.ast l) n (
              accepts (
                with_node-IsSound (with_leaf q.ast l) n s
                    (omega (arith, length-snoc q.ast.leaves l)),
                omega (arith, h.1, length-snoc q.ast.nodes n),
                h.3 here,
                h.4,
                omega (arith, length-snoc q.ast.nodes n),
              ))))

  pub new_expr-Accepts :
      (lhs rhs : ℕ) (q : Parse)
      → IsSound q.ast
      → lhs < length q.ast.nodes
      → rhs < length q.ast.nodes
      → q.pos ≤ length toks
      → Accepts
          (λ r n.
            IsSound r.ast
            × (length q.ast.nodes ≤ length r.ast.nodes)
            × (q.pos ≡ r.pos)
            × (n < length r.ast.nodes))
          (new_expr m toks lhs q rhs)
  new_expr-Accepts lhs rhs q sound left right inside =
      let n : Node = record { kind = expr; first = lhs; count = 0; rhs = rhs } in
      Accepts-node_new m _ _ q.ast n (
        accepts (
          with_node-IsSound q.ast n sound (left, right),
          omega (arith, length-snoc q.ast.nodes n),
          refl,
          omega (arith, length-snoc q.ast.nodes n),
        ))

  abbrev pub AllBelow : ℕ → List ℕ → Type 0
  AllBelow bound members = (k : ℕ) → k < length members → get_or members k 0 < bound

  single-below :
      (g size : ℕ) (members : List ℕ)
      → g < size
      → AllBelow g members
      → single m toks members g < size
  single-below g size [] lt below = lt
  single-below g size (n ∷ []) lt below = omega (arith, below 0 (omega arith))
  single-below g size (n ∷ o ∷ ns) lt below = lt

  pub close_group-Accepts :
      (p : Parse) (members : List ℕ)
      → IsSound p.ast
      → AllBelow (length p.ast.nodes) members
      → Accepts (NodeOf p) (close_group m toks p members)
  close_group-Accepts p members sound below =
      Accepts-if (at m toks p rparen)
        (λ e.
          let n : Node = record no_node { kind = group } in
          let g = length p.ast.nodes in
          let a = with_node p.ast n in
          let size = length-snoc p.ast.nodes n in
          let lengths = length-set a.nodes g in
          let read = get_or-snoc p.ast.nodes n no_node in
          Accepts-node_new m _ _ p.ast n (
            Accepts-group_set m _ _ a g members (
              accepts (
                with_group-IsSound a g members
                    (with_node-IsSound p.ast n sound ((omega arith, λ k lt. absurd (omega arith))))
                    (omega arith) (ap (λ x. x.kind) read) below,
                omega (arith, lengths),
                omega arith,
                omega (arith, at-inside p rparen (omega arith) e),
                single-below g _ members (omega (arith, lengths)) below,
              ))))
        (λ e. refuses)
