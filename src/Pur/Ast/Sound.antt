-- ===== src/Pur/Ast/Sound.antt =====
-- Indexes of the pools: each one names an element, and that of a child is below that of its parent.
use panuti.Base.{
  ℕ, suc, ◌+◌, ◌≤◌, ◌<◌, ◌≡◌, refl, sym, ap, subst, ◌∙◌, inl, inr, List, [], ◌∷◌, ◌++◌, arith,
  length, length-append, length-set, get_or, get_or-append_left, get_or-set, set, ltb, ◌==◌,
  Bool-cases,
}
use mathlib.Core.List.{append-nil}
use panuti.Pur.Ast.{Kind, leaf, group, expr, Node, Leaf, Ast, max_leaves, no_node, no_leaf}

abbrev pub max_argc : ℕ
max_argc = 32

abbrev pub NodeIn : Ast → ℕ → Node → Kind → Type 0
NodeIn a i n leaf = n.first < length a.leaves
NodeIn a i n expr = (n.first < i) × (n.rhs < i)
NodeIn a i n group =
    (n.first + n.count ≤ length a.member_pool)
    × ((k : ℕ) → k < n.count → get_or a.member_pool (n.first + k) 0 < i)

abbrev pub LeafIn : Ast → Leaf → Type 0
LeafIn a l = (l.argv_first + l.argc ≤ length a.argv_off) × (l.argc ≤ max_argc)

pub record IsSound (a : Ast) : Type 0 where
  pub nodes_in :
      (i : ℕ)
      → i < length a.nodes
      → NodeIn a i (get_or a.nodes i no_node) (get_or a.nodes i no_node).kind
  pub leaves_in : (i : ℕ) → i < length a.leaves → LeafIn a (get_or a.leaves i no_leaf)
  pub few_leaves : length a.leaves ≤ max_leaves

module _ {ℓ} {A : Type ℓ} where
  pub get_or-snoc : (xs : List A) (x d : A) → get_or (xs ++ x ∷ []) (length xs) d ≡ x
  get_or-snoc [] x d = refl
  get_or-snoc (y ∷ xs) x d = get_or-snoc xs x d

  pub length-snoc : (xs : List A) (x : A) → length (xs ++ x ∷ []) ≡ suc (length xs)
  length-snoc [] x = refl
  length-snoc (y ∷ xs) x = ap suc (length-snoc xs x)

  -- A property of each element and its place, when one is put at the end.
  pub snoc_elim {κ} :
      (P : ℕ → A → Type κ) (xs : List A) (x d : A)
      → ((i : ℕ) → i < length xs → P i (get_or xs i d))
      → P (length xs) x
      → (i : ℕ) → i < length (xs ++ x ∷ [])
      → P i (get_or (xs ++ x ∷ []) i d)
  snoc_elim P xs x d old new i lt = elim (Bool-cases (ltb i (length xs))) [
    | inl h ↦
        let before : i < length xs = ground arith in
        subst (P i) (sym (get_or-append_left xs (x ∷ []) i d before)) (old i before)
    | inr h ↦
        let last : length xs ≡ i = ground (arith, length-snoc xs x) in
        subst (λ j. P j (get_or (xs ++ x ∷ []) j d)) last
          (subst (P (length xs)) (sym (get_or-snoc xs x d)) new)
  ]

-- What a node says stays true while the pools grow.
NodeIn-grows :
    (a b : Ast) (i : ℕ) (n : Node) (k : Kind) (extra : List ℕ)
    → length a.leaves ≤ length b.leaves
    → a.member_pool ++ extra ≡ b.member_pool
    → NodeIn a i n k
    → NodeIn b i n k
NodeIn-grows a b i n leaf extra le same h = omega arith
NodeIn-grows a b i n expr extra le same h = h
NodeIn-grows a b i n group extra le same h =
    let size = length-append a.member_pool extra in
    subst
      (λ pool.
        (n.first + n.count ≤ length pool)
        × ((k : ℕ) → k < n.count → get_or pool (n.first + k) 0 < i))
      same
      (
        omega (arith, h.0),
        λ k lt.
            subst (λ v. v < i)
              (sym (get_or-append_left a.member_pool extra (n.first + k) 0 (omega (arith, h.0))))
              (h.1 k lt),
      )

abbrev pub with_node : Ast → Node → Ast
with_node a n = record a { nodes = a.nodes ++ n ∷ [] }

pub with_node-IsSound :
    (a : Ast) (n : Node) → IsSound a → NodeIn a (length a.nodes) n n.kind → IsSound (with_node a n)
with_node-IsSound a n s h = record {
  nodes_in = snoc_elim (λ i x. NodeIn a i x x.kind) a.nodes n no_node s.nodes_in h;
  leaves_in = s.leaves_in;
  few_leaves = s.few_leaves;
}

abbrev pub with_leaf : Ast → Leaf → Ast
with_leaf a l = record a { leaves = a.leaves ++ l ∷ [] }

pub with_leaf-IsSound :
    (a : Ast) (l : Leaf)
    → IsSound a
    → LeafIn a l
    → length a.leaves < max_leaves
    → IsSound (with_leaf a l)
with_leaf-IsSound a l s h room = record {
  nodes_in = λ i lt.
      NodeIn-grows a (with_leaf a l) i (get_or a.nodes i no_node) _ []
        (omega (arith, length-snoc a.leaves l)) (append-nil _) (s.nodes_in i lt);
  leaves_in = snoc_elim (λ i x. LeafIn a x) a.leaves l no_leaf s.leaves_in h;
  few_leaves = omega (arith, length-snoc a.leaves l);
}

abbrev pub with_argv : Ast → ℕ → Ast
with_argv a off = record a { argv_off = a.argv_off ++ off ∷ [] }

pub with_argv-IsSound : (a : Ast) (off : ℕ) → IsSound a → IsSound (with_argv a off)
with_argv-IsSound a off s = record {
  nodes_in = s.nodes_in;
  leaves_in = λ i lt. omega (arith, s.leaves_in i lt, length-snoc a.argv_off off);
  few_leaves = s.few_leaves;
}

abbrev pub with_group : Ast → (g : ℕ) → List ℕ → Ast
with_group a g members = record a {
  nodes =
      set a.nodes g (record (get_or a.nodes g no_node) {
        first = length a.member_pool;
        count = length members;
      });
  member_pool = a.member_pool ++ members;
}

-- A property of each element and its place, when one is written.
set_elim {ℓ κ} :
    {A : Type ℓ} (P : ℕ → A → Type κ) (xs : List A) (g : ℕ) (v d : A)
    → g < length xs
    → ((i : ℕ) → i < length xs → P i (get_or xs i d))
    → P g v
    → (i : ℕ) → i < length (set xs g v)
    → P i (get_or (set xs g v) i d)
set_elim P xs g v d inside old new i lt = elim (Bool-cases (g == i)) [
  | inl h ↦
      let same : g ≡ i = ground arith in
      let read : get_or (set xs g v) i d ≡ v = (get_or-set xs g i v d inside) ∙ (rw h refl) in
      subst (P i) (sym read) (subst (λ j. P j v) same new)
  | inr h ↦
      let read : get_or (set xs g v) i d ≡ get_or xs i d =
        (get_or-set xs g i v d inside) ∙ (rw h refl) in
      subst (P i) (sym read) (old i (omega (arith, length-set xs g v)))
]

get_or-append_right {ℓ} :
    {A : Type ℓ} (xs ys : List A) (k : ℕ) (d : A)
    → get_or (xs ++ ys) (length xs + k) d ≡ get_or ys k d
get_or-append_right {A} [] ys k d =
    let same : 0 + k ≡ k = omega arith in ap (λ j. get_or ys j d) same
get_or-append_right {A} (x ∷ xs) ys k d =
    let same : suc (length xs) + k ≡ suc (length xs + k) = omega arith in
    ap (λ j. get_or (x ∷ xs ++ ys) j d) same ∙ get_or-append_right xs ys k d

pub with_group-IsSound :
    (a : Ast) (g : ℕ) (members : List ℕ)
    → IsSound a
    → g < length a.nodes
    → (get_or a.nodes g no_node).kind ≡ group
    → ((k : ℕ) → k < length members → get_or members k 0 < g)
    → IsSound (with_group a g members)
with_group-IsSound a g members s inside is_group below = record {
  nodes_in =
      set_elim (λ i x. NodeIn b i x x.kind) a.nodes g written no_node inside
        (λ i lt.
          NodeIn-grows a b i (get_or a.nodes i no_node) _ members (omega arith) refl
            (s.nodes_in i lt))
        (subst (NodeIn b g written) (sym is_group) (
          omega (arith, length-append a.member_pool members),
          λ k lt.
              subst (λ v. v < g) (sym (get_or-append_right a.member_pool members k 0)) (below k lt),
        ));
  leaves_in = s.leaves_in;
  few_leaves = s.few_leaves;
}
  where
    b : Ast
    b = with_group a g members

    written : Node
    written = record (get_or a.nodes g no_node) {
      first = length a.member_pool;
      count = length members;
    }
