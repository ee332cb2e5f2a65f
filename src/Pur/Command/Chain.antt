-- ===== src/Pur/Command/Chain.antt =====
-- What a command that was accepted runs: a chain of trees, each one behind an operator.
use panuti.Base.{
  ℕ, suc, ◌+◌, ◌-◌, ◌<◌, ◌≡◌, ◌≢◌, refl, sym, ap, subst, ◌∙◌, inl, inr, Bool, true, false, not,
  ◌&&◌, List, [], ◌∷◌, ◌++◌, Option, none, some, ◌==◌, arith, length, length-append, get_or, ltb,
  leb, if◌then◌else◌, Bool-cases,
}
use mathlib.Core.List.{append_assoc}
use panuti.Pur.Lexer.{Token, Status}
use panuti.Pur.Ast.{Ast, Memory, reset}
use panuti.Pur.Ast.Sound.{length-snoc}
use panuti.Pur.Parser.{Outcome, done, error, stuck, Parse}
use panuti.Pur.Parser.Steps.{Accepts, NodeOf}
use panuti.Pur.Command.{
  Op, op_none, op_and, op_or, op_bg, Part, no_part, parts, expr_at, check_command, load, op_at,
  should_run, Ran, Run, exec_expr, run_loop, run_command,
}
use panuti.Pur.Command.Checked.{Loads, Runs, expr_at-Accepts, check_command-Runs}

-- What a load of an expression gives, a tree and its root or an error, with the operator behind the
-- expression.
pub record Tree : Type 0 where
  pub loaded : Option (Ast × ℕ)
  pub op : Op

-- After `&&` a failure skips, after `||` a success; nothing else does.
abbrev pub skips : (before : Op) → (status : ℕ) → Bool
skips op_none status = false
skips op_and status = ltb 0 status
skips op_or status = status == 0
skips op_bg status = false

should_run-skips : (before : Op) (status : ℕ) → should_run before status ≡ not (skips before status)
should_run-skips op_none status = refl
should_run-skips op_and status = ground arith
should_run-skips op_or status = refl
should_run-skips op_bg status = refl

module _ {ℓ} {W : Type ℓ} (exec : Ast → (root : ℕ) → W → W)
    (result : Ast → (root : ℕ) → W → Ran) where
  -- Trees behind an operator: one that is skipped leaves the world and the status alone, and is not loaded;
  -- one that does not load ends the command with `false`.
  abbrev pub chain : Op → List Tree → Run W → Run W × Bool
  chain before [] r = (r, true)
  chain before (t ∷ ts) r =
      let skipped = chain t.op ts r in
      let run = elim t.loaded as (λ _. Run W × Bool) [
        | none ↦ (r, false)
        | some (a, root) ↦ chain t.op ts (exec_expr exec result a root r)
      ] in
      if skips before r.status then skipped else run

module _ (m : Memory) (ms : (index : ℕ) → Memory) (toks : List Token) where
  -- The trees are those of the expressions from the index on. One is missing only when its load gives an
  -- error, and then the memory is not what it was when the command was checked.
  pub data TreesOf : (index : ℕ) → List Part → List Tree → Type 0 where
    none_left : {index : ℕ} → TreesOf index [] []
    one_more :
        {index : ℕ} {part : Part} {ps : List Part} {q : Parse} {root : ℕ} {ts : List Tree}
        → expr_at (ms index) toks part.start ≡ done q root
        → TreesOf (suc index) ps ts
        → TreesOf index (part ∷ ps) (record { loaded = some (q.ast, root); op = part.op } ∷ ts)
    not_loaded :
        {index : ℕ} {part : Part} {ps : List Part} {e : Status} {ts : List Tree}
        → expr_at (ms index) toks part.start ≡ error e
        → ms index ≢ m
        → TreesOf (suc index) ps ts
        → TreesOf index (part ∷ ps) (record { loaded = none; op = part.op } ∷ ts)

data Before : List Part → Op → Type 0 where
  at_start : Before [] op_none
  behind : (pre : List Part) → (part : Part) → Before (pre ++ part ∷ []) part.op

get_or-middle :
    (pre rest : List Part) (part : Part) → get_or (pre ++ part ∷ rest) (length pre) no_part ≡ part
get_or-middle [] rest part = refl
get_or-middle (p ∷ pre) rest part = get_or-middle pre rest part

inside_middle :
    (pre rest : List Part) (part : Part) → leb (length (pre ++ part ∷ rest)) (length pre) ≡ false
inside_middle pre rest part = ground (arith, length-append pre (part ∷ rest))

-- The test of the loop is that of the operator before.
gate_lem :
    {pre : List Part} {b : Op} (rest : List Part) (status : ℕ)
    → Before pre b
    → (ltb 0 (length pre) && not (should_run (op_at (pre ++ rest) (length pre - 1)) status))
      ≡ not (should_run b status)
gate_lem rest status at_start = refl
gate_lem rest status (behind pre part) =
    let size = length-snoc pre part in
    let index : length (pre ++ part ∷ []) - 1 ≡ length pre = omega arith in
    let some_before : ltb 0 (length (pre ++ part ∷ [])) ≡ true = ground arith in
    rw
      (
        some_before,
        index,
        append_assoc pre (part ∷ []) rest,
        inside_middle pre rest part,
        get_or-middle pre rest part,
      )
      refl

module _ {ℓ} {W : Type ℓ} (exec : Ast → (root : ℕ) → W → W) (result : Ast → (root : ℕ) → W → Ran)
    (m : Memory) (ms : (index : ℕ) → Memory) (toks : List Token) where
  load-middle :
      (pre rest : List Part) (part : Part)
      → load (ms (length pre)) toks (pre ++ part ∷ rest) (length pre)
        ≡ expr_at (ms (length pre)) toks part.start
  unfolding load
  load-middle pre rest part = rw (inside_middle pre rest part, get_or-middle pre rest part) refl

  run_loop-chain :
      (pre rest : List Part) (b : Op) (n : ℕ) (ts : List Tree) (r : Run W)
      → Before pre b
      → n ≡ length pre
      → TreesOf m ms toks n rest ts
      → run_loop exec result ms toks (pre ++ rest) (length rest) (length pre) r
        ≡ some (chain exec result b ts r)
  unfolding run_loop
  run_loop-chain pre [] b n [] r before at none_left = refl
  run_loop-chain pre [] b n (t ∷ ts) r before at trees = elim trees [ ]
  run_loop-chain pre (part ∷ rest) b n [] r before at trees = elim trees [ ]
  run_loop-chain pre (part ∷ rest) b n (t ∷ ts) r before at (one_more {q} {root} same trees) =
      let gate = gate_lem (part ∷ rest) r.status before ∙ ap not (should_run-skips b r.status) in
      let here : expr_at (ms (length pre)) toks part.start ≡ done q root =
        subst (λ k. expr_at (ms k) toks part.start ≡ done q root) at same in
      let loaded = load-middle pre rest part ∙ here in
      let whole = sym (append_assoc pre (part ∷ []) rest) in
      let index : length pre + 1 ≡ length (pre ++ part ∷ []) =
        omega (arith, length-snoc pre part) in
      let later : (u : Run W)
          → run_loop exec result ms toks (pre ++ part ∷ rest) (length rest) (length pre + 1) u
            ≡ some (chain exec result part.op ts u) =
        λ u.
          rw (index, whole)
            (run_loop-chain (pre ++ part ∷ []) rest part.op (suc n) ts u (behind pre part)
              (omega arith) trees) in
      elim (Bool-cases (skips b r.status)) [
        | inl stop ↦ rw (gate, stop) (later r)
        | inr run ↦ rw (gate, run, loaded) (later (exec_expr exec result q.ast root r))
      ]
  run_loop-chain pre (part ∷ rest) b n (t ∷ ts) r before at (not_loaded {e} same other trees) =
      let gate = gate_lem (part ∷ rest) r.status before ∙ ap not (should_run-skips b r.status) in
      let here : expr_at (ms (length pre)) toks part.start ≡ error e =
        subst (λ k. expr_at (ms k) toks part.start ≡ error e) at same in
      let loaded = load-middle pre rest part ∙ here in
      let whole = sym (append_assoc pre (part ∷ []) rest) in
      let index : length pre + 1 ≡ length (pre ++ part ∷ []) =
        omega (arith, length-snoc pre part) in
      let later : (u : Run W)
          → run_loop exec result ms toks (pre ++ part ∷ rest) (length rest) (length pre + 1) u
            ≡ some (chain exec result part.op ts u) =
        λ u.
          rw (index, whole)
            (run_loop-chain (pre ++ part ∷ []) rest part.op (suc n) ts u (behind pre part)
              (omega arith) trees) in
      elim (Bool-cases (skips b r.status)) [
        | inl stop ↦ rw (gate, stop) (later r)
        | inr run ↦ rw (gate, run, loaded) refl
      ]

-- A load ends, and can fail only with other memory than the check had.
TreesOf-total :
    (m : Memory) (ms : (index : ℕ) → Memory) (toks : List Token) (n : ℕ) (ps : List Part)
    → ((i : ℕ) → i < length ps → Loads m toks (get_or ps i no_part))
    → (ts : List Tree) × TreesOf m ms toks n ps ts
TreesOf-total m ms toks n [] loads = ([], none_left)
TreesOf-total m ms toks n (part ∷ ps) loads =
    let (q, root, same, sound, last, inside) = loads 0 (omega arith) in
    let (ts, trees) = TreesOf-total m ms toks (suc n) ps (λ i lt. loads (suc i) (omega arith)) in
    go q root same ts trees (expr_at (ms n) toks part.start) refl
      (expr_at-Accepts (ms n) toks part.start inside)
  where
    go :
        (q : Parse) (root : ℕ)
        → expr_at m toks part.start ≡ done q root
        → (ts : List Tree) → TreesOf m ms toks (suc n) ps ts
        → (o : Outcome ℕ) → expr_at (ms n) toks part.start ≡ o
        → Accepts (NodeOf (ms n) toks (record { ast = reset; pos = part.start })) o
        → (us : List Tree) × TreesOf m ms toks n (part ∷ ps) us
    go q root same ts trees (done p r) found h =
        (record { loaded = some (p.ast, r); op = part.op } ∷ ts, one_more found trees)
    go q root same ts trees (error e) found h = (
      record { loaded = none; op = part.op } ∷ ts,
      not_loaded found (λ equal. cc (sym found ∙ ap (λ k. expr_at k toks part.start) equal ∙ same))
          trees,
    )
    go q root same ts trees stuck found h = elim h [ ]

-- When `pur_parse_command` has accepted a command, `pur_run_command` ends and runs the chain of the expressions'
-- trees, whatever memory the loads have: an expression behind `&&` is skipped after a failure and one behind
-- `||` after a success of the last expression that ran, a skipped one changes neither the world nor the
-- status, and the chain ends with an error at the first expression that is to run and does not load. No
-- expression fails to load with the memory that the check had.
pub run_command-chain {ℓ} :
    {W : Type ℓ} (exec : Ast → (root : ℕ) → W → W) (result : Ast → (root : ℕ) → W → Ran)
    (m : Memory) (ms : (index : ℕ) → Memory) (toks : List Token) (ps : List Part) (w : W)
    → check_command m toks ≡ parts ps
    → (ts : List Tree) × TreesOf m ms toks 0 ps ts
      × (run_command exec result ms toks ps w
          ≡ some (chain exec result op_none ts (record { world = w; status = 0 })))
unfolding run_command
run_command-chain exec result m ms toks ps w accepted =
    let runs : Runs m toks (parts ps) = subst (Runs m toks) accepted (check_command-Runs m toks) in
    let (ts, trees) = TreesOf-total m ms toks 0 ps (λ i lt. (runs.2 i lt).0) in
    (
      ts,
      trees,
      run_loop-chain exec result m ms toks [] ps op_none 0 ts (record { world = w; status = 0 })
          at_start refl trees,
    )
