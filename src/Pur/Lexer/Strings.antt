-- ===== src/Pur/Lexer/Strings.antt =====
-- The words of a line as strings that end with a 0.
use panuti.Base.{
  ℕ, ◌+◌, ◌≤◌, ◌<◌, ◌≡◌, refl, sym, subst, ◌∙◌, inl, inr, true, false, List, [], ◌∷◌, ◌++◌, arith,
  length, length-append, length-set, get_or, get_or-set, set, ◌==◌, if◌then◌else◌, Bool-cases,
}
use panuti.Pur.Lexer.{Token, word, is, tokens, tokenize, terminate_words}
use panuti.Pur.Lexer.Bounds.{Placed, Ends, tokenize-Ends}

-- Every word has its bytes of `line`, and a 0 behind them.
abbrev pub Strings : (line out : List ℕ) → List Token → Type 0
Strings line out [] = Unit {0}
Strings line out (t ∷ ts) =
    (is t.type word ≡ true
      → ((k : ℕ) → k < t.len → get_or out (t.off + k) 0 ≡ get_or line (t.off + k) 0)
        × (get_or out (t.off + t.len) 0 ≡ 0))
    × Strings line out ts

-- A write behind each word leaves the bytes before the words alone.
terminate-before :
    (ts : List Token) (lo size : ℕ) (text : List ℕ) (j : ℕ)
    → Placed lo size ts
    → size < length text
    → j < lo
    → get_or (terminate_words ts text) j 0 ≡ get_or text j 0
unfolding terminate_words
terminate-before [] lo size text j placed fits lt = refl
terminate-before (t ∷ ts) lo size text j placed fits lt = elim (Bool-cases (is t.type word)) [
  | inl e ↦
      let from : lo ≤ t.off = placed.1 e in
      let rest : Placed (t.off + t.len + 1) size ts = rw e at placed.2 in
      let other : (t.off + t.len == j) ≡ false = ground arith in
      let read : get_or (set text (t.off + t.len) 0) j 0 ≡ get_or text j 0 =
        get_or-set text (t.off + t.len) j 0 0 (omega (arith, placed.0)) ∙ (rw other refl) in
      rw e (
        terminate-before ts (t.off + t.len + 1) size (set text (t.off + t.len) 0) j rest
          (omega (arith, length-set text (t.off + t.len) 0)) (omega arith)
        ∙ read)
  | inr e ↦
      let rest : Placed lo size ts = rw e at placed.2 in
      rw e (terminate-before ts lo size text j rest fits lt)
]

terminate-word :
    (t : Token) (ts : List Token) (text : List ℕ)
    → is t.type word ≡ true
    → terminate_words (t ∷ ts) text ≡ terminate_words ts (set text (t.off + t.len) 0)
unfolding terminate_words
terminate-word t ts text e = rw e refl

terminate-other :
    (t : Token) (ts : List Token) (text : List ℕ)
    → is t.type word ≡ false
    → terminate_words (t ∷ ts) text ≡ terminate_words ts text
unfolding terminate_words
terminate-other t ts text e = rw e refl

terminate-Strings :
    (ts : List Token) (lo size : ℕ) (line text : List ℕ)
    → Placed lo size ts
    → size < length text
    → ((j : ℕ) → lo ≤ j → get_or text j 0 ≡ get_or line j 0)
    → Strings line (terminate_words ts text) ts
unfolding terminate_words
terminate-Strings [] lo size line text placed fits same = tt
terminate-Strings (t ∷ ts) lo size line text placed fits same = elim (Bool-cases (is t.type word)) [
  | inl e ↦
      let from : lo ≤ t.off = placed.1 e in
      let rest : Placed (t.off + t.len + 1) size ts = rw e at placed.2 in
      let cut = set text (t.off + t.len) 0 in
      let inside : t.off + t.len < length text = omega (arith, placed.0) in
      let fits' : size < length cut = omega (arith, length-set text (t.off + t.len) 0) in
      let read : (j : ℕ) → get_or cut j 0 ≡ (if t.off + t.len == j then 0 else get_or text j 0) =
        λ j. get_or-set text (t.off + t.len) j 0 0 inside in
      subst (λ out. Strings line out (t ∷ ts)) (sym (terminate-word t ts text e))
        (
          (λ w. (
            (λ k lt.
                let other : (t.off + t.len == t.off + k) ≡ false = ground arith in
                terminate-before ts (t.off + t.len + 1) size cut (t.off + k) rest fits'
                  (omega arith)
                ∙ read (t.off + k)
                ∙ (rw other (same (t.off + k) (omega arith)))),
            (let own : (t.off + t.len == t.off + t.len) ≡ true = ground arith in
                terminate-before ts (t.off + t.len + 1) size cut (t.off + t.len) rest fits'
                  (omega arith)
                ∙ read (t.off + t.len)
                ∙ (rw own refl)),
          )),
          terminate-Strings ts (t.off + t.len + 1) size line cut rest fits' (λ j le.
              let other : (t.off + t.len == j) ≡ false = ground arith in
              read j ∙ (rw other (same j (omega arith)))),
        )
  | inr e ↦
      let rest : Placed lo size ts = rw e at placed.2 in
      subst (λ out. Strings line out (t ∷ ts)) (sym (terminate-other t ts text e))
        ((λ w. absurd cc), terminate-Strings ts lo size line text rest fits same)
]

-- After `terminate_words` every word that the lexer found has the bytes of the line, and a 0 behind them, when the
-- lexer does not refuse the line.
pub terminate_words-Strings :
    (room : ℕ) (line : List ℕ) (ts : List Token)
    → tokenize room line ≡ tokens ts
    → Strings (line ++ 0 ∷ []) (terminate_words ts (line ++ 0 ∷ [])) ts
terminate_words-Strings room line ts e =
    let ends : Ends 0 (length line) room 0 (tokens ts) =
      subst (Ends 0 (length line) room 0) e (tokenize-Ends room line) in
    terminate-Strings ts 0 (length line) (line ++ 0 ∷ []) (line ++ 0 ∷ []) (ends.0)
      (omega (arith, length-append line (0 ∷ []))) (λ j le. refl)
