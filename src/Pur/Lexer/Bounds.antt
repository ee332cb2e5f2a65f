-- ===== src/Pur/Lexer/Bounds.antt =====
-- Where the tokens of a line lie.
use panuti.Base.{
  ℕ, zero, suc, ◌+◌, ◌-◌, ◌≤◌, ◌<◌, ◌≡◌, refl, true, false, List, [], ◌∷◌, length, arith, ◌==◌, ltb,
  if◌then◌else◌, Bool-cases, inl, inr,
}
use panuti.Pur.Lexer.{
  Token, word, is, is_space, is_punct, is_delim, peek, punct_type, punct_len, word_len, quoted_len,
  skip, Lexed, tokens, lex_error, lex_stuck, memory, quote, keep, Next, blank, token, no_quote,
  next_token, lex_loop, tokenize,
}

-- The words lie in the line, apart from each other by at least the byte behind each, from `lo` on;
-- other tokens lie in the line.
abbrev pub Placed : (lo size : ℕ) → List Token → Type 0
Placed lo size [] = Unit {0}
Placed lo size (t ∷ ts) =
    (t.off + t.len ≤ size)
    × (is t.type word ≡ true → lo ≤ t.off)
    × Placed (if is t.type word then t.off + t.len + 1 else lo) size ts

abbrev pub Ends : (lo size room n : ℕ) → Lexed → Type 0
Ends lo size room n (tokens ts) = Placed lo size ts × (n + length ts < room)
Ends lo size room n (lex_error e) = Unit {0}
Ends lo size room n lex_stuck = ⊥

-- A word may start at `lo` unless the next byte ends a word.
abbrev slack : List ℕ → ℕ
slack [] = 1
slack (c ∷ cs) = if is_delim c then 1 else 0

length-skip : (n : ℕ) (cs : List ℕ) → length (skip n cs) ≡ length cs - n
unfolding skip
length-skip zero cs = omega arith
length-skip (suc n) [] = omega arith
length-skip (suc n) (c ∷ cs) = omega (arith, length-skip n cs)

word_len-le : (cs : List ℕ) → word_len cs ≤ length cs
unfolding word_len
word_len-le [] = omega arith
word_len-le (c ∷ cs) = ground (arith, word_len-le cs)

quoted_len-le : (cs : List ℕ) → quoted_len cs ≤ length cs
unfolding quoted_len
quoted_len-le [] = omega arith
quoted_len-le (c ∷ cs) = ground (arith, quoted_len-le cs)

-- A word ends at the end of the line or before a byte that is no part of a word.
slack-word_len : (cs : List ℕ) → slack (skip (word_len cs) cs) ≡ 1
unfolding word_len skip
slack-word_len [] = refl
slack-word_len (c ∷ cs) = elim (Bool-cases (is_delim c)) [
  | inl d ↦ rw d (rw d refl)
  | inr d ↦ rw d (slack-word_len cs)
]

Keeps : (lo size room n off : ℕ) (c : ℕ) (cs : List ℕ) → Next → Type 0
Keeps lo size room n off c cs blank = lo ≤ off + 1
Keeps lo size room n off c cs (token t advance) =
    (0 < advance)
    × (advance ≤ suc (length cs))
    × (t.off + t.len ≤ off + advance)
    × (is t.type word ≡ true → lo ≤ t.off)
    × ((if is t.type word then t.off + t.len + 1 else lo)
        ≤ off + advance + slack (skip advance (c ∷ cs)))
Keeps lo size room n off c cs no_quote = Unit {0}

punct-no_word : (c following : ℕ) → is (punct_type c following) word ≡ false
punct-no_word c following = ground arith

punct_len-le :
    (c : ℕ) (cs : List ℕ) → (0 < punct_len c (peek cs)) × (punct_len c (peek cs) ≤ suc (length cs))
punct_len-le c [] = ground arith
punct_len-le c (d ∷ cs) = ground arith

space-is_delim : (c : ℕ) → is_space c ≡ true → is_delim c ≡ true
space-is_delim c h = ground arith

punct-is_delim : (c : ℕ) → is_punct c ≡ true → is_delim c ≡ true
punct-is_delim c h = ground arith

quote-is_delim : (c : ℕ) → (c == 34) ≡ true → is_delim c ≡ true
quote-is_delim c h = ground arith

other-no_delim :
    (c : ℕ) → is_space c ≡ false → is_punct c ≡ false → (c == 34) ≡ false → is_delim c ≡ false
other-no_delim c a b d = rw (a, b, d) refl

word_len-suc : (c : ℕ) (cs : List ℕ) → is_delim c ≡ false → word_len (c ∷ cs) ≡ suc (word_len cs)
unfolding word_len
word_len-suc c cs d = rw d refl

next_token-Keeps :
    (lo size room n off : ℕ) (c : ℕ) (cs : List ℕ)
    → lo ≤ off + slack (c ∷ cs)
    → Keeps lo size room n off c cs (next_token off c cs)
unfolding next_token Keeps
next_token-Keeps lo size room n off c cs from = elim (Bool-cases (is_space c)) [
  | inl space ↦ rw space (rw (space-is_delim c space) at from)
  | inr s ↦ elim (Bool-cases (is_punct c)) [
    | inl p ↦
        let near : lo ≤ off + 1 = rw (punct-is_delim c p) at from in
        let shape = punct-no_word c (peek cs) in
        let (pos, le) = punct_len-le c cs in
        rw (s, p, shape) ((pos, le, omega arith, (λ h. cc), omega arith))
    | inr p ↦ elim (Bool-cases (c == 34)) [
      | inl q ↦
          let near : lo ≤ off + 1 = rw (quote-is_delim c q) at from in
          elim (Bool-cases (length cs == quoted_len cs)) [
            | inl open_quote ↦ rw (s, p, q, open_quote) tt
            | inr closed ↦
                rw (s, p, q, closed)
                  ((
                    omega arith,
                    ground (arith, quoted_len-le cs),
                    omega arith,
                    (λ h. near),
                    omega arith,
                  ))
          ]
      | inr q ↦
          let d : is_delim c ≡ false = other-no_delim c s p q in
          let near : lo ≤ off + 0 = rw d at from in
          let one : word_len (c ∷ cs) ≡ suc (word_len cs) = word_len-suc c cs d in
          rw (s, p, q)
            ((
              omega arith,
              word_len-le (c ∷ cs),
              omega arith,
              (λ h. omega arith),
              omega (arith, slack-word_len (c ∷ cs)),
            ))
    ]
  ]
]

Ends-keep :
    (lo size room n : ℕ) (t : Token) (r : Lexed)
    → t.off + t.len ≤ size
    → (is t.type word ≡ true → lo ≤ t.off)
    → Ends (if is t.type word then t.off + t.len + 1 else lo) size room (n + 1) r
    → Ends lo size room n (keep room t r)
Ends-keep lo size room n t (tokens ts) fits from e = ((fits, from, e.0), omega (arith, e.1))
Ends-keep lo size room n t (lex_error s) fits from e = tt
Ends-keep lo size room n t lex_stuck fits from e = e

lex_loop-Ends :
    (fuel lo size room n off : ℕ) (cs : List ℕ)
    → length cs < fuel
    → off + length cs ≡ size
    → lo ≤ off + slack cs
    → Ends lo size room n (lex_loop fuel room n off cs)
unfolding lex_loop Keeps
lex_loop-Ends zero lo size room n off cs enough whole from = absurd (omega arith)
lex_loop-Ends (suc fuel) lo size room n off [] enough whole from = elim (Bool-cases (ltb n room)) [
  | inl h ↦ rw h ((tt, ground arith))
  | inr h ↦ rw h tt
]
lex_loop-Ends (suc fuel) lo size room n off (c ∷ cs) enough whole from =
    by_next (next_token off c cs) (next_token-Keeps lo size room n off c cs from)
      (lex_loop-Ends fuel lo size room n (off + 1) cs (omega arith) (omega arith))
      (λ m rest at. lex_loop-Ends fuel m size room (n + 1) at rest)
  where
    by_next :
        (r : Next)
        → Keeps lo size room n off c cs r
        → (lo ≤ off + 1 + slack cs → Ends lo size room n (lex_loop fuel room n (off + 1) cs))
        → ((m : ℕ) (rest : List ℕ) (at : ℕ)
            → length rest < fuel
            → at + length rest ≡ size
            → m ≤ at + slack rest
            → Ends m size room (n + 1) (lex_loop fuel room (n + 1) at rest))
        → Ends lo size room n (elim r as (λ _. Lexed) [
          | blank ↦ lex_loop fuel room n (off + 1) cs
          | token t advance ↦
              let rest = lex_loop fuel room (n + 1) (off + advance) (skip advance (c ∷ cs)) in
              if ltb n room then keep room t rest else lex_error memory
          | no_quote ↦ lex_error quote
        ])
    by_next blank k same later = same (omega (arith, k))
    by_next (token t advance) k same later =
        let m = if is t.type word then t.off + t.len + 1 else lo in
        let rest = skip advance (c ∷ cs) in
        let size_rest = length-skip advance (c ∷ cs) in
        let e : Ends m size room (n + 1) (lex_loop fuel room (n + 1) (off + advance) rest) =
          later m rest (off + advance) (omega (arith, k.0)) (omega (arith, k.1)) k.4 in
        elim (Bool-cases (ltb n room)) [
          | inl h ↦ rw h (Ends-keep lo size room n t _ (omega (arith, k.1, k.2)) k.3 e)
          | inr h ↦ rw h tt
        ]
    by_next no_quote k same later = tt

-- The lexer ends on every line. The tokens are fewer than there is room for, so that the end token fits, and lie
-- in the line; of two words the later one starts behind the byte after the earlier one.
pub tokenize-Ends : (room : ℕ) (line : List ℕ) → Ends 0 (length line) room 0 (tokenize room line)
unfolding tokenize
tokenize-Ends room line =
    lex_loop-Ends (length line + 1) 0 (length line) room 0 0 line (omega arith) (omega arith)
      (omega arith)
