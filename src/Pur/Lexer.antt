-- ===== src/Pur/Lexer.antt =====
-- The lexer of the shell, `tokenize` of pur/src/parse.c. The line is the list of its bytes before the 0 at
-- its end; a token names a part of the line. How many tokens the allocator has room for is a parameter.
pub mod Bounds
pub mod Strings
use panuti.Base.{
  ℕ, zero, suc, ◌+◌, Bool, true, false, not, ◌&&◌, ◌||◌, List, [], ◌∷◌, ◌++◌, length, get_or, set,
  ◌==◌, ltb, if◌then◌else◌,
}

-- `pur_tok_t`
pub data TokenType : Type 0 where
  end word lparen rparen semi gt and or bg pipe : TokenType

abbrev pub code : TokenType → ℕ
code end = 0
code word = 1
code lparen = 2
code rparen = 3
code semi = 4
code gt = 5
code and = 6
code or = 7
code bg = 8
code pipe = 9

abbrev pub is : TokenType → TokenType → Bool
is a b = code a == code b

pub record Token : Type 0 where
  pub type : TokenType
  pub off : ℕ
  pub len : ℕ

abbrev pub end_token : Token
end_token = record { type = end; off = 0; len = 0 }

-- `pur_parse_status_t` without OK.
pub data Status : Type 0 where
  empty syntax empty_group quote nodes leaves argv complex memory operator trailing_bg reserved
        exprs :
      Status

abbrev pub is_space : ℕ → Bool
is_space c = (c == 32) || (c == 9) || (c == 10) || (c == 13)

-- One of "();>&|".
abbrev pub is_punct : ℕ → Bool
is_punct c = (c == 40) || (c == 41) || (c == 59) || (c == 62) || (c == 38) || (c == 124)

abbrev pub is_delim : ℕ → Bool
is_delim c = is_space c || is_punct c || (c == 34)

-- The byte at the head; 0 at the end of the line.
abbrev pub peek : List ℕ → ℕ
peek [] = 0
peek (c ∷ cs) = c

-- The type of the token that starts with a punctuation byte, and its length.
abbrev pub punct_type : (c following : ℕ) → TokenType
punct_type c following =
    if c == 40
    then lparen
    else if c == 41
    then rparen
    else if c == 59
    then semi
    else if c == 62
    then gt
    else if c == 38
    then (if following == 38 then and else bg)
    else if following == 124
    then or
    else pipe

abbrev pub punct_len : (c following : ℕ) → ℕ
punct_len c following =
    if (c == 38) && (following == 38) then 2 else if (c == 124) && (following == 124) then 2 else 1

-- The length of a word, and of the text before the closing quote.
unfoldable pub word_len : List ℕ → ℕ
word_len [] = 0
word_len (c ∷ cs) = let rest = word_len cs in if is_delim c then 0 else suc rest

unfoldable pub quoted_len : List ℕ → ℕ
quoted_len [] = 0
quoted_len (c ∷ cs) = let rest = quoted_len cs in if c == 34 then 0 else suc rest

unfoldable pub skip : ℕ → List ℕ → List ℕ
skip zero cs = cs
skip (suc n) [] = []
skip (suc n) (c ∷ cs) = skip n cs

pub data Lexed : Type 0 where
  tokens : List Token → Lexed
  lex_error : Status → Lexed
  lex_stuck : Lexed

abbrev pub token_of : (type : TokenType) (off len : ℕ) → Token
token_of type off len = record { type = type; off = off; len = len }

-- The token at the head of what is left of the line; `advance` is how many bytes it takes.
pub data Next : Type 0 where
  blank : Next
  token : Token → (advance : ℕ) → Next
  no_quote : Next

unfoldable pub next_token : (off : ℕ) → ℕ → List ℕ → Next
next_token off c cs =
    if is_space c
    then blank
    else if is_punct c
    then token (token_of (punct_type c (peek cs)) off (punct_len c (peek cs)))
        (punct_len c (peek cs))
    else if c == 34
    then (if length cs == quoted_len cs
        then no_quote
        else token (token_of word (off + 1) (quoted_len cs)) (quoted_len cs + 2))
    else token (token_of word off (word_len (c ∷ cs))) (word_len (c ∷ cs))

-- A token is kept if there is room for it and the end token.
abbrev pub keep : (room : ℕ) → Token → Lexed → Lexed
keep room t (tokens ts) = tokens (t ∷ ts)
keep room t (lex_error e) = lex_error e
keep room t lex_stuck = lex_stuck

-- The loop of `tokenize`, with `n` tokens before.
unfoldable pub lex_loop : ℕ → (room n off : ℕ) → List ℕ → Lexed
lex_loop zero room n off cs = lex_stuck
lex_loop (suc fuel) room n off [] = if ltb n room then tokens [] else lex_error memory
lex_loop (suc fuel) room n off (c ∷ cs) = elim (next_token off c cs) as (λ _. Lexed) [
  | blank ↦ lex_loop fuel room n (off + 1) cs
  | token t advance ↦
      let rest = lex_loop fuel room (n + 1) (off + advance) (skip advance (c ∷ cs)) in
      if ltb n room then keep room t rest else lex_error memory
  | no_quote ↦ lex_error quote
]

-- `tokenize`; the end token is what a read behind the list gives.
unfoldable pub tokenize : (room : ℕ) → List ℕ → Lexed
tokenize room line = lex_loop (length line + 1) room 0 0 line

-- `terminate_words`, on the line with the 0 at its end.
unfoldable pub terminate_words : List Token → List ℕ → List ℕ
terminate_words [] text = text
terminate_words (t ∷ ts) text =
    let cut = terminate_words ts (set text (t.off + t.len) 0) in
    let kept = terminate_words ts text in if is t.type word then cut else kept
