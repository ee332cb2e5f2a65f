-- ===== src/Nib/Bytes.antt =====
-- Bytes of a line before and behind a column, after a byte is put in or taken out.
use panuti.Base.{
  ℕ, zero, suc, ◌+◌, ◌≤◌, ◌<◌, ◌≡◌, refl, ap, List, [], ◌∷◌, ◌++◌, arith, length, get_or, take,
  drop,
}
use panuti.Nib.{put_at, cut_at}

-- The text without its last byte.
abbrev pub but_last : List ℕ → List ℕ
but_last [] = []
but_last (c ∷ []) = []
but_last (c ∷ d ∷ s) = c ∷ but_last (d ∷ s)

pub but_last-append : (s : List ℕ) (c : ℕ) → but_last (s ++ c ∷ []) ≡ s
but_last-append [] c = refl
but_last-append (d ∷ []) c = refl
but_last-append (d ∷ e ∷ s) c = ap (λ r. d ∷ r) (but_last-append (e ∷ s) c)

pub take-put_at :
    (pos c : ℕ) (s : List ℕ)
    → pos ≤ length s
    → take (pos + 1) (put_at pos c s) ≡ take pos s ++ c ∷ []
take-put_at zero c s le = refl
take-put_at (suc pos) c [] le = absurd (omega arith)
take-put_at (suc pos) c (d ∷ s) le =
    let e : suc pos + 1 ≡ suc (pos + 1) = omega arith in
    rw e (ap (λ r. d ∷ r) (take-put_at pos c s (omega arith)))

pub drop-put_at :
    (pos c : ℕ) (s : List ℕ) → pos ≤ length s → drop (pos + 1) (put_at pos c s) ≡ drop pos s
drop-put_at zero c s le = refl
drop-put_at (suc pos) c [] le = absurd (omega arith)
drop-put_at (suc pos) c (d ∷ s) le =
    let e : suc pos + 1 ≡ suc (pos + 1) = omega arith in rw e (drop-put_at pos c s (omega arith))

pub take-cut_at : (pos : ℕ) (s : List ℕ) → pos ≤ length s → take pos (cut_at pos s) ≡ take pos s
take-cut_at zero s le = refl
take-cut_at (suc pos) [] le = absurd (omega arith)
take-cut_at (suc pos) (d ∷ s) le =
    let e : suc pos + 1 ≡ suc (pos + 1) = omega arith in
    rw e (ap (λ r. d ∷ r) (take-cut_at pos s (omega arith)))

pub drop-cut_at :
    (pos : ℕ) (s : List ℕ) → pos ≤ length s → drop pos (cut_at pos s) ≡ drop (suc pos) s
drop-cut_at zero s le = refl
drop-cut_at (suc pos) [] le = absurd (omega arith)
drop-cut_at (suc pos) (d ∷ s) le =
    let e : suc pos + 1 ≡ suc (pos + 1) = omega arith in rw e (drop-cut_at pos s (omega arith))

pub take-suc :
    (pos : ℕ) (s : List ℕ) → pos < length s → take (suc pos) s ≡ take pos s ++ get_or s pos 0 ∷ []
take-suc pos [] lt = absurd (omega arith)
take-suc zero (d ∷ s) lt = refl
take-suc (suc pos) (d ∷ s) lt = ap (λ r. d ∷ r) (take-suc pos s (omega arith))

pub take-length : (s r : List ℕ) → take (length s) (s ++ r) ≡ s
take-length [] r = refl
take-length (d ∷ s) r = ap (λ t. d ∷ t) (take-length s r)

pub drop-length : (s r : List ℕ) → drop (length s) (s ++ r) ≡ r
drop-length [] r = refl
drop-length (d ∷ s) r = drop-length s r

-- A cut at a column, with other bytes behind it.
pub take-take_append :
    (pos : ℕ) (s r : List ℕ) → pos ≤ length s → take pos (take pos s ++ r) ≡ take pos s
take-take_append zero s r le = refl
take-take_append (suc pos) [] r le = absurd (omega arith)
take-take_append (suc pos) (d ∷ s) r le = ap (λ t. d ∷ t) (take-take_append pos s r (omega arith))

pub drop-take_append : (pos : ℕ) (s r : List ℕ) → pos ≤ length s → drop pos (take pos s ++ r) ≡ r
drop-take_append zero s r le = refl
drop-take_append (suc pos) [] r le = absurd (omega arith)
drop-take_append (suc pos) (d ∷ s) r le = drop-take_append pos s r (omega arith)
