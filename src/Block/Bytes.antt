-- ===== src/Block/Bytes.antt =====
-- Parts of a list of bytes: what a copy into a part, and a read of a part, leave and give.
use panuti.Base.{
  ℕ, zero, suc, ◌+◌, ◌≤◌, ◌≡◌, refl, sym, ap, ◌∙◌, List, [], ◌∷◌, arith, length, length-take,
  length-drop, take, drop,
}
use panuti.Block.{slice, splice}

pub length-splice : (xs : List ℕ) (i : ℕ) (ys : List ℕ) → length (splice xs i ys) ≡ length xs
length-splice [] i ys = refl
length-splice (x ∷ xs) zero [] = refl
length-splice (x ∷ xs) zero (y ∷ ys) = ap suc (length-splice xs zero ys)
length-splice (x ∷ xs) (suc i) ys = ap suc (length-splice xs i ys)

pub splice-nil : (xs : List ℕ) (i : ℕ) → splice xs i [] ≡ xs
splice-nil [] i = refl
splice-nil (x ∷ xs) zero = refl
splice-nil (x ∷ xs) (suc i) = ap (λ r. x ∷ r) (splice-nil xs i)

take_all : (xs : List ℕ) (n : ℕ) → length xs ≤ n → take n xs ≡ xs
take_all [] zero le = refl
take_all [] (suc n) le = refl
take_all (x ∷ xs) zero le = absurd (omega arith)
take_all (x ∷ xs) (suc n) le = ap (λ r. x ∷ r) (take_all xs n (omega arith))

-- A read of what was copied.
slice-splice_start :
    (xs ys : List ℕ) → length ys ≤ length xs → take (length ys) (splice xs zero ys) ≡ ys
slice-splice_start [] [] le = refl
slice-splice_start [] (y ∷ ys) le = absurd (omega arith)
slice-splice_start (x ∷ xs) [] le = refl
slice-splice_start (x ∷ xs) (y ∷ ys) le = ap (λ r. y ∷ r) (slice-splice_start xs ys (omega arith))

pub slice-splice :
    (xs : List ℕ) (i : ℕ) (ys : List ℕ)
    → i + length ys ≤ length xs
    → slice (splice xs i ys) i (length ys) ≡ ys
slice-splice xs zero ys le = slice-splice_start xs ys (omega arith)
slice-splice [] (suc i) ys le = absurd (omega arith)
slice-splice (x ∷ xs) (suc i) ys le = slice-splice xs i ys (omega arith)

-- A part of a part.
take_nil : (n : ℕ) → take {A = ℕ} n [] ≡ []
take_nil zero = refl
take_nil (suc n) = refl

drop_nil : (n : ℕ) → drop {A = ℕ} n [] ≡ []
drop_nil zero = refl
drop_nil (suc n) = refl

slice-take : (ys : List ℕ) (a n len : ℕ) → a + len ≤ n → slice (take n ys) a len ≡ slice ys a len
slice-take [] a n len le = rw (take_nil n) refl
slice-take (y ∷ ys) zero n zero le = refl
slice-take (y ∷ ys) zero zero (suc len) le = absurd (omega arith)
slice-take (y ∷ ys) zero (suc n) (suc len) le =
    ap (λ r. y ∷ r) (slice-take ys zero n len (omega arith))
slice-take (y ∷ ys) (suc a) zero len le = absurd (omega arith)
slice-take (y ∷ ys) (suc a) (suc n) len le = slice-take ys a n len (omega arith)

drop-drop : (xs : List ℕ) (i a : ℕ) → drop a (drop i xs) ≡ drop (i + a) xs
drop-drop xs zero a = let e : 0 + a ≡ a = omega arith in rw e refl
drop-drop [] (suc i) a = drop_nil a ∙ sym (drop_nil (suc i + a))
drop-drop (x ∷ xs) (suc i) a =
    let e : suc i + a ≡ suc (i + a) = omega arith in rw e (drop-drop xs i a)

pub slice-slice :
    (xs : List ℕ) (i a n len : ℕ) → a + len ≤ n → slice (slice xs i n) a len ≡ slice xs (i + a) len
slice-slice xs i a n len le = slice-take (drop i xs) a n len le ∙ ap (take len) (drop-drop xs i a)

-- A copy over a part that a copy into it was read from.
splice_all : (xs ys : List ℕ) → length xs ≡ length ys → splice xs zero ys ≡ ys
splice_all [] [] e = refl
splice_all [] (y ∷ ys) e = absurd (omega arith)
splice_all (x ∷ xs) [] e = absurd (omega arith)
splice_all (x ∷ xs) (y ∷ ys) e = ap (λ r. y ∷ r) (splice_all xs ys (omega arith))

splice-take : (xs : List ℕ) (n : ℕ) → splice xs zero (take n xs) ≡ xs
splice-take [] n = refl
splice-take (x ∷ xs) zero = refl
splice-take (x ∷ xs) (suc n) = ap (λ r. x ∷ r) (splice-take xs n)

splice-part_start :
    (xs : List ℕ) (b n : ℕ) (ys : List ℕ)
    → b + length ys ≤ n
    → splice xs zero (splice (take n xs) b ys) ≡ splice xs b ys
splice-part_start [] b n ys le = refl
splice-part_start (x ∷ xs) zero zero [] le = refl
splice-part_start (x ∷ xs) zero zero (y ∷ ys) le = absurd (omega arith)
splice-part_start (x ∷ xs) (suc b) zero ys le = absurd (omega arith)
splice-part_start (x ∷ xs) zero (suc n) [] le = ap (λ r. x ∷ r) (splice-take xs n)
splice-part_start (x ∷ xs) zero (suc n) (y ∷ ys) le =
    ap (λ r. y ∷ r) (splice-part_start xs zero n ys (omega arith))
splice-part_start (x ∷ xs) (suc b) (suc n) ys le =
    ap (λ r. x ∷ r) (splice-part_start xs b n ys (omega arith))

pub splice-part :
    (xs : List ℕ) (i b n : ℕ) (ys : List ℕ)
    → b + length ys ≤ n
    → splice xs i (splice (slice xs i n) b ys) ≡ splice xs (i + b) ys
splice-part xs zero b n ys le =
    let e : 0 + b ≡ b = omega arith in rw e (splice-part_start xs b n ys le)
splice-part [] (suc i) b n ys le = refl
splice-part (x ∷ xs) (suc i) b n ys le =
    let e : suc i + b ≡ suc (i + b) = omega arith in
    rw e (ap (λ r. x ∷ r) (splice-part xs i b n ys le))

-- A copy over the whole of a list forgets it.
pub splice-whole : (xs ys : List ℕ) (n : ℕ) → length xs ≡ n → length ys ≡ n → splice xs 0 ys ≡ ys
splice-whole xs ys n a b = splice_all xs ys (omega arith)

pub length-slice : (xs : List ℕ) (i n : ℕ) → i + n ≤ length xs → length (slice xs i n) ≡ n
length-slice xs i n le = omega (arith, length-take n (drop i xs), length-drop i xs)
