-- ===== src/Nib/Memory.antt =====
-- The memory of nib's lines: line_reserve of nib/src/main.c and what calls it.
use panuti.Base.{
  ℕ, zero, suc, ◌+◌, ◌*◌, ◌/◌, ◌≤◌, ◌<◌, ◌≡◌, refl, subst, ◌⊎◌, inl, inr, Bool, false, List, [],
  ◌∷◌, ◌++◌, Option, none, some, arith, length, length-append, length-take, length-drop, take, drop,
  ltb, leb, ◌==◌, if◌then◌else◌, Bool-cases, leb→le,
}
use panuti.Nib.Rows.{replace_rows}
use panuti.Nib.{
  Line, line_at, line_init, int_max, line_len_max, grow_cap, new_cap, line_reserve, line_set,
  line_append, line_insert, line_backspace_at, put_at, cut_at, with_string,
}

-- The loop ends with room for what was asked for, and keeps to the integers.
grow_cap_lem : (fuel ncap cap : ℕ) → 0 < ncap → cap ≤ ncap + fuel → cap ≤ grow_cap fuel ncap cap
unfolding grow_cap
grow_cap_lem zero ncap cap pos le = omega arith
grow_cap_lem (suc fuel) ncap cap pos le =
    ground (arith, grow_cap_lem fuel (ncap * 2) cap (omega arith) (omega arith))

grow_cap_le :
    (fuel ncap cap : ℕ) → ncap ≤ int_max → cap ≤ int_max → grow_cap fuel ncap cap ≤ int_max
unfolding grow_cap
grow_cap_le zero ncap cap le le' = omega arith
grow_cap_le (suc fuel) ncap cap le le' = elim (Bool-cases (leb cap ncap)) [
  | inl e ↦ rw e (omega arith)
  | inr e ↦ elim (Bool-cases (ltb (int_max / 2) ncap)) [
    | inl f ↦ rw (e, f) (omega arith)
    | inr f ↦
        let half : ncap ≤ 1073741823 = ground arith in
        rw (e, f) (grow_cap_le fuel (ncap * 2) cap (omega arith) le')
  ]
]

-- A string with the 0 behind it is in the memory.
abbrev pub FitsCap : List ℕ → (cap : ℕ) → Type 0
FitsCap s cap = (length s ≡ 0) ⊎ (length s < cap)

-- `cap` is an `int`.
pub record IsLine (l : Line) : Type 0 where
  pub cap_le : l.cap ≤ int_max
  pub len_le : length l.string ≤ line_len_max
  pub fits : FitsCap l.string l.cap

-- What `line_reserve` answers.
pub data Reserved (room : ℕ → Bool) (l : Line) (cap : ℕ) : Option Line → Type 0 where
  room_for :
      {l' : Line}
      → l'.string ≡ l.string
      → cap ≤ l'.cap
      → l'.cap ≤ int_max
      → Reserved room l cap (some l')
  no_room : (size : ℕ) → room size ≡ false → Reserved room l cap none

new_cap_le : (old cap : ℕ) → old ≤ int_max → cap ≤ int_max → new_cap old cap ≤ int_max
new_cap_le old cap le le' = grow_cap_le cap (if old == 0 then 16 else old) cap (ground arith) le'

new_cap_lem : (old cap : ℕ) → cap ≤ new_cap old cap
new_cap_lem old cap =
    let pos : 0 < (if old == 0 then 16 else old) = ground arith in
    grow_cap_lem cap (if old == 0 then 16 else old) cap pos (omega arith)

pub line_reserve-Reserved :
    (room : ℕ → Bool) (l : Line) (cap : ℕ)
    → l.cap ≤ int_max
    → cap ≤ int_max
    → Reserved room l cap (line_reserve room l cap)
unfolding line_reserve
line_reserve-Reserved room l cap le le' = elim (Bool-cases (leb cap l.cap)) [
  | inl e ↦ rw e (room_for refl (leb→le _ _ e) le)
  | inr e ↦ elim (Bool-cases (room (new_cap l.cap cap))) [
    | inl f ↦ rw (e, f) (room_for refl (new_cap_lem l.cap cap) (new_cap_le l.cap cap le le'))
    | inr f ↦ rw (e, f) (no_room (new_cap l.cap cap) f)
  ]
]

-- Why there is no room for a string of so many bytes: realloc has none, or it is longer than a row may be.
pub data Short (room : ℕ → Bool) (n : ℕ) : Type 0 where
  no_memory : (size : ℕ) → room size ≡ false → Short room n
  too_long : line_len_max < n → Short room n

-- A line whose string is `s`, or no room.
pub data Holds (room : ℕ → Bool) (s : List ℕ) : Option Line → Type 0 where
  held : {l : Line} → l.string ≡ s → 0 < l.cap → IsLine l → Holds room s (some l)
  lacks : Short room (length s) → Holds room s none

-- A line with room for a string has it.
with_string_lem :
    (room : ℕ → Bool) (l : Line) (s : List ℕ) (o : Option Line)
    → length s ≤ line_len_max
    → Reserved room l (length s + 1) o
    → Holds room s (with_string o s)
with_string_lem room l s none le (no_room size denied) = lacks (no_memory size denied)
with_string_lem room l s (some l') le (room_for same has most) =
    held refl (omega arith) (record { cap_le = most; len_le = le; fits = inr (omega arith) })

reserved :
    (room : ℕ → Bool) (l : Line) (s : List ℕ)
    → l.cap ≤ int_max
    → length s ≤ line_len_max
    → Holds room s (with_string (line_reserve room l (length s + 1)) s)
reserved room l s le len =
    with_string_lem room l s (line_reserve room l (length s + 1)) len
      (line_reserve-Reserved room l (length s + 1) le (omega arith))

pub line_set-Holds :
    (room : ℕ → Bool) (l : Line) (s : List ℕ) → l.cap ≤ int_max → Holds room s (line_set room l s)
unfolding line_set
line_set-Holds room l s le = elim (Bool-cases (ltb line_len_max (length s))) [
  | inl e ↦ rw e (lacks (too_long (ground arith)))
  | inr e ↦ rw e (reserved room l s le (ground arith))
]

pub length-put_at : (pos c : ℕ) (s : List ℕ) → length (put_at pos c s) ≡ suc (length s)
length-put_at pos c s =
    omega (arith, length-append (take pos s) (c ∷ drop pos s), length-take pos s, length-drop pos s)

-- One byte more.
one_more :
    (room : ℕ → Bool) (l : Line) (s : List ℕ)
    → IsLine l
    → length s ≡ suc (length l.string)
    → length l.string < line_len_max
    → Holds room s (with_string (line_reserve room l (length l.string + 2)) s)
one_more room l s ok len lt =
    let e : length s + 1 ≡ length l.string + 2 = omega arith in
    subst (λ n. Holds room s (with_string (line_reserve room l n) s)) e
      (reserved room l s ok.cap_le (omega arith))

pub line_insert-Holds :
    (room : ℕ → Bool) (l : Line) (pos c : ℕ)
    → IsLine l
    → pos ≤ length l.string
    → Holds room (put_at pos c l.string) (line_insert room l pos c)
unfolding line_insert
line_insert-Holds room l pos c ok le =
    let at : ltb (length l.string) pos ≡ false = ground arith in
    elim (Bool-cases (leb line_len_max (length l.string))) [
      | inl e ↦ rw e (lacks (too_long (ground (arith, length-put_at pos c l.string))))
      | inr e ↦
          rw (e, at)
            (one_more room l (put_at pos c l.string) ok (length-put_at pos c l.string)
              (ground arith))
    ]

pub line_append-Holds :
    (room : ℕ → Bool) (l : Line) (c : ℕ)
    → IsLine l
    → Holds room (l.string ++ c ∷ []) (line_append room l c)
unfolding line_append
line_append-Holds room l c ok =
    let len : length (l.string ++ c ∷ []) ≡ suc (length l.string) =
      omega (arith, length-append l.string (c ∷ [])) in
    elim (Bool-cases (leb line_len_max (length l.string))) [
      | inl e ↦ rw e (lacks (too_long (ground (arith, len))))
      | inr e ↦ rw e (one_more room l (l.string ++ c ∷ []) ok len (ground arith))
    ]

-- A line that gets no longer stays in its memory.
pub shorter-IsLine :
    (l : Line) (s : List ℕ)
    → IsLine l
    → length s ≤ length l.string
    → IsLine (record l { string = s })
shorter-IsLine l s ok le = record {
  cap_le = ok.cap_le;
  len_le = omega (arith, ok.len_le);
  fits = elim ok.fits [ inl z ↦ inl (omega arith) | inr lt ↦ inr (omega arith) ];
}

pub length-cut_at : (pos : ℕ) (s : List ℕ) → pos < length s → length (cut_at pos s) + 1 ≡ length s
length-cut_at pos s lt = omega (
  arith,
  length-append (take pos s) (drop (pos + 1) s),
  length-take pos s,
  length-drop (pos + 1) s,
)

pub line_backspace_at-IsLine : (l : Line) (pos : ℕ) → IsLine l → IsLine (line_backspace_at l pos)
unfolding line_backspace_at
line_backspace_at-IsLine l pos ok = elim (Bool-cases (leb (length l.string) pos)) [
  | inl e ↦ rw e ok
  | inr e ↦
      let lt : pos < length l.string = ground arith in
      rw e
        (shorter-IsLine l (cut_at pos l.string) ok (omega (arith, length-cut_at pos l.string lt)))
]

-- Every line of the rows is in its memory.
abbrev pub AreLines : List Line → Type 0
AreLines [] = Unit {0}
AreLines (l ∷ ls) = IsLine l × AreLines ls

pub line_init-IsLine : IsLine line_init
line_init-IsLine = record { cap_le = omega arith; len_le = omega arith; fits = inl refl }

pub line_at-IsLine : (ls : List Line) (y : ℕ) → AreLines ls → IsLine (line_at ls y)
line_at-IsLine [] y ok = line_init-IsLine
line_at-IsLine (l ∷ ls) zero (ok, oks) = ok
line_at-IsLine (l ∷ ls) (suc y) (ok, oks) = line_at-IsLine ls y oks

drop-AreLines : (ls : List Line) (n : ℕ) → AreLines ls → AreLines (drop n ls)
drop-AreLines ls zero oks = oks
drop-AreLines [] (suc n) oks = oks
drop-AreLines (l ∷ ls) (suc n) (ok, oks) = drop-AreLines ls n oks

append-AreLines : (ls ms : List Line) → AreLines ls → AreLines ms → AreLines (ls ++ ms)
append-AreLines [] ms oks oks' = oks'
append-AreLines (l ∷ ls) ms (ok, oks) oks' = (ok, append-AreLines ls ms oks oks')

pub replace_rows-AreLines :
    (ls : List Line) (y n : ℕ) (new : List Line)
    → AreLines ls
    → AreLines new
    → AreLines (replace_rows ls y n new)
replace_rows-AreLines ls zero n new oks oks' =
    append-AreLines new (drop n ls) oks' (drop-AreLines ls n oks)
replace_rows-AreLines [] (suc y) n new oks oks' = oks
replace_rows-AreLines (l ∷ ls) (suc y) n new (ok, oks) oks' =
    (ok, replace_rows-AreLines ls y n new oks oks')
