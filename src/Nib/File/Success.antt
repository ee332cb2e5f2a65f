-- ===== src/Nib/File/Success.antt =====
-- `save` of nib/src/main.c over a file system that does what it is asked to.
use panuti.Base.{
  ℕ, ◌+◌, ◌≤◌, ◌<◌, ◌≡◌, refl, ◌⊎◌, inl, inr, Bool, true, false, not, ◌&&◌, List, [], ◌∷◌, ◌++◌,
  some, arith, length, length-append, length-drop, take, drop, ◌==◌, Bool-cases,
}
use panuti.Nib.{Line, Editor}
use panuti.Nib.File.{
  Disk, Answers, replaces, Written, write_all, newline_behind, write_rows, Saved, is_there, save,
}
use panuti.Nib.File.Saving.{text_of, Saves, clean, replaced, untouched, lost, save-Saves}

-- Every write takes something.
abbrev pub TakeBytes : List ℕ → Type 0
TakeBytes [] = Unit {0}
TakeBytes (w ∷ ws) = 0 < w × TakeBytes ws

-- The writes worked, and there are answers left for so many bytes.
record Goes (w : Written) (n : ℕ) : Type 0 where
  ok : w.ok ≡ true
  take_bytes : TakeBytes w.writes
  enough : n ≤ length w.writes

write_all-Goes :
    (ws bytes new : List ℕ) (n : ℕ)
    → TakeBytes ws
    → length new + n ≤ length ws
    → Goes (write_all ws bytes new) n
unfolding write_all
write_all-Goes [] bytes new n t le = record {
  ok = ground (arith, le);
  take_bytes = tt;
  enough = omega (arith, le);
}
write_all-Goes (w ∷ ws) bytes new n (pos, t) le = elim (Bool-cases (length new == 0)) [
  | inl f ↦ rw f (record { ok = refl; take_bytes = (pos, t); enough = omega (arith, le) })
  | inr f ↦
      let g : (w == 0) ≡ false = ground (arith, pos) in
      let some_new : 0 < length new = ground arith in
      rw (f, g)
        (write_all-Goes ws (bytes ++ take w new) (drop w new) n t
          (omega (arith, length-drop w new)))
]

write_rows-Goes :
    (t : Bool) (w : Written) (ls : List Line) (n : ℕ)
    → Goes w (length (text_of t ls) + n)
    → Goes (write_rows t w ls) n
unfolding write_rows
write_rows-Goes t w [] n g = record {
  ok = g.ok;
  take_bytes = g.take_bytes;
  enough = omega (arith, g.enough);
}
write_rows-Goes t w (l ∷ ls) n g =
    let behind = newline_behind t ls in
    let rest = length (text_of t ls) + n in
    let len = length-append l.string (behind ++ text_of t ls) in
    let len' = length-append behind (text_of t ls) in
    let row = write_all w.writes w.bytes l.string in
    let row_goes : Goes row (length behind + rest) =
      write_all-Goes w.writes w.bytes l.string (length behind + rest) g.take_bytes
        (omega (arith, g.enough)) in
    let ended_goes =
      write_all-Goes row.writes row.bytes behind rest row_goes.take_bytes row_goes.enough in
    rw (g.ok, row_goes.ok)
      (write_rows-Goes t (write_all row.writes row.bytes behind) ls n ended_goes)

-- A file system that does what it is asked to, for a text of so many bytes.
pub record Complies (a : Answers) (n : ℕ) : Type 0 where
  pub room_ok : a.room ≡ true
  pub mkfile_ok : a.mkfile ≡ true
  pub opens_ok : a.opens ≡ true
  pub resizes_ok : a.resizes ≡ true
  pub renames_ok : a.renames ≡ replaces
  pub take_bytes : TakeBytes a.writes
  pub enough : n ≤ length a.writes

save_ok :
    (a : Answers) (e : Editor) (d : Disk)
    → Complies a (length (text_of e.trailing_nl e.lines))
    → (save a e d).ok ≡ true
unfolding save
save_ok a e d c = elim (Bool-cases (not e.dirty && is_there d.file)) [
  | inl f ↦ rw f refl
  | inr f ↦
      let text = text_of e.trailing_nl e.lines in
      let w0 : Written = record { writes = a.writes; bytes = []; ok = true } in
      let start : Goes w0 (length text + 0) = record {
        ok = refl;
        take_bytes = c.take_bytes;
        enough = omega (arith, c.enough);
      } in
      let done = (write_rows-Goes e.trailing_nl w0 e.lines 0 start).ok in
      let made : (not (is_there d.tmp) && not a.mkfile) ≡ false = ground (arith, c.mkfile_ok) in
      rw (f, c.room_ok, made, c.opens_ok, c.resizes_ok, done, c.renames_ok) refl
]

-- A save that answers true.
saved_as :
    {a : Answers} {s : Saved} {e : Editor} {d : Disk}
    → Saves a e d s
    → s.ok ≡ true
    → ((e.dirty ≡ false) × (is_there d.file ≡ true))
      ⊎ (s.disk.file ≡ some (text_of e.trailing_nl e.lines))
saved_as (clean is_clean there) h = inl (is_clean, there)
saved_as replaced h = inr refl
saved_as (lost gone) h = absurd (ground arith)
saved_as (untouched fails_e same) h = absurd (ground (arith, fails_e, h))

-- With room for the other name and a file system that makes, opens, empties and renames a file, and whose writes take at
-- least a byte each, a save answers true, and the file it leaves has the text, or was there with nothing to save.
pub save-Complies :
    (a : Answers) (e : Editor) (d : Disk)
    → Complies a (length (text_of e.trailing_nl e.lines))
    → ((save a e d).ok ≡ true)
      × (((e.dirty ≡ false) × (is_there d.file ≡ true))
          ⊎ ((save a e d).disk.file ≡ some (text_of e.trailing_nl e.lines)))
save-Complies a e d c =
    (save_ok a e d c, saved_as {s = save a e d} (save-Saves a e d) (save_ok a e d c))
