-- ===== src/Nib/File/Saving.antt =====
-- The outcomes of `save` of nib/src/main.c.
use mathlib.Core.List.{append-nil, append_assoc}
use panuti.Base.{
  ℕ, ◌≡◌, refl, sym, ap, subst, ◌∙◌, inl, inr, Bool, true, false, not, ◌&&◌, List, [], ◌∷◌, ◌++◌,
  none, some, arith, length, take, drop, take-append-drop, ◌==◌, if◌then◌else◌, Bool-cases,
}
use panuti.Nib.{Line, Editor}
use panuti.Nib.File.{
  Disk, Answers, Rename, replaces, keeps, loses, Written, write_all, newline_behind, write_rows,
  Saved, is_there, finish_save, saved, save,
}

-- The text of the rows, with a newline behind the last one if `trailing_nl`.
abbrev pub text_of : (trailing_nl : Bool) → List Line → List ℕ
text_of trailing_nl [] = []
text_of trailing_nl (l ∷ ls) = l.string ++ (newline_behind trailing_nl ls ++ text_of trailing_nl ls)

-- All of it is written, or a call said no.
data Wrote (all : List ℕ) : Written → Type 0 where
  wrote :
      {ws bytes : List ℕ}
      → bytes ≡ all
      → Wrote all (record { writes = ws; bytes = bytes; ok = true })
  failed : {ws bytes : List ℕ} → Wrote all (record { writes = ws; bytes = bytes; ok = false })

nothing_left : (s : List ℕ) → (length s == 0) ≡ true → s ≡ []
nothing_left [] h = refl
nothing_left (c ∷ s) h = absurd (ground arith)

write_all-Wrote : (ws bytes new : List ℕ) → Wrote (bytes ++ new) (write_all ws bytes new)
unfolding write_all
write_all-Wrote [] bytes new = elim (Bool-cases (length new == 0)) [
  | inl f ↦ rw f (wrote (sym (ap (λ s. bytes ++ s) (nothing_left new f) ∙ append-nil bytes)))
  | inr f ↦ rw f failed
]
write_all-Wrote (w ∷ ws) bytes new = elim (Bool-cases (length new == 0)) [
  | inl f ↦ rw f (wrote (sym (ap (λ s. bytes ++ s) (nothing_left new f) ∙ append-nil bytes)))
  | inr f ↦ elim (Bool-cases (w == 0)) [
    | inl g ↦ rw (f, g) failed
    | inr g ↦
        let all : (bytes ++ take w new) ++ drop w new ≡ bytes ++ new =
          append_assoc bytes (take w new) (drop w new)
          ∙ ap (λ s. bytes ++ s) (take-append-drop w new) in
        rw (f, g)
          (subst (λ s. Wrote s (write_all ws (bytes ++ take w new) (drop w new))) all
            (write_all-Wrote ws (bytes ++ take w new) (drop w new)))
  ]
]

-- What is behind a row, once the row is written.
ended-Wrote :
    (all behind : List ℕ) (row : Written)
    → Wrote all row
    → Wrote (all ++ behind) (if row.ok then write_all row.writes row.bytes behind else row)
ended-Wrote all behind row failed = failed
ended-Wrote all behind row (wrote {ws} {bytes} same) =
    subst (λ s. Wrote (s ++ behind) (write_all ws bytes behind)) same
      (write_all-Wrote ws bytes behind)

-- From what was written on.
write_rows-Wrote :
    (t : Bool) (all : List ℕ) (w : Written) (ls : List Line)
    → Wrote all w
    → Wrote (all ++ text_of t ls) (write_rows t w ls)
unfolding write_rows
write_rows-Wrote t all w [] failed = failed
write_rows-Wrote t all w [] (wrote same) = wrote (same ∙ sym (append-nil all))
write_rows-Wrote t all w (l ∷ ls) failed = failed
write_rows-Wrote t all w (l ∷ ls) (wrote {ws} {bytes} same) =
    let s = l.string in
    let behind = newline_behind t ls in
    let row = write_all ws bytes s in
    let whole : ((all ++ s) ++ behind) ++ text_of t ls ≡ all ++ (s ++ (behind ++ text_of t ls)) =
      append_assoc (all ++ s) behind (text_of t ls) ∙ append_assoc all s (behind ++ text_of t ls) in
    let row_all : Wrote (all ++ s) row =
      subst (λ b. Wrote (b ++ s) row) same (write_all-Wrote ws bytes s) in
    (subst
      (λ b.
        Wrote b (write_rows t (if row.ok then write_all row.writes row.bytes behind else row) ls))
      whole
      (write_rows-Wrote t ((all ++ s) ++ behind)
        (if row.ok then write_all row.writes row.bytes behind else row) ls
        (ended-Wrote (all ++ s) behind row row_all)))

-- The outcomes of a save: nothing to save, the text in place of the file, the file as it was, or neither the
-- file nor, when it can be unlinked, the other one that has the text.
pub data Saves (a : Answers) (e : Editor) (d : Disk) : Saved → Type 0 where
  clean : e.dirty ≡ false → is_there d.file ≡ true → Saves a e d (saved d true)
  replaced :
      Saves a e d (saved (record { file = some (text_of e.trailing_nl e.lines); tmp = none }) true)
  untouched : {s : Saved} → s.ok ≡ false → s.disk.file ≡ d.file → Saves a e d s
  lost :
      a.renames ≡ loses
      → Saves a e d (
          saved
            (record {
              file = none;
              tmp = if a.unlinks then none else some (text_of e.trailing_nl e.lines);
            })
            false)

Saves-if :
    {a : Answers} {e : Editor} {d : Disk} (b : Bool) {x y : Saved}
    → Saves a e d x
    → Saves a e d y
    → Saves a e d (if b then x else y)
Saves-if true x y = x
Saves-if false x y = y

finish_save-Saves :
    (a : Answers) (e : Editor) (d d' : Disk) (w : Written)
    → d'.file ≡ d.file
    → Wrote (text_of e.trailing_nl e.lines) w
    → Saves a e d (finish_save a d' w)
finish_save-Saves a e d d' w same failed = untouched refl same
finish_save-Saves a e d d' w same (wrote {ws} {bytes} all) = go a.renames refl
  where
    go :
        (r : Rename)
        → a.renames ≡ r
        → Saves a e d (finish_save a d' (record { writes = ws; bytes = bytes; ok = true }))
    go replaces f = rw (f, all) replaced
    go keeps f = rw f (untouched refl same)
    go loses f = rw (f, all) (lost refl)

pub save-Saves : (a : Answers) (e : Editor) (d : Disk) → Saves a e d (save a e d)
unfolding save
save-Saves a e d = elim (Bool-cases (not e.dirty && is_there d.file)) [
  | inl f ↦ rw f (clean (ground arith) (ground arith))
  | inr f ↦ rw f (
      Saves-if (not a.room) (untouched refl refl) (
        Saves-if (not (is_there d.tmp) && not a.mkfile) (untouched refl refl) (
          Saves-if (not a.opens) (untouched refl refl) (
            Saves-if (not a.resizes) (untouched refl refl) (
              finish_save-Saves a e d (record d { tmp = some [] }) _ refl
                (write_rows-Wrote e.trailing_nl [] _ e.lines (wrote refl)))))))
]
