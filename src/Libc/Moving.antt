-- ===== src/Libc/Moving.antt =====
-- Moves of memory whose two parts may overlap.
use panuti.Base.{
  ℕ, zero, suc, ◌+◌, ◌-◌, ◌≤◌, ◌<◌, ◌≡◌, ap, ◌∙◌, inl, inr, ◌&&◌, List, arith, length, get_or,
  length-set, get_or-set, ltb, leb, ◌==◌, if◌then◌else◌, Bool-cases,
}
use panuti.Libc.{copy_byte, copy_up, copy_down, memmove}

-- What the byte at `j` is when those from `lo` to `hi` behind `dst` are copied.
abbrev pub moved_byte : (mem : List ℕ) → (dst src lo hi j : ℕ) → ℕ
moved_byte mem dst src lo hi j =
    if leb (dst + lo) j && ltb j (dst + hi) then get_or mem (src + (j - dst)) 0 else get_or mem j 0

copy_up_lem :
    (mem : List ℕ) (dst src i left j : ℕ)
    → dst < src
    → src + (i + left) ≤ length mem
    → get_or (copy_up mem dst src i left) j 0 ≡ moved_byte mem dst src i (i + left) j
unfolding copy_up
copy_up_lem mem dst src i zero j lt le = ground arith
copy_up_lem mem dst src i (suc left) j lt le =
    let mem' = copy_byte mem dst src i in
    let v = get_or mem (src + i) 0 in
    let len = length-set mem (dst + i) v in
    let later = copy_up_lem mem' dst src (i + 1) left j lt (omega (arith, len)) in
    let at_j = get_or-set mem (dst + i) j v 0 (omega arith) in
    let at_src = get_or-set mem (dst + i) (src + (j - dst)) v 0 (omega arith) in
    let here : j ≡ dst + i → get_or mem (src + (j - dst)) 0 ≡ v =
      λ h. ap (λ k. get_or mem k 0) (omega arith) in
    elim (Bool-cases (dst + i == j)) [
      | inl e ↦ later ∙ ground (arith, at_j, here (ground arith))
      | inr e ↦ later ∙ ground (arith, at_j, at_src)
    ]

copy_down_lem :
    (mem : List ℕ) (dst src i j : ℕ)
    → src ≤ dst
    → dst + i ≤ length mem
    → get_or (copy_down mem dst src i) j 0 ≡ moved_byte mem dst src 0 i j
unfolding copy_down
copy_down_lem mem dst src zero j le le' = ground arith
copy_down_lem mem dst src (suc i) j le le' =
    let mem' = copy_byte mem dst src i in
    let v = get_or mem (src + i) 0 in
    let len = length-set mem (dst + i) v in
    let later = copy_down_lem mem' dst src i j le (omega (arith, len)) in
    let at_j = get_or-set mem (dst + i) j v 0 (omega arith) in
    let at_src = get_or-set mem (dst + i) (src + (j - dst)) v 0 (omega arith) in
    let here : j ≡ dst + i → get_or mem (src + (j - dst)) 0 ≡ v =
      λ h. ap (λ k. get_or mem k 0) (omega arith) in
    elim (Bool-cases (dst + i == j)) [
      | inl e ↦ later ∙ ground (arith, at_j, here (ground arith))
      | inr e ↦ later ∙ ground (arith, at_j, at_src)
    ]

-- When both parts are in the memory, `memmove` is a copy of the bytes as they were before, whether the parts overlap or
-- not, and leaves the other bytes.
pub memmove_lem :
    (mem : List ℕ) (dst src size j : ℕ)
    → src + size ≤ length mem
    → dst + size ≤ length mem
    → get_or (memmove mem dst src size) j 0
      ≡ (if leb dst j && ltb j (dst + size) then get_or mem (src + (j - dst)) 0 else get_or mem j 0)
unfolding memmove
memmove_lem mem dst src size j le le' =
    let start : dst + 0 ≡ dst = omega arith in
    let end : 0 + size ≡ size = omega arith in
    let from_start : moved_byte mem dst src 0 size j ≡ (
        if leb dst j && ltb j (dst + size)
        then get_or mem (src + (j - dst)) 0
        else get_or mem j 0) =
      ap
        (λ k.
          if leb k j && ltb j (dst + size) then get_or mem (src + (j - dst)) 0 else get_or mem j 0)
        start in
    elim (Bool-cases (ltb dst src)) [
      | inl e ↦ rw e (
          copy_up_lem mem dst src 0 size j (ground arith) (omega arith)
          ∙ ap (λ n. moved_byte mem dst src 0 n j) end
          ∙ from_start)
      | inr e ↦ rw e (copy_down_lem mem dst src size j (ground arith) (omega arith) ∙ from_start)
    ]
