-- ===== src/Libc.antt =====
-- Functions of the C library on memory, libc/string. Memory is a list of bytes, and a pointer is a place in it.
pub mod Moving
pub mod Comparing
mod Tests
use panuti.Base.{ℕ, zero, suc, ◌+◌, ◌%◌, List, set, get_or, ltb, if◌then◌else◌}
use panuti.Base.Int.{ℤ, pos, negsuc}

-- The byte of `src[i]` at `dst[i]`.
abbrev pub copy_byte : (mem : List ℕ) → (dst src i : ℕ) → List ℕ
copy_byte mem dst src i = set mem (dst + i) (get_or mem (src + i) 0)

-- The loop that goes up from `i`, with so many bytes to go.
unfoldable pub copy_up : (mem : List ℕ) → (dst src i left : ℕ) → List ℕ
copy_up mem dst src i zero = mem
copy_up mem dst src i (suc left) = copy_up (copy_byte mem dst src i) dst src (i + 1) left

-- The loop that goes down from `i`.
unfoldable pub copy_down : (mem : List ℕ) → (dst src i : ℕ) → List ℕ
copy_down mem dst src zero = mem
copy_down mem dst src (suc i) = copy_down (copy_byte mem dst src i) dst src i

-- `memmove`
unfoldable pub memmove : (mem : List ℕ) → (dst src size : ℕ) → List ℕ
memmove mem dst src size =
    if ltb dst src then copy_up mem dst src 0 size else copy_down mem dst src size

-- `memcpy`
abbrev pub memcpy : (mem : List ℕ) → (dst src size : ℕ) → List ℕ
memcpy mem dst src size = copy_up mem dst src 0 size

-- The loop of `memset` from `i`, with so many bytes to go.
unfoldable pub fill_up : (mem : List ℕ) → (buf value i left : ℕ) → List ℕ
fill_up mem buf value i zero = mem
fill_up mem buf value i (suc left) =
    fill_up (set mem (buf + i) (value % 256)) buf value (i + 1) left

-- `memset`
abbrev pub memset : (mem : List ℕ) → (buf value size : ℕ) → List ℕ
memset mem buf value size = fill_up mem buf value 0 size

-- The loop of `memcmp` from `i`, with so many bytes to go.
unfoldable pub compare_from : (mem : List ℕ) → (a b i left : ℕ) → ℤ
compare_from mem a b i zero = pos 0
compare_from mem a b i (suc left) =
    let rest = compare_from mem a b (i + 1) left in
    if ltb (get_or mem (a + i) 0) (get_or mem (b + i) 0)
    then negsuc 0
    else if ltb (get_or mem (b + i) 0) (get_or mem (a + i) 0)
    then pos 1
    else rest

-- `memcmp`
abbrev pub memcmp : (mem : List ℕ) → (a b size : ℕ) → ℤ
memcmp mem a b size = compare_from mem a b 0 size
