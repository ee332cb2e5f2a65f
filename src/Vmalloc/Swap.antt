-- ===== src/Vmalloc/Swap.antt =====
-- Removing an entry by putting the last one in its place.
use panuti.Base.{
  ℕ, zero, suc, ◌-◌, ◌<◌, ◌≡◌, refl, List, [], ◌∷◌, arith, length, get_or, set, take, length-set,
  length-take, get_or-set, ◌==◌, if◌then◌else◌,
}
use panuti.Vmalloc.{FreeRange, blank, swap_remove}

get_or-take :
    (n : ℕ) (xs : List FreeRange) (k : ℕ) → k < n → get_or (take n xs) k blank ≡ get_or xs k blank
get_or-take zero xs k h = elim h [ ]
get_or-take (suc n) [] k h = refl
get_or-take (suc n) (x ∷ xs) zero h = refl
get_or-take (suc n) (x ∷ xs) (suc k) h = get_or-take n xs k (omega arith)

pub length-swap_remove : (xs : List FreeRange) (i : ℕ) → length (swap_remove xs i) ≡ length xs - 1
unfolding swap_remove
length-swap_remove xs i =
    let last = get_or xs (length xs - 1) blank in
    omega (arith, length-take (length xs - 1) (set xs i last), length-set xs i last)

pub get_or-swap_remove :
    (xs : List FreeRange) (i k : ℕ)
    → i < length xs
    → k < length xs - 1
    → get_or (swap_remove xs i) k blank
      ≡ (if i == k then get_or xs (length xs - 1) blank else get_or xs k blank)
unfolding swap_remove
get_or-swap_remove xs i k hi hk =
    let last = get_or xs (length xs - 1) blank in
    ground
      (arith, get_or-take (length xs - 1) (set xs i last) k hk, get_or-set xs i k last blank hi)
