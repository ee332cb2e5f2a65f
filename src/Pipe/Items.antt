-- ===== src/Pipe/Items.antt =====
-- The bytes in a ring of `cap` places, by their distance from the oldest.
use panuti.Base.{
  ℕ, zero, suc, ◌+◌, ◌-◌, ◌%◌, ◌≤◌, ◌<◌, ◌≡◌, ◌≢◌, refl, ap, ap₂, ◌∙◌, List, [], ◌∷◌, ◌++◌, arith,
  length, get_or, set, get_or-set, ◌==◌, if◌then◌else◌, ltb, Bool-cases, inl, inr,
}
use native.Mathlib.Nat.{mod-eq_of_lt, mod-eq-sub-mod}

module _ {ℓ} {A : Type ℓ} where
  -- `f 0`, `f 1` and so on, `n` of them.
  unfoldable pub tabulate : ℕ → (ℕ → A) → List A
  tabulate zero f = []
  tabulate (suc n) f = f 0 ∷ tabulate n (λ k. f (suc k))

  pub length-tabulate : (n : ℕ) (f : ℕ → A) → length (tabulate n f) ≡ n
  unfolding tabulate
  length-tabulate zero f = refl
  length-tabulate (suc n) f = ap suc (length-tabulate n (λ k. f (suc k)))

  pub tabulate_ext :
      (n : ℕ) (f g : ℕ → A) → ((k : ℕ) → k < n → f k ≡ g k) → tabulate n f ≡ tabulate n g
  unfolding tabulate
  tabulate_ext zero f g h = refl
  tabulate_ext (suc n) f g h =
      ap₂ ◌∷◌ (h 0 (omega arith)) (tabulate_ext n _ _ (λ k lt. h (suc k) (omega arith)))

  pub tabulate-add :
      (n m : ℕ) (f : ℕ → A) → tabulate (n + m) f ≡ tabulate n f ++ tabulate m (λ k. f (n + k))
  unfolding tabulate
  tabulate-add zero m f =
      let e : 0 + m ≡ m = omega arith in rw e (tabulate_ext m _ _ (λ k lt. ap f (omega arith)))
  tabulate-add (suc n) m f =
      let e : suc n + m ≡ suc (n + m) = omega arith in
      rw e (
        ap (λ r. f 0 ∷ r)
          (tabulate-add n m (λ k. f (suc k))
            ∙ ap (λ r. tabulate n (λ k. f (suc k)) ++ r)
                (tabulate_ext m _ _ (λ k lt. ap f (omega arith)))))

-- The byte at distance `k` from the oldest, which is at `h`.
abbrev pub item : List ℕ → (cap h : ℕ) → ℕ → ℕ
item buf cap h k = get_or buf ((h + k) % cap) 0

pub wrap_once : (a cap : ℕ) → a < cap + cap → a % cap ≡ (if ltb a cap then a else a - cap)
wrap_once a cap h = elim (Bool-cases (ltb a cap)) [
  | inl below ↦ rw below (mod-eq_of_lt (ground arith))
  | inr past ↦
      rw past (mod-eq-sub-mod {n = a} {m = cap} (ground arith) ∙ mod-eq_of_lt (ground arith))
]

-- Two places less than a turn apart differ.
pub places_differ : (cap h k n : ℕ) → h < cap → k < n → n < cap → (h + n) % cap ≢ (h + k) % cap
places_differ cap h k n hh hk hn e =
    absurd
      (ground (arith, wrap_once (h + n) cap (omega arith), wrap_once (h + k) cap (omega arith)))

-- A byte written behind `n` others leaves those, and is the next one.
pub item-set :
    (buf : List ℕ) (cap h n x k : ℕ)
    → cap ≤ length buf
    → h < cap
    → n < cap
    → k ≤ n
    → item (set buf ((h + n) % cap) x) cap h k ≡ (if k == n then x else item buf cap h k)
item-set buf cap h n x k hb hh hn hk =
    let place : (h + n) % cap < length buf = omega arith in
    elim (Bool-cases (k == n)) [
      | inl e ↦
          let e' : k ≡ n = ground arith in
          rw (e', get_or-set buf ((h + n) % cap) ((h + n) % cap) x 0 place) (ground arith)
      | inr e ↦
          rw (get_or-set buf ((h + n) % cap) ((h + k) % cap) x 0 place)
            (ground (arith, places_differ cap h k n hh (ground arith) hn))
    ]
