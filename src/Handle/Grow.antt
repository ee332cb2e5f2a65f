-- ===== src/Handle/Grow.antt =====
-- `fdtable_grow`: the larger table holds what the old one held.
use panuti.Base.{
  ℕ, zero, suc, ◌+◌, ◌-◌, ◌/◌, ◌≤◌, ◌<◌, ◌≡◌, refl, List, [], ◌∷◌, ◌++◌, arith, length, get_or,
  take, replicate, length-append, length-replicate, get_or-replicate, ◌∙◌, subst,
}
use panuti.Bitmap.{is_set, IsBytes, replicate-IsBytes, is_set_of_ge}
use panuti.Handle.{FdTable, zeroed, max_handles, bytes_for, grown_cap, enlarged}
use panuti.Handle.Slots.{IsValid, is_open}

module _ {ℓ} {A : Type ℓ} where
  take_all : (xs : List A) → take (length xs) xs ≡ xs
  take_all [] = refl
  take_all (x ∷ xs) = λ i. x ∷ take_all xs i

  get_or-append_right :
      (xs ys : List A) (i : ℕ) (d : A)
      → length xs ≤ i
      → get_or (xs ++ ys) i d ≡ get_or ys (i - length xs) d
  get_or-append_right [] ys i d h = let e : i - 0 ≡ i = omega arith in rw e
  get_or-append_right (x ∷ xs) ys zero d h = absurd (omega arith)
  get_or-append_right (x ∷ xs) ys (suc i) d h =
      let e : suc i - suc (length xs) ≡ i - length xs = omega arith in
      rw e (get_or-append_right xs ys i d (omega arith))

  -- Padding with the default changes no read.
  get_or-pad : (xs : List A) (n i : ℕ) (d : A) → get_or (xs ++ replicate n d) i d ≡ get_or xs i d
  get_or-pad [] n i d = get_or-replicate n i d
  get_or-pad (x ∷ xs) n zero d = refl
  get_or-pad (x ∷ xs) n (suc i) d = get_or-pad xs n i d

append-IsBytes : (xs ys : List ℕ) → IsBytes xs → IsBytes ys → IsBytes (xs ++ ys)
append-IsBytes [] ys h k = k
append-IsBytes (x ∷ xs) ys h k = (h.0, append-IsBytes xs ys h.1 k)

-- A larger table holds what the old one held, and free slots behind.
pub record Grown (t u : FdTable) : Type 0 where
  pub valid : IsValid u
  pub larger : t.cap < u.cap
  pub same_open : (j : ℕ) → is_open u j ≡ is_open t j
  pub same_handle : (j : ℕ) → get_or u.table j zeroed ≡ get_or t.table j zeroed

module _ (t : FdTable) (v : IsValid t) (room : t.cap < max_handles) where
  kept_openb : take (bytes_for t.cap) t.openb ≡ t.openb
  kept_openb = rw (← v.openb_length) (take_all t.openb)

  kept_table : take t.cap t.table ≡ t.table
  kept_table = subst (λ n. take n t.table ≡ t.table) v.table_length (take_all t.table)

  grows : (t.cap ≤ grown_cap t.cap) × (bytes_for t.cap ≤ bytes_for (grown_cap t.cap))
  grows = ground arith

  lengths :
      {a b : ℕ}
      → a ≡ bytes_for t.cap
      → b ≡ bytes_for (grown_cap t.cap) - bytes_for t.cap
      → a + b ≡ bytes_for (grown_cap t.cap)
  lengths e f = omega (arith, grows.1)

  lengths_table : {a b : ℕ} → a ≡ t.cap → b ≡ grown_cap t.cap - t.cap → a + b ≡ grown_cap t.cap
  lengths_table e f = omega (arith, grows.0)

  -- The old bitmap ends with its last byte full of slots, and the new bytes are zero.
  padded_open : (n j : ℕ) → is_set (t.openb ++ replicate n 0) j ≡ is_set t.openb j
  unfolding is_set
  padded_open n j = rw (get_or-pad t.openb n (j / 8) 0)

  pub enlarged-Grown : Grown t (enlarged t)
  enlarged-Grown = record {
    valid = record {
      bytes = rw kept_openb (append-IsBytes t.openb _ v.bytes (replicate-IsBytes _));
      openb_length = rw kept_openb (
          length-append t.openb
            (replicate {A = ℕ} (bytes_for (grown_cap t.cap) - bytes_for t.cap) 0)
          ∙ lengths v.openb_length
              (length-replicate {A = ℕ} (bytes_for (grown_cap t.cap) - bytes_for t.cap) 0));
      table_length = rw kept_table (
          length-append t.table (replicate (grown_cap t.cap - t.cap) zeroed)
          ∙ lengths_table v.table_length (length-replicate (grown_cap t.cap - t.cap) zeroed));
      bounded = ground arith;
      whole_bytes = ground (arith, v.whole_bytes);
    };
    larger = ground arith;
    same_open = λ j.
        rw (kept_openb, padded_open _ j)
          (ground (arith, grows.0, v.openb_length, v.whole_bytes, is_set_of_ge t.openb j));
    same_handle = λ j. rw kept_table (get_or-pad t.table _ j zeroed);
  }
