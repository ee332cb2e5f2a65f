-- ===== src/Pipe/Raw.antt =====
-- `pipe_read_raw` and `pipe_write_raw` on the bytes that a pipe holds.
use panuti.Base.{
  ℕ, zero, suc, ◌+◌, ◌-◌, ◌%◌, ◌≤◌, ◌<◌, ◌≡◌, refl, ap, ap₂, ◌∙◌, sym, List, [], ◌∷◌, ◌++◌, arith,
  length, get_or, set, take, if◌then◌else◌, ltb, length-set, min, length-take,
}
use mathlib.Core.List.{append-nil, append_assoc}
use native.Mathlib.Nat.{mod-add-mod, mod-eq_of_lt}
use panuti.Pipe.{Pipe, read_loop, read_raw, write_loop, write_raw}
use panuti.Pipe.Items.{tabulate, length-tabulate, tabulate_ext, tabulate-add, item, item-set}

-- The ring is sound: the buffer has its places, and the tail is `count` places behind the head.
pub record IsValid (p : Pipe) : Type 0 where
  pub storage : p.capacity ≤ length p.buffer
  pub head_in : p.head < p.capacity
  pub count_in : p.count ≤ p.capacity
  pub tail_at : p.tail ≡ (p.head + p.count) % p.capacity

-- What a pipe holds, the oldest byte first.
abbrev pub contents : Pipe → List ℕ
contents p = tabulate p.count (item p.buffer p.capacity p.head)

-- A byte seen from a later head.
item_later :
    (buf : List ℕ) (cap h n k : ℕ) → item buf cap ((h + n) % cap) k ≡ item buf cap h (n + k)
item_later buf cap h n k =
    let e : h + n + k ≡ h + (n + k) = omega arith in
    ap (λ i. get_or buf i 0) (mod-add-mod (h + n) cap k ∙ ap (λ i. i % cap) e)

start_place : (h cap : ℕ) → h < cap → (h + 0) % cap ≡ h
start_place h cap lt = let e : h + 0 ≡ h = omega arith in rw e (mod-eq_of_lt lt)

read_loop_lem :
    (p : Pipe) (n h : ℕ)
    → h < p.capacity
    → ((read_loop p n h).0 ≡ tabulate n (item p.buffer p.capacity h))
      × ((read_loop p n h).1 ≡ (h + n) % p.capacity)
unfolding read_loop tabulate
read_loop_lem p zero h lt = (refl, sym (start_place h p.capacity lt))
read_loop_lem p (suc n) h lt =
    let (out, last) = read_loop_lem p n ((h + 1) % p.capacity) (omega arith) in
    (
      ap₂ ◌∷◌ (ap (λ i. get_or p.buffer i 0) (sym (start_place h p.capacity lt))) (
          out
          ∙ tabulate_ext n _ _ (λ k lt.
            item_later p.buffer p.capacity h 1 k ∙ ap (item p.buffer p.capacity h) (omega arith))),
      last ∙ mod-add-mod (h + 1) p.capacity n ∙ ap (λ i. i % p.capacity) (omega arith),
    )

-- The bytes that are read are the oldest ones, as many as are asked for and held; the pipe keeps the
-- others in their order, and stays sound.
pub read_raw_lem :
    (p : Pipe) (len : ℕ)
    → IsValid p
    → let (q, out) = read_raw p len in
      (out ++ contents q ≡ contents p) × (length out ≡ min len p.count) × IsValid q
unfolding read_raw
read_raw_lem p len v =
    taken (if ltb p.count len then p.count else len) (ground arith) (ground arith)
  where
    taken :
        (n : ℕ)
        → n ≤ p.count
        → n ≡ min len p.count
        → let q = record p { head = (read_loop p n p.head).1; count = p.count - n } in
          ((read_loop p n p.head).0 ++ contents q ≡ contents p)
          × (length (read_loop p n p.head).0 ≡ min len p.count)
          × IsValid q
    taken n le e =
        let (out, last) = read_loop_lem p n p.head v.head_in in
        (
          rw (out, last)
              (ap (λ r. tabulate n (item p.buffer p.capacity p.head) ++ r)
                  (tabulate_ext (p.count - n) _ _
                    (λ k lt. item_later p.buffer p.capacity p.head n k))
                ∙ sym (tabulate-add n (p.count - n) (item p.buffer p.capacity p.head))
                ∙ ap (λ m. tabulate m (item p.buffer p.capacity p.head)) (omega arith)),
          ap length out ∙ length-tabulate n (item p.buffer p.capacity p.head) ∙ e,
          record {
            storage = v.storage;
            head_in = rw last (omega (arith, v.head_in));
            count_in = omega (arith, v.count_in);
            tail_at = rw last (
                v.tail_at
                ∙ sym (
                    mod-add-mod (p.head + n) p.capacity (p.count - n)
                    ∙ ap (λ i. i % p.capacity) (omega arith)));
          },
        )

-- One byte, written `n` places behind the head.
write_one :
    (cap h x n : ℕ) (buf : List ℕ) (tail : ℕ)
    → cap ≤ length buf
    → h < cap
    → n < cap
    → tail ≡ (h + n) % cap
    → tabulate (n + 1) (item (set buf tail x) cap h) ≡ tabulate n (item buf cap h) ++ x ∷ []
unfolding tabulate
write_one cap h x n buf tail hb hh hn at = rw at (
    tabulate-add n 1 (item (set buf ((h + n) % cap) x) cap h)
    ∙ ap₂ ◌++◌
        (tabulate_ext n _ _
          (λ k lt. ground (arith, item-set buf cap h n x k hb hh hn (omega arith))))
        (ap (λ b. b ∷ [])
          (let e : n + 0 ≡ n = omega arith in
            rw e (ground (arith, item-set buf cap h n x n hb hh hn (omega arith))))))

-- The loop of a write, `n` places behind the head.
write_loop_lem :
    (cap h : ℕ) (xs : List ℕ) (n : ℕ) (buf : List ℕ) (tail : ℕ)
    → cap ≤ length buf
    → h < cap
    → n + length xs ≤ cap
    → tail ≡ (h + n) % cap
    → let (buf', tail') = write_loop cap xs buf tail in
      (tabulate (n + length xs) (item buf' cap h) ≡ tabulate n (item buf cap h) ++ xs)
      × (tail' ≡ (h + (n + length xs)) % cap)
      × (length buf' ≡ length buf)
unfolding write_loop
write_loop_lem cap h [] n buf tail hb hh room at =
    let e : n + 0 ≡ n = omega arith in (rw (e, append-nil), rw e at, refl)
write_loop_lem cap h (x ∷ xs) n buf tail hb hh room at =
    let size : length (set buf tail x) ≡ length buf = length-set buf tail x in
    let e : n + suc (length xs) ≡ n + 1 + length xs = omega arith in
    let shift : (tail + 1) % cap ≡ (h + (n + 1)) % cap =
      rw at (mod-add-mod (h + n) cap 1 ∙ ap (λ i. i % cap) (omega arith)) in
    let (bytes, last, len) =
      write_loop_lem cap h xs (n + 1) (set buf tail x) ((tail + 1) % cap) (omega arith) hh
        (omega arith) shift in
    (
      rw e (
          bytes
          ∙ ap (λ r. r ++ xs) (write_one cap h x n buf tail hb hh (omega arith) at)
          ∙ append_assoc (tabulate n (item buf cap h)) (x ∷ []) xs),
      rw e last,
      len ∙ size,
    )

-- A write takes as many of the bytes as there is room for, the first ones, and puts them behind
-- those that the pipe holds; the pipe stays sound.
pub write_raw_lem :
    (p : Pipe) (src : List ℕ)
    → IsValid p
    → let (q, n) = write_raw p src in
      (n ≡ min (p.capacity - p.count) (length src))
      × (contents q ≡ contents p ++ take n src)
      × IsValid q
unfolding write_raw
write_raw_lem p src v =
    put (if ltb (p.capacity - p.count) (length src) then p.capacity - p.count else length src)
      (ground arith)
  where
    put :
        (n : ℕ)
        → n ≡ min (p.capacity - p.count) (length src)
        → let (buffer, tail) = write_loop p.capacity (take n src) p.buffer p.tail in
          let q = record p { buffer = buffer; tail = tail; count = p.count + n } in
          (n ≡ min (p.capacity - p.count) (length src))
          × (contents q ≡ contents p ++ take n src)
          × IsValid q
    put n e =
        let size : length (take n src) ≡ n = omega (arith, length-take n src) in
        let (bytes, last, len) =
          write_loop_lem p.capacity p.head (take n src) p.count p.buffer p.tail v.storage v.head_in
            (omega (arith, v.count_in)) v.tail_at in
        (
          e,
          rw size at bytes,
          record {
            storage = omega (arith, v.storage);
            head_in = v.head_in;
            count_in = omega (arith, v.count_in);
            tail_at = last ∙ ap (λ m. (p.head + (p.count + m)) % p.capacity) size;
          },
        )
