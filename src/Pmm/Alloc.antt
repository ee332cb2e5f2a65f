-- ===== src/Pmm/Alloc.antt =====
-- `pmm_allocp` and `pmm_freep`: which frames they hand out and take back.
use panuti.Base.{
  ℕ, zero, suc, ◌+◌, ◌-◌, ◌*◌, ◌/◌, ◌%◌, ◌^◌, ◌≤◌, ◌<◌, ◌≡◌, refl, ◌⊎◌, inl, inr, true, false, List,
  none, some, arith, ◌==◌, if◌then◌else◌, ltb, Option-cases,
}
use panuti.Bitmap.{is_set}
use panuti.Pmm.{Pmm, find_free, take_page, pass, allocp, freep, page_size}
use panuti.Pmm.Bits.{
  IsSized, IsValid, is_free, setp-IsSized, clrp-IsSized, is_free-setp, is_free-clrp,
  bitmap_frames-setp, bitmap_frames-clrp,
}

find_free-some :
    (map : List ℕ) (n page : ℕ) {k : ℕ}
    → find_free map n page ≡ some k
    → (page ≤ k) × (k < page + n) × (is_set map k ≡ true)
unfolding find_free
find_free-some map zero page h = ground arith
find_free-some map (suc n) page {k} h = ground (arith, find_free-some map n (page + 1) {k = k})

find_free-none :
    (map : List ℕ) (n page j : ℕ)
    → find_free map n page ≡ none
    → page ≤ j
    → j < page + n
    → is_set map j ≡ false
unfolding find_free
find_free-none map zero page j h lo hi = absurd (omega arith)
find_free-none map (suc n) page j h lo hi = ground (arith, find_free-none map n (page + 1) j)

-- The call took this frame: it was free, its address is the result, and only its bit changed.
pub record Took (p q : Pmm) (result page : ℕ) : Type 0 where
  pub address : result ≡ page * page_size
  pub positive : 0 < page
  pub inside : page < p.bitmap_frames
  pub was_free : is_free p page ≡ true
  pub only : (j : ℕ) → is_free q j ≡ (if page == j then false else is_free p j)
  pub sized : IsSized q
  pub frames : q.bitmap_frames ≡ p.bitmap_frames

-- The call found nothing from `from` on, and changed the cursor alone.
pub record Failed (p q : Pmm) (result from : ℕ) : Type 0 where
  pub nothing : result ≡ 0
  pub unchanged : q ≡ record p { next_free_page = 0 }
  pub none_free : (j : ℕ) → from ≤ j → is_free p j ≡ false

moved-IsSized : (p : Pmm) (n : ℕ) → IsSized p → IsSized (record p { next_free_page = n })
moved-IsSized p n s = record { bytes = s.bytes; covers = s.covers; nameable = s.nameable }

take_page-Took :
    (p : Pmm) (page : ℕ)
    → IsValid p
    → page < p.bitmap_frames
    → is_set p.bitmap page ≡ true
    → 0 < page
    → Took p (take_page p page).0 (take_page p page).1 page
unfolding take_page
take_page-Took p page v inside free pos = record {
  address = omega (arith, v.sized.nameable);
  positive = pos;
  inside = inside;
  was_free = ground arith;
  only = λ j. is_free-setp (record p { next_free_page = _ }) page (moved-IsSized p _ v.sized) j;
  sized = setp-IsSized (record p { next_free_page = _ }) page (moved-IsSized p _ v.sized);
  frames = bitmap_frames-setp (record p { next_free_page = _ }) page;
}

-- Where the loop of a pass stops.
found_bounds :
    (p : Pmm) (page : ℕ)
    → IsValid p
    → find_free p.bitmap (p.bitmap_frames - p.next_free_page) p.next_free_page ≡ some page
    → (0 < page) × (page < p.bitmap_frames) × (is_set p.bitmap page ≡ true)
found_bounds p page v e =
    let (lo, hi, set) = find_free-some p.bitmap _ p.next_free_page e in
    (ground (arith, positive set), omega arith, set)
  where
    positive : is_set p.bitmap page ≡ true → 0 < page
    positive set = ground (arith, v.zero_used)

pass_lem :
    (p : Pmm)
    → IsValid p
    → ((page : ℕ) × Took p (pass p).0 (pass p).1 page)
      ⊎ Failed p (pass p).0 (pass p).1 p.next_free_page
unfolding pass
pass_lem p v =
    elim (Option-cases (find_free p.bitmap (p.bitmap_frames - p.next_free_page) p.next_free_page)) [
      | inl e ↦ rw e (
          inr (record {
            nothing = refl;
            unchanged = refl;
            none_free = λ j lo. ground (
              arith,
              find_free-none p.bitmap (p.bitmap_frames - p.next_free_page) p.next_free_page j,
            );
          }))
      | inr (page, e) ↦
          let (pos, inside, set) = found_bounds p page v e in
          let nonzero : (page * page_size % 2 ^ 32 == 0) ≡ false =
            ground (arith, v.sized.nameable) in
          rw (e, nonzero) (inl (page, take_page-Took p page v inside set pos))
    ]

reset-IsValid : (p : Pmm) → IsValid p → IsValid (record p { next_free_page = 0 })
reset-IsValid p v = record { sized = moved-IsSized p 0 v.sized; zero_used = v.zero_used }

-- `pmm_allocp` fails, returning 0, exactly when no frame is free, and then changes the cursor alone.
-- Otherwise it returns the address of a free frame other than frame 0, which it marks as used, and
-- leaves every other frame as it was.
pub allocp_lem :
    (p : Pmm)
    → IsValid p
    → ((page : ℕ) × Took p (allocp p).0 (allocp p).1 page) ⊎ Failed p (allocp p).0 (allocp p).1 0
unfolding allocp
allocp_lem p v = elim (pass_lem p v) [
  | inl (page, t) ↦
      let nonzero : ((pass p).1 == 0) ≡ false = ground (arith, t.address, t.positive) in
      rw nonzero (inl (page, t))
  | inr f ↦
      let zero_result : ((pass p).1 == 0) ≡ true = ground (arith, f.nothing) in
      rw (zero_result, f.unchanged)
        (again (pass_lem (record p { next_free_page = 0 }) (reset-IsValid p v)))
]
  where
    again :
        {q : Pmm} {r : ℕ}
        → ((page : ℕ) × Took (record p { next_free_page = 0 }) q r page)
          ⊎ Failed (record p { next_free_page = 0 }) q r 0
        → ((page : ℕ) × Took p q r page) ⊎ Failed p q r 0
    again (inl (page, t)) = inl (
      page,
      record {
        address = t.address;
        positive = t.positive;
        inside = t.inside;
        was_free = t.was_free;
        only = t.only;
        sized = t.sized;
        frames = t.frames;
      },
    )
    again (inr f) =
        inr (record { nothing = f.nothing; unchanged = f.unchanged; none_free = f.none_free })

-- What a call of `pmm_allocp` leaves is a valid allocator.
pub allocp-IsValid : (p : Pmm) → IsValid p → IsValid (allocp p).0
allocp-IsValid p v = elim (allocp_lem p v) [
  | inl (page, t) ↦ record {
    sized = t.sized;
    zero_used = ground (arith, v.zero_used, t.only 0, t.positive, t.inside, t.frames);
  }
  | inr f ↦ rw f.unchanged (reset-IsValid p v)
]

-- `pmm_freep` makes the frame of an address in range free, whichever byte of the frame the address
-- names, unless the address is 0; every other frame stays as it was, and an address out of range
-- changes nothing but the count of rejected calls.
pub is_free-freep :
    (p : Pmm) (address j : ℕ)
    → IsValid p
    → is_free (freep p address) j ≡ (
        if address == 0
        then is_free p j
        else if address / page_size == j
        then ltb j p.bitmap_frames
        else is_free p j)
unfolding freep
is_free-freep p address j v = ground (
  arith,
  is_free-clrp p (address / page_size) v.sized j,
  is_free-clrp (record p { next_free_page = address / page_size }) (address / page_size)
      (moved-IsSized p _ v.sized) j,
)

-- Freeing keeps the invariant, unless the address lies inside frame 0.
pub freep-IsValid :
    (p : Pmm) (address : ℕ)
    → (address ≡ 0) ⊎ (page_size ≤ address)
    → IsValid p
    → IsValid (freep p address)
unfolding freep
freep-IsValid p address h v = record {
  sized = ground (
    arith,
    v.sized,
    clrp-IsSized p (address / page_size) v.sized,
    clrp-IsSized (record p { next_free_page = address / page_size }) (address / page_size)
        (moved-IsSized p _ v.sized),
  );
  zero_used = ground (
    arith,
    v.zero_used,
    is_free-clrp p (address / page_size) v.sized 0,
    bitmap_frames-clrp p (address / page_size),
    is_free-clrp (record p { next_free_page = address / page_size }) (address / page_size)
        (moved-IsSized p _ v.sized) 0,
    bitmap_frames-clrp (record p { next_free_page = address / page_size }) (address / page_size),
  );
}
