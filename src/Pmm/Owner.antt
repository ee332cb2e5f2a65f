-- ===== src/Pmm/Owner.antt =====
-- Clients of the frame allocator: as long as frames are given back only by who holds them, a frame
-- that is still held is never handed out again.
use panuti.Base.{
  ℕ, ◌*◌, ◌/◌, ◌%◌, ◌<◌, ◌≡◌, refl, ◌≢◌, inl, inr, Bool, true, false, arith, ◌==◌, if◌then◌else◌,
}
use panuti.Pmm.{Pmm, allocp, freep, page_size}
use panuti.Pmm.Bits.{IsValid, is_free}
use panuti.Pmm.Alloc.{Took, allocp_lem, allocp-IsValid, is_free-freep, freep-IsValid}

-- Which frames some client holds.
abbrev pub Held : Type 0
Held = ℕ → Bool

abbrev pub with_frame : Held → ℕ → Bool → Held
with_frame held page b j = if page == j then b else held j

-- One call: an allocation that succeeds, one that fails, or the return of a held frame.
pub data Call (p : Pmm) (held : Held) : Pmm → Held → Type 0 where
  granted :
      (allocp p).1 ≢ 0 → Call p held (allocp p).0 (with_frame held ((allocp p).1 / page_size) true)
  refused : (allocp p).1 ≡ 0 → Call p held (allocp p).0 held
  returned :
      (page : ℕ)
      → held page ≡ true
      → Call p held (freep p (page * page_size)) (with_frame held page false)

pub data Calls (p : Pmm) (held : Held) : Pmm → Held → Type 0 where
  start : Calls p held p held
  next :
      {q : Pmm} {h : Held} {r : Pmm} {k : Held} → Calls p held q h → Call q h r k → Calls p held r k

pub record Inv (p : Pmm) (held : Held) : Type 0 where
  pub valid : IsValid p
  pub zero_unheld : held 0 ≡ false
  pub held_used : (j : ℕ) → held j ≡ true → is_free p j ≡ false

Call-Inv :
    {p : Pmm} {held : Held} {q : Pmm} {held' : Held}
    → Call p held q held'
    → Inv p held
    → Inv q held'
Call-Inv {p} {held} (granted nonzero) inv = elim (allocp_lem p inv.valid) [
  | inl (page, t) ↦ record {
    valid = allocp-IsValid p inv.valid;
    zero_unheld = ground (arith, t.address, t.positive, inv.zero_unheld);
    held_used = λ j h. ground (arith, t.address, t.only j, inv.held_used j);
  }
  | inr f ↦ absurd (nonzero f.nothing)
]
Call-Inv {p} {held} (refused zero_result) inv = elim (allocp_lem p inv.valid) [
  | inl (page, t) ↦ absurd (omega (arith, t.address, t.positive))
  | inr f ↦ record {
    valid = allocp-IsValid p inv.valid;
    zero_unheld = inv.zero_unheld;
    held_used = λ j h. ground (arith, f.none_free j, f.unchanged);
  }
]
Call-Inv {p} {held} (returned page h) inv = record {
  valid = freep-IsValid p (page * page_size) (inr (ground (arith, inv.zero_unheld))) inv.valid;
  zero_unheld = ground (arith, inv.zero_unheld);
  held_used =
      λ j hj. ground (arith, is_free-freep p (page * page_size) j inv.valid, inv.held_used j);
}

Calls-Inv :
    {p : Pmm} {held : Held} {q : Pmm} {held' : Held}
    → Calls p held q held'
    → Inv p held
    → Inv q held'
Calls-Inv start inv = inv
Calls-Inv (next before call) inv = Call-Inv call (Calls-Inv before inv)

-- Start with a valid allocator and no frame held, and let clients allocate, and free frames that
-- they hold, in any order. Whenever `pmm_allocp` then returns an address other than 0, that is the
-- address of a whole frame of the bitmap, and nobody holds the frame.
pub granted_unheld :
    {p q : Pmm} {held : Held}
    → IsValid p
    → Calls p (λ j. false) q held
    → (allocp q).1 ≢ 0
    → ((allocp q).1 % page_size ≡ 0)
      × ((allocp q).1 < q.bitmap_frames * page_size)
      × (held ((allocp q).1 / page_size) ≡ false)
granted_unheld {q} {held} valid calls nonzero =
    let inv : Inv q held =
      Calls-Inv calls (record { valid = valid; zero_unheld = refl; held_used = λ j h. cc }) in
    elim (allocp_lem q inv.valid) [
      | inl (page, t) ↦ granted_facts page t (inv.held_used page)
      | inr f ↦ absurd (nonzero f.nothing)
    ]
  where
    granted_facts :
        (page : ℕ)
        → Took q (allocp q).0 (allocp q).1 page
        → (held page ≡ true → is_free q page ≡ false)
        → ((allocp q).1 % page_size ≡ 0)
          × ((allocp q).1 < q.bitmap_frames * page_size)
          × (held ((allocp q).1 / page_size) ≡ false)
    granted_facts page t used = (
      omega (arith, t.address),
      omega (arith, t.address, t.inside),
      ground (arith, t.address, t.was_free),
    )
