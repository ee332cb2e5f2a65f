-- ===== src/Pmm/Init/Ranges.antt =====
-- Marking a range of frames.
use panuti.Base.{
  ℕ, zero, suc, ◌+◌, ◌-◌, ◌/◌, ◌≡◌, refl, Bool, true, false, ◌&&◌, List, [], ◌∷◌, arith, ltb, leb,
  if◌then◌else◌, Bool-cases, inl, inr, ap,
}
use panuti.Pmm.{Pmm, page_size, clrp, setp}
use panuti.Pmm.Bits.{
  IsSized, is_free, setp-IsSized, clrp-IsSized, is_free-setp, is_free-clrp, bitmap_frames-setp,
  bitmap_frames-clrp,
}
use panuti.Pmm.Init.{
  Region, BootModule, usable, clamped_end, clrp_range, setp_range, page_up, free_region,
  free_regions, reserve, reserve_modules, u32,
}

-- `lo ≤ j < hi`
abbrev pub within : ℕ → ℕ → ℕ → Bool
within lo hi j = if leb lo j then ltb j hi else false

-- What marking did to an allocator: still sized, as many frames, and these frames changed.
pub record Marked (p q : Pmm) (touched : ℕ → Bool) (b : ℕ → Bool) : Type 0 where
  pub sized : IsSized q
  pub frames : q.bitmap_frames ≡ p.bitmap_frames
  pub bits : (j : ℕ) → is_free q j ≡ (if touched j then b j else is_free p j)

pub setp_range-Marked :
    (n page : ℕ) (p : Pmm)
    → IsSized p
    → Marked p (setp_range n page p) (within page (page + n)) (λ j. false)
unfolding setp_range
setp_range-Marked zero page p s = record { sized = s; frames = refl; bits = λ j. ground arith }
setp_range-Marked (suc n) page p s =
    let m = setp_range-Marked n (page + 1) (setp p page) (setp-IsSized p page s) in
    record {
      sized = m.sized;
      frames = ground (arith, m.frames, bitmap_frames-setp p page);
      bits = λ j. ground (arith, m.bits j, is_free-setp p page s j);
    }

pub clrp_range-Marked :
    (n page : ℕ) (p : Pmm)
    → IsSized p
    → Marked p (clrp_range n page p) (within page (page + n)) (λ j. ltb j p.bitmap_frames)
unfolding clrp_range
clrp_range-Marked zero page p s = record { sized = s; frames = refl; bits = λ j. ground arith }
clrp_range-Marked (suc n) page p s =
    let m = clrp_range-Marked n (page + 1) (clrp p page) (clrp-IsSized p page s) in
    record {
      sized = m.sized;
      frames = ground (arith, m.frames, bitmap_frames-clrp p page);
      bits = λ j. ground (arith, m.bits j, bitmap_frames-clrp p page, is_free-clrp p page s j);
    }

-- The frames from the one that holds `start` up to the one that holds `end - 1`.
abbrev pub covered : ℕ → ℕ → ℕ → Bool
covered start end = within (start / 4096) (u32 (end + 4095) / 4096)

pub reserve-Marked :
    (start end : ℕ) (p : Pmm)
    → IsSized p
    → Marked p (reserve start end p) (covered start end) (λ j. false)
unfolding reserve
reserve-Marked start end p s =
    let n : ℕ = u32 (end + 4095) / 4096 - start / 4096 in
    let m = setp_range-Marked n (start / 4096) p s in
    record { sized = m.sized; frames = m.frames; bits = λ j. ground (arith, m.bits j) }

abbrev pub in_modules : List BootModule → ℕ → Bool
in_modules [] j = false
in_modules (m ∷ ms) j = if covered m.mod_start m.mod_end j then true else in_modules ms j

pub reserve_modules-Marked :
    (ms : List BootModule) (p : Pmm)
    → IsSized p
    → Marked p (reserve_modules ms p) (in_modules ms) (λ j. false)
unfolding reserve_modules
reserve_modules-Marked [] p s = record { sized = s; frames = refl; bits = λ j. refl }
reserve_modules-Marked (b ∷ bs) p s =
    let one = reserve-Marked b.mod_start b.mod_end p s in
    let m = reserve_modules-Marked bs (reserve b.mod_start b.mod_end p) one.sized in
    record {
      sized = m.sized;
      frames = ground (arith, m.frames, one.frames);
      bits = λ j. ground (arith, m.bits j, one.bits j);
    }

-- The frames of a region, if that is available memory.
abbrev pub in_region : Region → ℕ → Bool
in_region r j = usable r && within (r.addr / page_size) (page_up (clamped_end r)) j

abbrev pub in_regions : List Region → ℕ → Bool
in_regions [] j = false
in_regions (r ∷ rs) j = if in_region r j then true else in_regions rs j

free_region-Marked :
    (r : Region) (p : Pmm)
    → IsSized p
    → Marked p (free_region r p) (in_region r) (λ j. ltb j p.bitmap_frames)
unfolding free_region
free_region-Marked r p s =
    let n : ℕ = page_up (clamped_end r) - r.addr / page_size in
    let m = clrp_range-Marked n (r.addr / page_size) p s in
    elim (Bool-cases (usable r)) [
      | inl u ↦
          rw u (record {
            sized = m.sized;
            frames = m.frames;
            bits = λ j. rw (m.bits j) (ground arith);
          })
      | inr u ↦ rw u (record { sized = s; frames = refl; bits = λ j. ground (arith, u) })
    ]

join_tests :
    (a b x y z c d : Bool)
    → z ≡ (if b then c else y)
    → y ≡ (if a then d else x)
    → c ≡ d
    → z ≡ (if (if a then true else b) then d else x)
join_tests a b x y z c d h k e = ground arith

pub free_regions-Marked :
    (rs : List Region) (p : Pmm)
    → IsSized p
    → Marked p (free_regions rs p) (in_regions rs) (λ j. ltb j p.bitmap_frames)
unfolding free_regions
free_regions-Marked [] p s = record { sized = s; frames = refl; bits = λ j. refl }
free_regions-Marked (r ∷ rs) p s =
    let one = free_region-Marked r p s in
    let m = free_regions-Marked rs (free_region r p) one.sized in
    record {
      sized = m.sized;
      frames = ground (arith, m.frames, one.frames);
      bits = λ j.
          join_tests (in_region r j) (in_regions rs j) _ _ _ _ _ (m.bits j) (one.bits j)
            (ap (λ f. ltb j f) one.frames);
    }
