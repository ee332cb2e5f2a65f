-- ===== src/Slab/Owner.antt =====
-- Clients of one slab: the objects they hold, while they ask for objects and free addresses in any order.
use panuti.Base.{
  ℕ, ◌+◌, ◌%◌, ◌^◌, ◌≤◌, ◌<◌, ◌≡◌, refl, sym, ap, subst, ◌∙◌, inl, inr, false, List, [], ◌∷◌, arith,
  ◌==◌, if◌then◌else◌, Bool-cases,
}
use panuti.Slab.{
  Slab, u32, page_size, fresh, capacity_of, slab_obj, is_full, take_object, put_object, free_in,
}
use panuti.Slab.Chain.{is_in, IsSlab, not_full, take_object-IsSlab}
use panuti.Slab.Create.{from, fresh-IsSlab}
use panuti.Slab.Objects.{InPage, index_of, index-slab_obj, slab_obj-page, free_in-cases}

-- A request of kmalloc that this slab serves, and a kfree of an address that does not start a page: one that
-- does is a range of vmalloc, and `kfree_inner` does not look for a slab.
pub data Request : Type 0 where
  get : Request
  give : (ptr : ℕ) → Request

abbrev pub NoPages : List Request → Type 0
NoPages [] = Unit {0}
NoPages (get ∷ rs) = NoPages rs
NoPages (give ptr ∷ rs) = (0 < u32 ptr % page_size) × NoPages rs

pub record Clients : Type 0 where
  pub slab : Slab
  pub held : List ℕ

abbrev pub without : ℕ → List ℕ → List ℕ
without p [] = []
without p (q ∷ qs) = let rest = without p qs in if q == p then rest else q ∷ rest

abbrev pub serve : Clients → Request → Clients
serve c get =
    if is_full c.slab
    then c
    else record { slab = take_object c.slab; held = slab_obj c.slab c.slab.free ∷ c.held }
serve c (give ptr) = record { slab = free_in c.slab (u32 ptr); held = without (u32 ptr) c.held }

abbrev pub serve_all : Clients → List Request → Clients
serve_all c [] = c
serve_all c (r ∷ rs) = serve_all (serve c r) rs

-- After the requests on a new slab.
abbrev pub after : (page obj_size : ℕ) → List Request → Clients
after page obj_size rs = serve_all (record { slab = fresh page obj_size; held = [] }) rs

-- Each address held is an object that is not on the list.
abbrev AllUsed : Slab → List ℕ → List ℕ → Type 0
AllUsed s is [] = Unit {0}
AllUsed s is (q ∷ qs) =
    (q ≡ slab_obj s (index_of s q))
    × (index_of s q < s.capacity)
    × (is_in (index_of s q) is ≡ false)
    × AllUsed s is qs

record IsOwned (c : Clients) (is : List ℕ) : Type 0 where
  slab_ok : IsSlab c.slab is
  page_ok : InPage c.slab
  used_ok : AllUsed c.slab is c.held

-- The places of a slab's objects do not change.
take-AllUsed :
    (s : Slab) (i : ℕ) (is qs : List ℕ) → AllUsed s (i ∷ is) qs → AllUsed (take_object s) is qs
unfolding take_object
take-AllUsed s i is [] h = tt
take-AllUsed s i is (q ∷ qs) h =
    let later : is_in (index_of s q) is ≡ false = ground (arith, h.2) in
    (h.0, h.1, later, take-AllUsed s i is qs h.3)

without-AllUsed :
    (s : Slab) (is : List ℕ) (p : ℕ) (qs : List ℕ) → AllUsed s is qs → AllUsed s is (without p qs)
without-AllUsed s is p [] h = tt
without-AllUsed s is p (q ∷ qs) h = elim (Bool-cases (q == p)) [
  | inl same ↦ rw same (without-AllUsed s is p qs h.3)
  | inr other ↦ rw other ((h.0, h.1, h.2, without-AllUsed s is p qs h.3))
]

put-AllUsed :
    (s : Slab) (is : List ℕ) (p : ℕ) (qs : List ℕ)
    → slab_obj s (index_of s p) ≡ p
    → AllUsed s is qs
    → AllUsed (put_object s (index_of s p)) (index_of s p ∷ is) (without p qs)
unfolding put_object
put-AllUsed s is p [] same h = tt
put-AllUsed s is p (q ∷ qs) same h =
    let rest = put-AllUsed s is p qs same h.3 in
    elim (Bool-cases (q == p)) [
      | inl e ↦ rw e rest
      | inr other ↦
          let apart : (index_of s p == index_of s q) ≡ false =
            elim (Bool-cases (index_of s p == index_of s q)) [
              | inl twins ↦
                  let one : index_of s p ≡ index_of s q = ground arith in
                  let equal : q ≡ p = h.0 ∙ ap (slab_obj s) (sym one) ∙ same in
                  absurd (ground (arith, equal))
              | inr apart ↦ apart
            ] in
          rw other ((h.0, h.1, rw apart (h.2), rest))
    ]

get-IsOwned : (c : Clients) (is : List ℕ) → IsOwned c is → (js : List ℕ) × IsOwned (serve c get) js
unfolding take_object
get-IsOwned c is h = elim (Bool-cases (is_full c.slab)) [
  | inl full ↦ (is, rw full h)
  | inr room ↦
      let (js, same, slab_ok) = not_full c.slab is h.slab_ok room in
      let lt : c.slab.free < c.slab.capacity = omega (arith, slab_ok.linked.1, slab_ok.sized) in
      let index = index-slab_obj c.slab h.page_ok c.slab.free lt in
      let old : AllUsed c.slab (c.slab.free ∷ js) c.held =
        subst (λ l. AllUsed c.slab l c.held) same h.used_ok in
      (
        js,
        rw room (record {
          slab_ok = take_object-IsSlab c.slab c.slab.free js slab_ok;
          page_ok = record {
            some_size = h.page_ok.some_size;
            filled = h.page_ok.filled;
            below = h.page_ok.below;
          };
          used_ok = (
            ap (slab_obj c.slab) (sym index),
            omega (arith, lt, index),
            subst (λ n. is_in n js ≡ false) (sym index) (slab_ok.linked.2),
            take-AllUsed c.slab c.slab.free js c.held old,
          );
        }),
      )
]

give-IsOwned :
    (c : Clients) (is : List ℕ) (ptr : ℕ)
    → IsOwned c is
    → (js : List ℕ) × IsOwned (serve c (give ptr)) js
unfolding put_object
give-IsOwned c is ptr h =
    let p = u32 ptr in
    elim (free_in-cases c.slab h.page_ok is p h.slab_ok (omega arith)) [
      | inl (same, none_used) ↦ (
        is,
        rw same (record {
          slab_ok = h.slab_ok;
          page_ok = h.page_ok;
          used_ok = without-AllUsed c.slab is p c.held h.used_ok;
        }),
      )
      | inr (lt, out, object, same, slab_ok) ↦ (
        index_of c.slab p ∷ is,
        rw same (record {
          slab_ok = slab_ok;
          page_ok = record {
            some_size = h.page_ok.some_size;
            filled = h.page_ok.filled;
            below = h.page_ok.below;
          };
          used_ok = put-AllUsed c.slab is p c.held object h.used_ok;
        }),
      )
    ]

serve_all-IsOwned :
    (rs : List Request) (c : Clients) (is : List ℕ)
    → IsOwned c is
    → (js : List ℕ) × IsOwned (serve_all c rs) js
serve_all-IsOwned [] c is h = (is, h)
serve_all-IsOwned (get ∷ rs) c is h =
    let (js, next) = get-IsOwned c is h in serve_all-IsOwned rs (serve c get) js next
serve_all-IsOwned (give ptr ∷ rs) c is h =
    let (js, next) = give-IsOwned c is ptr h in serve_all-IsOwned rs (serve c (give ptr)) js next

serve-base : (c : Clients) (r : Request) → (serve c r).slab.base ≡ c.slab.base
unfolding take_object free_in put_object
serve-base c get = ground arith
serve-base c (give ptr) = ground arith

serve_all-base : (rs : List Request) (c : Clients) → (serve_all c rs).slab.base ≡ c.slab.base
serve_all-base [] c = refl
serve_all-base (r ∷ rs) c = serve_all-base rs (serve c r) ∙ serve-base c r

free_unheld :
    (s : Slab) (js qs : List ℕ) (page : InPage s)
    → s.free < s.capacity
    → AllUsed s (s.free ∷ js) qs
    → is_in (slab_obj s s.free) qs ≡ false
free_unheld s js [] page lt h = refl
free_unheld s js (q ∷ qs) page lt h =
    let index = index-slab_obj s page s.free lt in
    let other : (q == slab_obj s s.free) ≡ false = elim (Bool-cases (q == slab_obj s s.free)) [
      | inl e ↦
          let same : q ≡ slab_obj s s.free = ground arith in
          let first : s.free ≡ index_of s q = sym index ∙ ap (index_of s) (sym same) in
          absurd (ground (arith, h.2, first))
      | inr e ↦ e
    ] in
    rw other (free_unheld s js qs page lt h.3)

-- No history of allocations and of frees makes a slab hand out an object that a client still holds, whatever
-- addresses are freed, objects or not and as often as one likes, as long as none of them starts a page: after
-- every such sequence of requests on a new slab the next object, if there is one, is not held. It lies in the
-- slab, and does not start a page itself, so that it can be freed.
pub get_unheld :
    (page obj_size : ℕ) (rs : List Request)
    → 0 < obj_size
    → 0 < capacity_of obj_size
    → page + page_size ≤ 2 ^ 32
    → page % page_size ≡ 0
    → NoPages rs
    → is_full (after page obj_size rs).slab ≡ false
    → ((after page obj_size rs).slab.free < (after page obj_size rs).slab.capacity)
      × (is_in
            (slab_obj (after page obj_size rs).slab (after page obj_size rs).slab.free)
            (after page obj_size rs).held
          ≡ false)
      × (0 < slab_obj (after page obj_size rs).slab (after page obj_size rs).slab.free % page_size)
get_unheld page obj_size rs some_size some_object below aligned no_pages room =
    let c = after page obj_size rs in
    let start : IsOwned (record { slab = fresh page obj_size; held = [] })
        (from 0 (capacity_of obj_size)) =
      record {
        slab_ok = fresh-IsSlab page obj_size some_object;
        page_ok = record { some_size = some_size; filled = refl; below = below };
        used_ok = tt;
      } in
    let (is, h) =
      serve_all-IsOwned rs (record { slab = fresh page obj_size; held = [] })
        (from 0 (capacity_of obj_size)) start in
    let (js, same, slab_ok) = not_full c.slab is h.slab_ok room in
    let lt : c.slab.free < c.slab.capacity = omega (arith, slab_ok.linked.1, slab_ok.sized) in
    (
      lt,
      free_unheld c.slab js c.held h.page_ok lt
          (subst (λ l. AllUsed c.slab l c.held) same h.used_ok),
      (slab_obj-page c.slab h.page_ok c.slab.free lt (
          ap (λ b. b % page_size)
            (serve_all-base rs (record { slab = fresh page obj_size; held = [] }))
          ∙ aligned)).0,
    )
