-- ===== src/Kmsg/Reading.antt =====
-- The reads of the ring end, and keep to the room that they have.
use panuti.Base.{
  ℕ, zero, suc, ◌+◌, ◌-◌, ◌≤◌, ◌<◌, ◌≡◌, refl, ap, Bool, true, false, ◌&&◌, ◌||◌, List, [], ◌∷◌,
  ◌++◌, Option, none, some, arith, length, length-append, get_or, ltb, leb, ◌==◌, if◌then◌else◌,
}
use panuti.Kmsg.{
  Kmsg, Stream, Progress, buffer_size, header_len, label_len, copy, jump, ahead, distance, byte_at,
  body_len, known_level, label, stop, behind, records, resync_loop, not_tag, not_kept, read_from,
  resynced, read,
}

-- A run that ended, with at most `room` bytes.
abbrev pub Ended : ℕ → Option Progress → Type 0
Ended room o = (r : Progress) × (o ≡ some r) × (length r.out ≤ room)

length-copy : (k : Kmsg) (n cursor : ℕ) → length (copy k n cursor) ≡ n
unfolding copy
length-copy k zero cursor = refl
length-copy k (suc n) cursor = omega (arith, length-copy k n (ahead cursor))

length-label : (level : ℕ) → length (label level) ≡ label_len
length-label level = ground arith

pub distance-jump :
    (head cursor n : ℕ)
    → head < buffer_size
    → cursor < buffer_size
    → n ≤ distance head cursor
    → distance head (jump cursor n) ≡ distance head cursor - n
distance-jump head cursor n hh hc le = omega arith

Ended-if :
    (room : ℕ) (b : Bool) (x y : Option Progress)
    → (b ≡ true → Ended room x)
    → (b ≡ false → Ended room y)
    → Ended room (if b then x else y)
Ended-if room true x y p q = p refl
Ended-if room false x y p q = q refl

Ended-behind :
    (room left : ℕ) (out : List ℕ) (o : Option Progress)
    → Ended left o
    → length out + left ≤ room
    → Ended room (behind out o)
Ended-behind room left out o e le =
    let (r, found, short) = e in
    (record r { out = out ++ r.out }, ap (behind out) found, omega (arith, length-append out r.out))

Ended-stop :
    (room : ℕ) (out : List ℕ) (cursor pending : ℕ)
    → length out ≤ room
    → Ended room (stop out cursor pending)
Ended-stop room out cursor pending le =
    (record { out = out; cursor = cursor; pending = pending }, refl, le)

headroom :
    (labeled : Bool) (level room : ℕ)
    → (labeled && ltb room label_len) ≡ false
    → length (if labeled then label level else []) + (if labeled then room - label_len else room)
      ≤ room
headroom true level room h = ground (arith, length-label level)
headroom false level room h = omega arith

-- The cursor behind a whole record.
past :
    (head cursor len fuel : ℕ)
    → head < buffer_size
    → cursor < buffer_size
    → distance head cursor < suc fuel
    → header_len ≤ distance head cursor
    → len ≤ distance head (jump cursor header_len)
    → distance head (jump (jump cursor header_len) len) < fuel
past head cursor len fuel hh hc enough headed le = omega (
  arith,
  distance-jump head cursor header_len hh hc headed,
  distance-jump head (jump cursor header_len) len hh (omega arith) le,
)

-- Take a head and a cursor in the buffer. The loop over the records ends if its fuel is more than the number of
-- bytes from the cursor to the head, and it copies no more bytes than there is room for.
pub records-Ended :
    (fuel : ℕ) (k : Kmsg) (s : Stream) (room cursor : ℕ)
    → k.head < buffer_size
    → cursor < buffer_size
    → distance k.head cursor < fuel
    → Ended room (records fuel k s room cursor)
unfolding records
records-Ended zero k s room cursor hh hc enough = absurd (omega arith)
records-Ended (suc fuel) k s room cursor hh hc enough =
    let level = known_level (byte_at k cursor 1) in
    let len = body_len k cursor in
    let body = jump cursor header_len in
    let heading = if s.labeled then label level else [] in
    let left = if s.labeled then room - label_len else room in
    Ended-if room ((cursor == k.head) || (room == 0)) _ _
      (λ h. Ended-stop room [] cursor 0 (omega arith))
      (λ more.
        let away : 0 < distance k.head cursor = ground (arith, hh, hc) in
        let some_room : 0 < room = ground arith in
        Ended-if room (not_tag k cursor) _ _
          (λ h.
            Ended-behind room (room - 1) (get_or k.buffer cursor 0 ∷ [])
              (records fuel k s (room - 1) (ahead cursor))
              (records-Ended fuel k s (room - 1) (ahead cursor) hh (omega arith)
                (omega (arith, distance-jump k.head cursor 1 hh hc)))
              (omega arith))
          (λ h.
            Ended-if room (ltb (distance k.head cursor) header_len) _ _
              (λ h. Ended-stop room [] cursor 0 (omega arith))
              (λ headed.
                Ended-if room (ltb (distance k.head body) len) _ _
                  (λ h. Ended-stop room [] body 0 (omega arith))
                  (λ complete.
                    Ended-if room (not_kept s level) _ _
                      (λ h.
                        records-Ended fuel k s room (jump body len) hh (omega arith)
                          (past k.head cursor len fuel hh hc enough (ground arith) (ground arith)))
                      (λ h.
                        Ended-if room (s.labeled && ltb room label_len) _ _
                          (λ h. Ended-stop room [] cursor 0 (omega arith))
                          (λ labels.
                            Ended-if room (ltb left len) _ _
                              (λ part.
                                Ended-stop room (heading ++ copy k left body) (jump body left)
                                  (len - left)
                                  (omega (
                                    arith,
                                    length-append heading (copy k left body),
                                    length-copy k left body,
                                    headroom s.labeled level room labels,
                                  )))
                              (λ all.
                                Ended-behind room (left - len) (heading ++ copy k len body)
                                  (records fuel k s (left - len) (jump body len))
                                  (records-Ended fuel k s (left - len) (jump body len) hh
                                    (omega arith)
                                    (past k.head cursor len fuel hh hc enough (ground arith)
                                      (ground arith)))
                                  (ground (
                                    arith,
                                    length-append heading (copy k len body),
                                    length-copy k len body,
                                    headroom s.labeled level room labels,
                                  )))))))))

Resynced : Option ℕ → Type 0
Resynced o = (c : ℕ) × (o ≡ some c) × (c < buffer_size)

Resynced-if :
    (b : Bool) (x y : Option ℕ)
    → (b ≡ true → Resynced x)
    → (b ≡ false → Resynced y)
    → Resynced (if b then x else y)
Resynced-if true x y p q = p refl
Resynced-if false x y p q = q refl

resync_loop-Resynced :
    (fuel : ℕ) (k : Kmsg) (cursor : ℕ)
    → k.head < buffer_size
    → cursor < buffer_size
    → distance k.head cursor < fuel
    → Resynced (resync_loop fuel k cursor)
unfolding resync_loop Resynced
resync_loop-Resynced zero k cursor hh hc enough = absurd (omega arith)
resync_loop-Resynced (suc fuel) k cursor hh hc enough =
    Resynced-if (cursor == k.head) _ _ (λ h. (cursor, refl, hc))
      (λ more.
        let away : 0 < distance k.head cursor = ground (arith, hh, hc) in
        let further : Resynced (resync_loop fuel k (ahead cursor)) =
          resync_loop-Resynced fuel k (ahead cursor) hh (omega arith)
            (omega (arith, distance-jump k.head cursor 1 hh hc)) in
        Resynced-if (not_tag k cursor) _ _ (λ h. further)
          (λ h.
            Resynced-if (ltb (distance k.head cursor) header_len) _ _ (λ h. (cursor, refl, hc))
              (λ h.
                Resynced-if (leb (get_or k.buffer (ahead cursor) 0) 1) _ _ (λ h. (cursor, refl, hc))
                  (λ h. further))))

read_from-Ended :
    (fuel : ℕ) (k : Kmsg) (s : Stream) (pending len cursor : ℕ)
    → k.head < buffer_size
    → buffer_size ≤ fuel
    → Ended len (read_from fuel k s pending len cursor)
read_from-Ended fuel k s pending len cursor hh enough =
    let n = if ltb len pending then len else pending in
    let within : n ≤ len = ground arith in
    Ended-if len (ltb n pending) _ _
      (λ h.
        Ended-stop len (copy k n cursor) (jump cursor n) (pending - n)
          (omega (arith, length-copy k n cursor)))
      (λ h.
        Ended-behind len (len - n) (copy k n cursor) (records fuel k s (len - n) (jump cursor n))
          (records-Ended fuel k s (len - n) (jump cursor n) hh (omega arith) (omega arith))
          (omega (arith, length-copy k n cursor)))

-- Let the head and the tail be in the buffer. A read ends, from whatever cursor, with at most `len` bytes copied: fuel
-- for 8192 rounds, one per byte of the ring, is enough.
pub read-Ended :
    (fuel : ℕ) (k : Kmsg) (s : Stream) (cursor pending len : ℕ)
    → k.head < buffer_size
    → k.tail < buffer_size
    → buffer_size ≤ fuel
    → Ended len (read fuel k s cursor pending len)
unfolding read Resynced
read-Ended fuel k s cursor pending len hh ht enough =
    Ended-if len (ltb cursor k.tail || ltb k.head cursor) _ _
      (λ h.
        again (resync_loop fuel k k.tail) (resync_loop-Resynced fuel k k.tail hh ht (omega arith)))
      (λ h. read_from-Ended fuel k s pending len cursor hh enough)
  where
    again : (o : Option ℕ) → Resynced o → Ended len (resynced fuel k s len o)
    again none r = let (c, e, h) = r in cc
    again (some c) r = read_from-Ended fuel k s 0 len c hh enough
