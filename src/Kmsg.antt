-- ===== src/Kmsg.antt =====
-- The ring of kernel messages, kernel/kernel/log/kmsg.c. The static variables of the file are a record;
-- a handle of a reader is another.
pub mod Ring
pub mod Reading
pub mod Oldest
mod Tests
use panuti.Base.{
  ℕ, zero, suc, ◌+◌, ◌-◌, ◌*◌, ◌/◌, ◌%◌, ◌^◌, Bool, true, false, ◌&&◌, ◌||◌, List, [], ◌∷◌, ◌++◌,
  Option, none, some, set, take, get_or, length, ◌==◌, ltb, leb, if◌then◌else◌,
}

abbrev pub buffer_size : ℕ
buffer_size = 8192

abbrev pub tag : ℕ
tag = 1

abbrev pub header_len : ℕ
header_len = 4

abbrev pub label_len : ℕ
label_len = 7

abbrev pub max_record : ℕ
max_record = 65535

pub record Kmsg : Type 0 where
  pub buffer : List ℕ
  pub head : ℕ
  pub tail : ℕ

-- `kmsg_push_byte`: the oldest byte gives way.
unfoldable pub push_byte : Kmsg → ℕ → Kmsg
push_byte k c =
    let next = (k.head + 1) % buffer_size in
    record k {
      buffer = set k.buffer k.head c;
      head = next;
      tail = if next == k.tail then (k.tail + 1) % buffer_size else k.tail;
    }

unfoldable pub push_bytes : List ℕ → Kmsg → Kmsg
push_bytes [] k = k
push_bytes (c ∷ cs) k = push_bytes cs (push_byte k c)

-- KLOG_INFO is 0 and KLOG_WARN 1; any other level is taken for 0.
abbrev pub known_level : ℕ → ℕ
known_level level = if level == 1 then 1 else 0

abbrev pub header : (level len : ℕ) → List ℕ
header level len = tag ∷ level ∷ len % 256 ∷ len / 256 % 256 ∷ []

-- `kmsg_push`
unfoldable pub push : Kmsg → (level : ℕ) → List ℕ → Kmsg
push k level bytes =
    let len = if ltb max_record (length bytes) then max_record else length bytes in
    push_bytes (header (known_level level) len ++ take len bytes) k

abbrev pub ahead : ℕ → ℕ
ahead cursor = (cursor + 1) % buffer_size

-- The bytes from the cursor to the head.
abbrev pub distance : (head cursor : ℕ) → ℕ
distance head cursor = (head + buffer_size - cursor) % buffer_size

abbrev pub not_tag : Kmsg → ℕ → Bool
not_tag k cursor = if get_or k.buffer cursor 0 == tag then false else true

-- `kmsg_resync`; the loop makes at most one round per byte.
unfoldable pub resync_loop : ℕ → Kmsg → ℕ → Option ℕ
resync_loop zero k cursor = none
resync_loop (suc fuel) k cursor =
    let further = resync_loop fuel k (ahead cursor) in
    if cursor == k.head
    then some cursor
    else if not_tag k cursor
    then further
    else if ltb (distance k.head cursor) header_len
    then some cursor
    else if leb (get_or k.buffer (ahead cursor) 0) 1
    then some cursor
    else further

-- `kmsg_stream_t`, with `none` for the level -1.
pub record Stream : Type 0 where
  pub level : Option ℕ
  pub labeled : Bool

-- What a read does: the bytes it copies, and the new cursor and `pending` of its handle.
pub record Progress : Type 0 where
  pub out : List ℕ
  pub cursor : ℕ
  pub pending : ℕ

-- The next `n` bytes.
unfoldable pub copy : Kmsg → (n cursor : ℕ) → List ℕ
copy k zero cursor = []
copy k (suc n) cursor = get_or k.buffer cursor 0 ∷ copy k n (ahead cursor)

abbrev pub jump : (cursor n : ℕ) → ℕ
jump cursor n = (cursor + n) % buffer_size

abbrev pub byte_at : Kmsg → (cursor n : ℕ) → ℕ
byte_at k cursor n = get_or k.buffer (jump cursor n) 0

abbrev pub body_len : Kmsg → ℕ → ℕ
body_len k cursor = byte_at k cursor 2 + 256 * byte_at k cursor 3

abbrev pub keeps : Option ℕ → ℕ → Bool
keeps none level = true
keeps (some l) level = l == level

abbrev pub not_kept : Stream → ℕ → Bool
not_kept s level = if keeps s.level level then false else true

-- "[WARN] " or "[INFO] ".
abbrev pub label : ℕ → List ℕ
label level =
    if level == 1
    then 91 ∷ 87 ∷ 65 ∷ 82 ∷ 78 ∷ 93 ∷ 32 ∷ []
    else 91 ∷ 73 ∷ 78 ∷ 70 ∷ 79 ∷ 93 ∷ 32 ∷ []

abbrev pub stop : List ℕ → (cursor pending : ℕ) → Option Progress
stop out cursor pending = some (record { out = out; cursor = cursor; pending = pending })

abbrev pub behind : List ℕ → Option Progress → Option Progress
behind out none = none
behind out (some r) = some (record r { out = out ++ r.out })

-- The second loop of `kmsg_read`, with room for `room` bytes; `none` is out of fuel.
unfoldable pub records : ℕ → Kmsg → Stream → (room cursor : ℕ) → Option Progress
records zero k s room cursor = none
records (suc fuel) k s room cursor =
    let stray =
      behind (get_or k.buffer cursor 0 ∷ []) (records fuel k s (room - 1) (ahead cursor)) in
    let level = known_level (byte_at k cursor 1) in
    let len = body_len k cursor in
    let body = jump cursor header_len in
    let skipped = records fuel k s room (jump body len) in
    let heading = if s.labeled then label level else [] in
    let left = if s.labeled then room - label_len else room in
    let whole =
      behind (heading ++ copy k len body) (records fuel k s (left - len) (jump body len)) in
    if (cursor == k.head) || (room == 0)
    then stop [] cursor 0
    else if not_tag k cursor
    then stray
    else if ltb (distance k.head cursor) header_len
    then stop [] cursor 0
    else if ltb (distance k.head body) len
    then stop [] body 0
    else if not_kept s level
    then skipped
    else if s.labeled && ltb room label_len
    then stop [] cursor 0
    else if ltb left len
    then stop (heading ++ copy k left body) (jump body left) (len - left)
    else whole

-- `kmsg_read` from a handle with its cursor and `pending`, into `len` bytes.
abbrev pub read_from : ℕ → Kmsg → Stream → (pending len cursor : ℕ) → Option Progress
read_from fuel k s pending len cursor =
    let n = if ltb len pending then len else pending in
    let rest = records fuel k s (len - n) (jump cursor n) in
    if ltb n pending
    then stop (copy k n cursor) (jump cursor n) (pending - n)
    else behind (copy k n cursor) rest

abbrev pub resynced : ℕ → Kmsg → Stream → (len : ℕ) → Option ℕ → Option Progress
resynced fuel k s len none = none
resynced fuel k s len (some cursor) = read_from fuel k s 0 len cursor

unfoldable pub read : ℕ → Kmsg → Stream → (cursor pending len : ℕ) → Option Progress
read fuel k s cursor pending len =
    let again = resynced fuel k s len (resync_loop fuel k k.tail) in
    if ltb cursor k.tail || ltb k.head cursor then again else read_from fuel k s pending len cursor

-- `kmsg_open`, with the place of the new handle, or `none` for the error; the inner result is `none` out
-- of fuel.
abbrev placed : Option ℕ → Option Progress
placed none = none
placed (some cursor) = stop [] cursor 0

unfoldable pub open_handle : ℕ → Kmsg → (has_memory : Bool) → Option (Option Progress)
open_handle fuel k has_memory =
    if has_memory then some (placed (resync_loop fuel k k.tail)) else none

-- The streams of `kmsg_init`.
abbrev pub all_stream : Stream
all_stream = record { level = none; labeled = true }

abbrev pub log_stream : Stream
log_stream = record { level = some 0; labeled = false }

abbrev pub warn_stream : Stream
warn_stream = record { level = some 1; labeled = false }
