-- ===== src/Kmsg/Tests.antt =====
-- An empty ring just before the end of its buffer.
use panuti.Base.{true, none, ◌≡◌, refl, ◌+◌, ◌-◌, ◌<◌, ℕ, arith, min, replicate}
use panuti.Kmsg.{Kmsg, Stream, buffer_size, push_byte, read, read_from}
use panuti.Kmsg.Reading.{Ended, read-Ended}
use panuti.Kmsg.Oldest.{FirstFrom, wrapped_rereads}
use panuti.Kmsg.Ring.{IsValid, count, newest, push_byte_lem}

abbrev empty : Kmsg
empty = record { buffer = replicate 8192 0; head = 8191; tail = 8191 }

empty-IsValid : IsValid empty
empty-IsValid = record { buffer_length = refl; head_in = omega arith; tail_in = omega arith }

push_byte_lem_example :
    IsValid (push_byte empty 7)
    × (count (push_byte empty 7) ≡ min (buffer_size - 1) (count empty + 1))
    × (newest (push_byte empty 7) 0 ≡ 7)
    × ((j : ℕ)
        → j + 1 < count (push_byte empty 7)
        → newest (push_byte empty 7) (j + 1) ≡ newest empty j)
push_byte_lem_example = push_byte_lem empty 7 empty-IsValid

abbrev all : Stream
all = record { level = none; labeled = true }

abbrev wrapped : Kmsg
wrapped = record { buffer = replicate 8192 0; head = 5; tail = 6 }

read-Ended_example : Ended 80 (read 9000 wrapped all 0 3 80)
read-Ended_example = read-Ended 9000 wrapped all 0 3 80 (omega arith) (omega arith) (omega arith)

wrapped_rereads_example :
    (oldest : ℕ) × FirstFrom wrapped 6 oldest
    × ((cursor pending : ℕ)
        → read 9000 wrapped all cursor pending 80 ≡ read_from 9000 wrapped all 0 80 oldest)
wrapped_rereads_example =
    wrapped_rereads 9000 wrapped all 80 (omega arith) (omega arith) (omega arith)
