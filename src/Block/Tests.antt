-- ===== src/Block/Tests.antt =====
-- A device of four blocks of four bytes.
use panuti.Base.{
  ℕ, ◌+◌, ◌*◌, ◌^◌, ◌≡◌, refl, ◌∙◌, ◌⊎◌, inr, Bool, true, false, List, [], ◌∷◌, none, some, arith,
  length, replicate,
}
use panuti.Base.Int.{pos, negsuc}
use panuti.Block.{
  slice, splice, Driver, first_block, num_blocks, returns, read_op, write_op, seek_op,
}
use panuti.Block.Bytes.{length-splice}
use panuti.Block.Read.{Stores, InsideOf, read_op-slice}
use panuti.Block.Write.{write_op-splice}
use panuti.Block.Seek.{seek_op-placed}

abbrev Disk : Type 0
Disk = (bytes : List ℕ) × (length bytes ≡ 16)

abbrev disk_bytes : Disk → List ℕ
disk_bytes d = d.0

abbrev ram : Driver Disk
ram = record {
  read = λ d block count. some (slice d.0 (block * 4) (count * 4));
  write = λ d block count new.
      ((splice d.0 (block * 4) new, length-splice d.0 (block * 4) new ∙ d.1), true);
  has_write = true;
  block_size = 4;
  block_count = 4;
}

-- 512 bytes by 2 ^ 23 blocks: 4 GiB.
abbrev big : Driver Disk
big = record ram { block_size = 512; block_count = 2 ^ 23 }

abbrev room : ℕ → Bool
room size = true

abbrev clean : Disk
clean = (replicate 16 0, refl)

abbrev hello : List ℕ
hello = 104 ∷ 101 ∷ 108 ∷ 108 ∷ 111 ∷ []

ram-Stores : Stores ram disk_bytes
ram-Stores = record {
  size = λ d. d.1;
  reads = λ d block count le. inr refl;
  writes = λ d block count new le size.
      inr ((splice d.0 (block * 4) new, length-splice d.0 (block * 4) new ∙ d.1), refl, refl);
}

hello-Inside : InsideOf ram 6 5
hello-Inside = record {
  some_size = omega arith;
  some_bytes = omega arith;
  ends = omega arith;
  small = omega arith;
}

write_hello :
    disk_bytes (write_op ram room clean 6 hello).device
    ≡ 0 ∷ 0 ∷ 0 ∷ 0 ∷ 0 ∷ 0 ∷ 104 ∷ 101 ∷ 108 ∷ 108 ∷ 111 ∷ 0 ∷ 0 ∷ 0 ∷ 0 ∷ 0 ∷ []
unfolding write_op
write_hello = refl

read_op-slice_example :
    (((room (num_blocks 4 6 5 * 4) ≡ false)
        ⊎ (ram.read clean (first_block 4 6) (num_blocks 4 6 5) ≡ none))
      × (read_op ram room clean 6 5 ≡ returns ram room clean 6 (pos 0)))
    ⊎ (read_op ram room clean 6 5 ≡ record {
      device = clean;
      offset = 6 + 5;
      bytes = slice (disk_bytes clean) 6 5;
      returned = pos 5;
    })
read_op-slice_example = read_op-slice ram disk_bytes room clean 6 5 ram-Stores hello-Inside

write_op-splice_example :
    (((room (num_blocks 4 6 5 * 4) ≡ false)
        ⊎ (ram.read clean (first_block 4 6) (num_blocks 4 6 5) ≡ none))
      × (write_op ram room clean 6 hello ≡ returns ram room clean 6 (pos 0)))
    ⊎ ((e : Disk) × (new : List ℕ) × (left : List ℕ) × (ram.write clean
            (first_block 4 6)
            (num_blocks 4 6 5)
            new
          ≡ (e, false))
        × (splice (disk_bytes clean) (first_block 4 6 * 4) new ≡ splice (disk_bytes clean) 6 hello)
        × (length left ≡ num_blocks 4 6 5 * 4)
        × (disk_bytes e ≡ splice (disk_bytes clean) (first_block 4 6 * 4) left)
        × (write_op ram room clean 6 hello ≡ returns ram room e 6 (pos 0)))
    ⊎ ((e : Disk) × (write_op ram room clean 6 hello
          ≡ record { device = e; offset = 6 + 5; bytes = []; returned = pos 5 })
        × (disk_bytes e ≡ splice (disk_bytes clean) 6 hello))
write_op-splice_example =
    write_op-splice ram disk_bytes room clean 6 hello ram-Stores hello-Inside refl

write_returns : (write_op ram room clean 6 hello).returned ≡ pos 5
unfolding write_op
write_returns = refl

read_returns : (read_op ram room (write_op ram room clean 6 hello).device 6 5).returned ≡ pos 5
unfolding write_op read_op
read_returns = refl

seek_op-placed_example : seek_op ram room 6 1 (negsuc 2) ≡ some 3
seek_op-placed_example =
    seek_op-placed ram room 6 1 (negsuc 2) (omega arith) (omega arith) (omega arith)
