-- ===== src/Mailbox/Tests.antt =====
-- Runs of the mailbox calls on a small buffer.
use hero_tools.Prelude.{◌-◌, ◌%◌, ◌≡◌, refl, [], ◌∷◌, arith, some}
use hero_tools.Prelude.Int.{ℤ}
use hero_tools.Prelude.Memory.{Mem, View}
use hero_tools.Ring.{RingBuf}
use hero_tools.Ring.Traffic.{Traffic, start, IsMapped}
use hero_tools.Mailbox.{Schedule, hero_dev_mbox_read, hero_dev_mbox_write}
use hero_tools.Mailbox.Frame.{IsMailbox, IsWord}
use hero_tools.Mailbox.Read.{IsBuffer, ReadySchedule, ReadWords}
use hero_tools.Mailbox.Returns.{Busy, hero_dev_mbox_read_total}
use hero_tools.Mailbox.Write.{ReadyServing, WroteWord, hero_dev_mbox_write_total}

-- The device reaches the memory by its own addresses, the host 4000 above.
abbrev host : View
host x = x - 4000

abbrev device : View
device x = x

abbrev memory : Mem
memory x = x % 251

-- Four words of four bytes from the cell 200 on.
abbrev ring : RingBuf
ring = record { head = 0; size = 4; tail = 0; element_size = 4; data_v = 4200; data_p = 200 }

ring-IsMapped : IsMapped host device 200 ring
ring-IsMapped = record {
  valid = record {
    head_in = omega arith;
    tail_in = omega arith;
    size_in = omega arith;
    array_in = omega arith;
  };
  by_host = λ i small. omega arith;
  by_device = λ i small. refl;
}

abbrev traffic : Traffic
traffic = start ring memory

traffic-IsMailbox : IsMailbox host device 200 4 traffic
traffic-IsMailbox = record {
  in_order = record { mapped = ring-IsMapped; order = refl };
  words = refl;
  slots = refl;
}

-- The device puts a word before each of two polls.
abbrev putting : Schedule
putting = (600 ∷ []) ∷ (604 ∷ []) ∷ []

putting-ReadySchedule : ReadySchedule host device 200 4 putting
putting-ReadySchedule = ((λ i j hi hj. omega arith, tt), ((λ i j hi hj. omega arith, tt), tt))

putting-Busy : Busy putting
putting-Busy = (omega arith, (omega arith, tt))

el_4700-IsBuffer : IsBuffer host device 200 4 4700 700 2
el_4700-IsBuffer = record { own = λ i hi. omega arith; apart = λ i j hi hj. omega arith }

hero_dev_mbox_read_total_example :
    (out : ℤ × Traffic) × (hero_dev_mbox_read host device 4700 2 putting traffic ≡ some out)
    × ReadWords host device 200 4 4700 700 2 traffic out
hero_dev_mbox_read_total_example =
    hero_dev_mbox_read_total host device 200 4 (omega arith) 4700 700 2 putting traffic
      el_4700-IsBuffer traffic-IsMailbox putting-ReadySchedule putting-Busy (omega arith)

el_4720-IsWord : IsWord host 200 4 4720 720
el_4720-IsWord = record { apart = λ i j hi hj. omega arith; own = λ i hi. omega arith }

-- The device gets a word before the poll.
abbrev getting : Schedule
getting = (800 ∷ []) ∷ []

getting-ReadyServing : ReadyServing host device 200 4 4720 720 getting
getting-ReadyServing = (
  (
    (
      800,
      record { apart = λ i j hi hj. omega arith; own = λ i hi. refl },
      λ i j hi hj. omega arith,
    ),
    tt,
  ),
  tt,
)

hero_dev_mbox_write_total_example :
    (out : ℤ × Traffic) × (hero_dev_mbox_write host device 4720 getting traffic ≡ some out)
    × WroteWord host device 200 4 4720 720 traffic out
hero_dev_mbox_write_total_example =
    hero_dev_mbox_write_total host device 200 4 4720 720 el_4720-IsWord (omega arith) (800 ∷ []) []
      traffic traffic-IsMailbox getting-ReadyServing (omega arith)
