-- ===== src/Ring/Tests.antt =====
-- Runs of ringbuf.h on a small buffer.
use hero_tools.Prelude.{◌-◌, ◌%◌, ◌<◌, ◌≡◌, refl, List, [], ◌∷◌, ◌++◌, arith, length}
use hero_tools.Prelude.Memory.{Mem, View, bytes}
use hero_tools.Ring.{RingBuf, rb_init}
use hero_tools.Ring.Queue
use hero_tools.Ring.Contents.{contents}
use hero_tools.Ring.Refine.{got}
use hero_tools.Ring.Traffic.{
  to_host, Event, put, get, start, send, receive, run, IsMapped, AllReady,
}
use hero_tools.Ring.Traffic.Order.{send_refines, receive_refines, run_fifo}

-- The device reaches the memory by its own addresses, the host 4000 above.
abbrev host : View
host x = x - 4000

abbrev device : View
device x = x

abbrev memory : Mem
memory x = x % 251

-- Four words of four bytes from the cell 200 on.
abbrev ring : RingBuf
ring = record { head = 0; size = 4; tail = 0; element_size = 4; data_v = 4200; data_p = 200 }

ring-IsMapped : IsMapped host device 200 ring
ring-IsMapped = record {
  valid = record {
    head_in = omega arith;
    tail_in = omega arith;
    size_in = omega arith;
    array_in = omega arith;
  };
  by_host = λ i small. omega arith;
  by_device = λ i small. refl;
}

init-IsMapped : IsMapped host device 200 (rb_init ring 4 4)
unfolding rb_init
init-IsMapped = ring-IsMapped

-- The device puts two words, and the host gets one of them.
abbrev events : List Event
events = put 600 ∷ put 604 ∷ get 4700 ∷ []

events-AllReady : AllReady host device to_host 200 4 16 events
events-AllReady = (
  λ i j hi hj. omega arith,
  (λ i j hi hj. omega arith, ((λ i j hi hj. omega arith, (700, λ i hi. omega arith)), tt)),
)

run_fifo_example :
    let t = run host device to_host (start (rb_init ring 4 4) memory) events in
    (t.sent ≡ t.received ++ contents 200 t.rb t.mem) × (length (contents 200 t.rb t.mem) < 4)
run_fifo_example =
    run_fifo host device 200 to_host ring 4 4 memory events (omega arith) init-IsMapped
      events-AllReady

send_refines_example :
    let (r, rb', m') = send host device to_host ring 600 memory in
    (r, contents 200 rb' m') ≡ Queue.push 3 (contents 200 ring memory) (bytes device memory 600 4)
send_refines_example =
    send_refines host device 200 to_host ring 600 memory ring-IsMapped (λ i j hi hj. omega arith)

receive_refines_example :
    let (r, rb', m') = receive host device to_host ring 4700 memory in
    (r, got r (bytes host m' 4700 4), contents 200 rb' m') ≡ Queue.pop (contents 200 ring memory)
receive_refines_example =
    receive_refines host device 200 to_host ring 4700 700 memory ring-IsMapped
      (λ i j hi hj. omega arith) (λ i hi. omega arith)
