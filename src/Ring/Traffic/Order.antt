-- ===== src/Ring/Traffic/Order.antt =====
-- The mailboxes of ringbuf.h lose, repeat and reorder nothing.
use hero_tools.Prelude.{
  ℕ, ◌+◌, ◌-◌, ◌*◌, ◌%◌, ◌<◌, ◌≡◌, ◌≢◌, refl, sym, ap, ◌∙◌, List, [], ◌∷◌, ◌++◌, arith,
  if◌then◌else◌, length,
}
use native.Mathlib.Nat.{mod_self}
use mathlib.Core.List.{append_assoc}
use hero_tools.Prelude.Int.{ℤ, is_nonzero}
use hero_tools.Prelude.Memory.{Mem, View, bytes}
use hero_tools.Ring.{
  RingBuf, put_at, get_at, rb_init, rb_device_put, rb_host_get, rb_host_put, rb_device_get,
}
use hero_tools.Ring.Copy.{MapsTo, Apart}
use hero_tools.Ring.Queue
use hero_tools.Ring.Contents.{IsValid, window, slot, contents, length-contents, count_lt}
use hero_tools.Ring.Refine.{put_at_refines, get_at_refines, put_at-frame, get_at-frame, got}
use hero_tools.Ring.Traffic.{
  Direction, to_host, to_device, Event, put, get, Traffic, start, send, receive, sender, receiver,
  step, run, IsMapped, IsReady, AllReady, InOrder,
}

-- What no call changes.
pub record Kept (rb rb' : RingBuf) : Type 0 where
  pub es : rb'.element_size ≡ rb.element_size
  pub size : rb'.size ≡ rb.size
  pub data_v : rb'.data_v ≡ rb.data_v
  pub data_p : rb'.data_p ≡ rb.data_p
  pub valid : IsValid rb → IsValid rb'

pub put_at-Kept :
    (v : View) (base : ℕ) (rb : RingBuf) (el : ℕ) (m : Mem) → Kept rb (put_at v base rb el m).1
unfolding put_at
put_at-Kept v base rb el m = ground arith

pub get_at-Kept :
    (v : View) (base : ℕ) (rb : RingBuf) (el : ℕ) (m : Mem) → Kept rb (get_at v base rb el m).1
unfolding get_at
get_at-Kept v base rb el m = ground arith

-- A push and a pop keep "put so far is got so far, then what the queue holds".
push_order :
    (room : ℕ) (q : List (List ℕ)) (x : List ℕ) {r : ℤ} {q' sent : List (List ℕ)}
    (received : List (List ℕ))
    → (r, q') ≡ Queue.push room q x
    → sent ≡ received ++ q
    → (if is_nonzero r then sent else sent ++ (x ∷ [])) ≡ received ++ q'
unfolding Queue.push
push_order room q x received e o = ground (arith, append_assoc received q (x ∷ []))

pop_order :
    (q : List (List ℕ)) {r : ℤ} (x : List ℕ) {q' sent : List (List ℕ)} (received : List (List ℕ))
    → (r, got r x, q') ≡ Queue.pop q
    → sent ≡ received ++ q
    → sent ≡ (if is_nonzero r then received else received ++ (x ∷ [])) ++ q'
unfolding Queue.pop
pop_order [] x received e o = ground arith
pop_order (y ∷ q) x received e o = ground (arith, append_assoc received (y ∷ []) q)

start_empty :
    {A : Type 0} (size : ℕ) (cell : ℕ → A)
    → 0 < size
    → window size cell 0 ((0 + size - 0) % size) ≡ []
start_empty size cell h =
    let none_left : (0 + size - 0) % size ≡ 0 =
      (ap (λ n. n % size) (omega arith) ∙ mod_self size) in
    rw none_left

module _ (host device : View) where
  module _ (cells : ℕ) where
    IsMapped-Kept :
        (rb rb' : RingBuf)
        → Kept rb rb'
        → IsMapped host device cells rb
        → IsMapped host device cells rb'
    IsMapped-Kept rb rb' k v = record {
      valid = k.valid v.valid;
      by_host = rw (k.es, k.size, k.data_v) v.by_host;
      by_device = rw (k.es, k.size, k.data_p) v.by_device;
    }

    pub send-Kept :
        (d : Direction) (rb : RingBuf) (el : ℕ) (m : Mem) → Kept rb (send host device d rb el m).1
    unfolding send rb_device_put rb_host_put
    send-Kept to_host rb el m = put_at-Kept device rb.data_p rb el m
    send-Kept to_device rb el m = put_at-Kept host rb.data_v rb el m

    pub receive-Kept :
        (d : Direction) (rb : RingBuf) (el : ℕ) (m : Mem)
        → Kept rb (receive host device d rb el m).1
    unfolding receive rb_device_get rb_host_get
    receive-Kept to_host rb el m = get_at-Kept host rb.data_v rb el m
    receive-Kept to_device rb el m = get_at-Kept device rb.data_p rb el m

    -- A put by the sending end does what a push on a bounded queue of `size - 1` elements does
    -- to the contents, with the same result: it appends the caller's bytes, or returns -1 on a
    -- full buffer and leaves the contents. The data array is mapped for both processors and has
    -- fewer than 2^32 bytes, and the element lies apart from it.
    pub send_refines :
        (d : Direction) (rb : RingBuf) (el : ℕ) (m : Mem)
        → IsMapped host device cells rb
        → Apart (sender host device d) el rb.element_size cells (rb.element_size * rb.size)
        → let (r, rb', m') = send host device d rb el m in
          (r, contents cells rb' m')
          ≡ Queue.push
              (rb.size - 1)
              (contents cells rb m)
              (bytes (sender host device d) m el rb.element_size)
    unfolding send rb_device_put rb_host_put
    send_refines to_host rb el m v out =
        put_at_refines (record { valid = v.valid; array = v.by_device; apart = out }) m
    send_refines to_device rb el m v out =
        put_at_refines (record { valid = v.valid; array = v.by_host; apart = out }) m

    -- A get by the receiving end does what a pop of a queue does to the contents, with the same
    -- result: the caller's buffer then holds the oldest element, or the buffer was empty and -1
    -- is returned. The data array is mapped for both processors and has fewer than 2^32 bytes,
    -- and the caller's buffer lies in cells of its own, apart from it.
    pub receive_refines :
        (d : Direction) (rb : RingBuf) (el at : ℕ) (m : Mem)
        → IsMapped host device cells rb
        → Apart (receiver host device d) el rb.element_size cells (rb.element_size * rb.size)
        → MapsTo (receiver host device d) el at rb.element_size
        → let (r, rb', m') = receive host device d rb el m in
          (r, got r (bytes (receiver host device d) m' el rb.element_size), contents cells rb' m')
          ≡ Queue.pop (contents cells rb m)
    unfolding receive rb_device_get rb_host_get
    receive_refines to_host rb el at m v out own =
        get_at_refines (record { valid = v.valid; array = v.by_host; apart = out }) at own m
    receive_refines to_device rb el at m v out own =
        get_at_refines (record { valid = v.valid; array = v.by_device; apart = out }) at own m

    -- A put changes the data array alone, a get the caller's buffer alone.
    pub send-frame :
        (d : Direction) (rb : RingBuf) (el : ℕ) (m : Mem) (x : ℕ)
        → IsMapped host device cells rb
        → Apart (sender host device d) el rb.element_size cells (rb.element_size * rb.size)
        → ((j : ℕ) → j < rb.element_size * rb.size → x ≢ cells + j)
        → (send host device d rb el m).2 x ≡ m x
    unfolding send rb_device_put rb_host_put
    send-frame to_host rb el m x v out =
        put_at-frame (record { valid = v.valid; array = v.by_device; apart = out }) m x
    send-frame to_device rb el m x v out =
        put_at-frame (record { valid = v.valid; array = v.by_host; apart = out }) m x

    pub receive-frame :
        (d : Direction) (rb : RingBuf) (el at : ℕ) (m : Mem) (x : ℕ)
        → IsMapped host device cells rb
        → Apart (receiver host device d) el rb.element_size cells (rb.element_size * rb.size)
        → MapsTo (receiver host device d) el at rb.element_size
        → ((j : ℕ) → j < rb.element_size → x ≢ at + j)
        → (receive host device d rb el m).2 x ≡ m x
    unfolding receive rb_device_get rb_host_get
    receive-frame to_host rb el at m x v out own =
        get_at-frame (record { valid = v.valid; array = v.by_host; apart = out }) at own m x
    receive-frame to_device rb el at m x v out own =
        get_at-frame (record { valid = v.valid; array = v.by_device; apart = out }) at own m x

    -- Every call keeps the order.
    pub step-InOrder :
        (d : Direction) (t : Traffic) (e : Event)
        → IsReady host device d cells t.rb.element_size (t.rb.element_size * t.rb.size) e
        → InOrder host device cells t
        → InOrder host device cells (step host device d t e)
    unfolding step
    step-InOrder d t (put el) out o = record {
      mapped = IsMapped-Kept t.rb _ (send-Kept d t.rb el t.mem) o.mapped;
      order = push_order _ _ _ _ (send_refines d t.rb el t.mem o.mapped out) o.order;
    }
    step-InOrder d t (get el) (out, (at, own)) o = record {
      mapped = IsMapped-Kept t.rb _ (receive-Kept d t.rb el t.mem) o.mapped;
      order = pop_order _ _ _ (receive_refines d t.rb el at t.mem o.mapped out own) o.order;
    }

    pub step-Kept :
        (d : Direction) (t : Traffic) (e : Event) → Kept t.rb (step host device d t e).rb
    unfolding step
    step-Kept d t (put el) = send-Kept d t.rb el t.mem
    step-Kept d t (get el) = receive-Kept d t.rb el t.mem

    pub run-InOrder :
        (d : Direction) (t : Traffic) (es : List Event)
        → AllReady host device d cells t.rb.element_size (t.rb.element_size * t.rb.size) es
        → InOrder host device cells t
        → InOrder host device cells (run host device d t es)
    unfolding run
    run-InOrder d t [] ready o = o
    run-InOrder d t (e ∷ es) ready o =
        let k = step-Kept d t e in
        run-InOrder d (step host device d t e) es (rw (k.es, k.size) ready.1)
          (step-InOrder d t e ready.0 o)

    size-run :
        (d : Direction) (t : Traffic) (es : List Event)
        → (run host device d t es).rb.size ≡ t.rb.size
    unfolding run
    size-run d t [] = refl
    size-run d t (e ∷ es) = size-run d (step host device d t e) es ∙ (step-Kept d t e).size

    -- For any calls of the two ends on a ring buffer fresh from rb_init, in any order: what was
    -- got is what was put, in the order in which it was put, up to the elements that the buffer
    -- still holds, and it holds fewer than `size` of them. The size is positive, the data array
    -- is mapped for both processors and has fewer than 2^32 bytes, and the callers' elements
    -- lie apart from it.
    pub run_fifo :
        (d : Direction) (rb : RingBuf) (size element_size : ℕ) (m : Mem) (es : List Event)
        → 0 < size
        → IsMapped host device cells (rb_init rb size element_size)
        → AllReady host device d cells element_size (element_size * size) es
        → let t = run host device d (start (rb_init rb size element_size) m) es in
          (t.sent ≡ t.received ++ contents cells t.rb t.mem)
          × (length (contents cells t.rb t.mem) < size)
    unfolding rb_init
    run_fifo d rb size element_size m es size_pos mapped ready =
        let t : Traffic = start (rb_init rb size element_size) m in
        let o : InOrder host device cells (run host device d t es) =
          run-InOrder d t es ready (record {
            mapped = mapped;
            order = sym (start_empty size (slot cells element_size m) size_pos);
          }) in
        (
          o.order,
          omega (
            arith,
            length-contents cells (run host device d t es).rb (run host device d t es).mem,
            count_lt o.mapped.valid,
            size-run d t es,
          ),
        )
