-- ===== src/Ring/Traffic.antt =====
-- Both ends of a ring buffer at work, in any order: the device to host mailbox (`rb_device_put`,
-- `rb_host_get`) and the host to device mailbox (`rb_host_put`, `rb_device_get`).
pub mod Order
use hero_tools.Prelude.{
  ℕ, zero, suc, ◌+◌, ◌-◌, ◌*◌, ◌%◌, ◌^◌, ◌≤◌, ◌<◌, ◌≡◌, ◌≢◌, refl, sym, ap, ap₂, ◌∙◌, List, [], ◌∷◌,
  ◌++◌, Option, none, some, inl, inr, arith, ◌==◌, if◌then◌else◌, ==_iff, Bool-cases, length,
}
use native.Mathlib.Nat.{mod_self}
use mathlib.Core.List.{append_assoc, append-nil}
use hero_tools.Prelude.Int.{ℤ, pos, negsuc, is_nonzero}
use hero_tools.Prelude.Memory.{Mem, View, bytes}
use hero_tools.Ring.{
  RingBuf, put_at, get_at, rb_init, rb_device_put, rb_host_get, rb_host_put, rb_device_get,
}
use hero_tools.Ring.Copy.{MapsTo, Apart}
use hero_tools.Ring.Queue
use hero_tools.Ring.Contents.{IsValid, window, slot, contents, count, length-contents, count_lt}
use hero_tools.Ring.Refine.{Access, put_at_refines, get_at_refines, got}

-- Who puts: the device on `a2h_mbox` and `rb_mbox`, the host on `h2a_mbox`.
pub data Direction : Type 0 where
  to_host to_device : Direction

-- A call at one of the two ends, with the address of its element.
pub data Event : Type 0 where
  put get : ℕ → Event

-- The buffer, the memory, and what was put and got with success so far.
pub record Traffic : Type 0 where
  pub rb : RingBuf
  pub mem : Mem
  pub sent : List (List ℕ)
  pub received : List (List ℕ)

-- Nothing put, nothing got.
abbrev pub start : RingBuf → Mem → Traffic
start rb m = record { rb = rb; mem = m; sent = []; received = [] }

module _ (host device : View) where
  unfoldable pub send : Direction → RingBuf → ℕ → Mem → ℤ × RingBuf × Mem
  send to_host = rb_device_put device
  send to_device = rb_host_put host

  unfoldable pub receive : Direction → RingBuf → ℕ → Mem → ℤ × RingBuf × Mem
  receive to_host = rb_host_get host
  receive to_device = rb_device_get device

  abbrev pub sender : Direction → View
  sender to_host = device
  sender to_device = host

  abbrev pub receiver : Direction → View
  receiver to_host = host
  receiver to_device = device

  unfoldable pub step : Direction → Traffic → Event → Traffic
  step d t (put el) =
      let (r, rb', m') = send d t.rb el t.mem in
      record {
        rb = rb';
        mem = m';
        sent =
            if is_nonzero r
            then t.sent
            else t.sent ++ (bytes (sender d) t.mem el t.rb.element_size ∷ []);
        received = t.received;
      }
  step d t (get el) =
      let (r, rb', m') = receive d t.rb el t.mem in
      record {
        rb = rb';
        mem = m';
        sent = t.sent;
        received =
            if is_nonzero r
            then t.received
            else t.received ++ (bytes (receiver d) m' el t.rb.element_size ∷ []);
      }

  unfoldable pub run : Direction → Traffic → List Event → Traffic
  run d t [] = t
  run d t (e ∷ es) = run d (step d t e) es

  -- The data array is mapped for both processors, at `data_v` and at `data_p`.
  pub record IsMapped (cells : ℕ) (rb : RingBuf) : Type 0 where
    pub valid : IsValid rb
    pub by_host : MapsTo host rb.data_v cells (rb.element_size * rb.size)
    pub by_device : MapsTo device rb.data_p cells (rb.element_size * rb.size)

  -- The caller's element lies apart from the data array of `n` bytes; a get writes to it, in cells
  -- of its own.
  abbrev pub IsReady : Direction → (cells es n : ℕ) → Event → Type 0
  IsReady d cells es n (put el) = Apart (sender d) el es cells n
  IsReady d cells es n (get el) =
      Apart (receiver d) el es cells n × ((at : ℕ) × MapsTo (receiver d) el at es)

  abbrev pub AllReady : Direction → (cells es n : ℕ) → List Event → Type 0
  AllReady d cells es n [] = Unit
  AllReady d cells es n (x ∷ xs) = IsReady d cells es n x × AllReady d cells es n xs

  -- No element is lost, made up, repeated or overtaken.
  pub record InOrder (cells : ℕ) (t : Traffic) : Type 0 where
    pub mapped : IsMapped cells t.rb
    pub order : t.sent ≡ t.received ++ contents cells t.rb t.mem
