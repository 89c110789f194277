-- ===== src/Mailbox/Returns.antt =====
-- `hero_dev_mbox_read` returns as soon as the device has put the words that it waits for.
use hero_tools.Prelude.{
  ℕ, zero, suc, ◌+◌, ◌-◌, ◌*◌, ◌≤◌, ◌<◌, ◌≡◌, refl, List, [], ◌∷◌, arith, length, length-append,
  false, some,
}
use hero_tools.Prelude.Int.{ℤ, pos, is_nonzero}
use hero_tools.Prelude.Memory.{View}
use hero_tools.Prelude.Partial.{Ensures_some}
use hero_tools.Ring.Copy.{Apart}
use hero_tools.Ring.Queue
use hero_tools.Ring.Contents.{contents}
use hero_tools.Ring.Refine.{got}
use hero_tools.Ring.Traffic.{to_host, put, get, Traffic, receive, step, run}
use hero_tools.Ring.Traffic.Order.{send_refines, receive_refines}
use hero_tools.Mailbox.{Schedule, puts, poll_get, hero_dev_mbox_read}
use hero_tools.Mailbox.Frame.{IsWord, Mailbox, step_put-Mailbox}
use hero_tools.Mailbox.Read.{
  ReadyPuts, ReadySchedule, run-puts-Waited, get-Polled, IsBuffer, IsBuffer-IsWord, ReadWords,
  hero_dev_mbox_read-ReadWords,
}

-- After a push there is something in the queue, whether it was taken or refused.
push_pos :
    (room : ℕ) (q : List (List ℕ)) (x : List ℕ) {r : ℤ} {q' : List (List ℕ)}
    → 0 < room
    → (r, q') ≡ Queue.push room q x
    → 0 < length q'
unfolding Queue.push
push_pos room q x h e = ground (arith, length-append q (x ∷ []))

-- A pop succeeds exactly on a queue that holds something.
pop_pos :
    (q : List (List ℕ)) (x : List ℕ) {r : ℤ} {q' : List (List ℕ)}
    → 0 < length q
    → (r, got r x, q') ≡ Queue.pop q
    → is_nonzero r ≡ false
unfolding Queue.pop
pop_pos [] x h e = absurd (omega arith)
pop_pos (y ∷ q) x h e = ground arith

-- Before every poll the device puts at least one word.
abbrev pub Busy : Schedule → Type 0
Busy [] = Unit
Busy (els ∷ sched) = (0 < length els) × Busy sched

module _ (host device : View) (cells size : ℕ) (room : 1 < size) where
  held : Traffic → ℕ
  held t = length (contents cells t.rb t.mem)

  step_put-held :
      (t : Traffic) (el : ℕ)
      → Mailbox host device cells size t
      → Apart device el 4 cells (4 * size)
      → 0 < held (step host device to_host t (put el))
  unfolding held step
  step_put-held t el box out = push_pos (t.rb.size - 1) _ _ (omega (arith, box.slots)) (
      send_refines host device cells to_host t.rb el t.mem box.in_order.mapped
        (rw (box.words, box.slots) out))

  run-puts-held :
      (t : Traffic) (els : List ℕ)
      → Mailbox host device cells size t
      → ReadyPuts host device cells size els
      → 0 < length els
      → 0 < held (run host device to_host t (puts els))
  unfolding run
  run-puts-held t [] box ready some_put = absurd (omega arith)
  run-puts-held t (el ∷ []) box ready some_put = step_put-held t el box ready.0
  run-puts-held t (el ∷ el' ∷ els) box ready some_put =
      run-puts-held (step host device to_host t (put el)) (el' ∷ els)
        (step_put-Mailbox host device cells size to_host t box el ready.0) ready.1 (omega arith)

  receive_ok :
      (t : Traffic) (el at : ℕ)
      → Mailbox host device cells size t
      → IsWord host cells size el at
      → 0 < held t
      → is_nonzero (receive host device to_host t.rb el t.mem).0 ≡ false
  unfolding held
  receive_ok t el at box w h = pop_pos (contents cells t.rb t.mem) _ h (
      receive_refines host device cells to_host t.rb el at t.mem box.in_order.mapped
        (rw (box.words, box.slots) w.apart) (rw box.words w.own))

  poll_get-now :
      (el at : ℕ) (els : List ℕ) (sched : Schedule) (t : Traffic)
      → Mailbox host device cells size t
      → IsWord host cells size el at
      → ReadyPuts host device cells size els
      → 0 < length els
      → poll_get host device el (els ∷ sched) t
        ≡ some (step host device to_host (run host device to_host t (puts els)) (get el), sched)
  unfolding poll_get
  poll_get-now el at els sched t box w ready some_put = rw (
      receive_ok (run host device to_host t (puts els)) el at
        (run-puts-Waited host device cells size t els box ready).box w
        (run-puts-held t els box ready some_put))

  mbox_read-some :
      (buffer at n : ℕ) (sched : Schedule) (t : Traffic)
      → IsBuffer host device cells size buffer at n
      → Mailbox host device cells size t
      → ReadySchedule host device cells size sched
      → Busy sched
      → n ≤ length sched
      → (out : ℤ × Traffic) × (hero_dev_mbox_read host device buffer n sched t ≡ some out)
  unfolding hero_dev_mbox_read
  mbox_read-some buffer at zero sched t b box ready busy enough = ((pos 0, t), refl)
  mbox_read-some buffer at (suc n) [] t b box ready busy enough = absurd (omega arith)
  mbox_read-some buffer at (suc n) (els ∷ sched) t b box ready busy enough =
      let (w, b') = IsBuffer-IsWord host device cells size buffer at n b in
      let t1 = run host device to_host t (puts els) in
      let a = run-puts-Waited host device cells size t els box ready.0 in
      let p = get-Polled host device cells size (buffer + 4 * n) (at + 4 * n) w t1 a.box (
        receive_ok t1 (buffer + 4 * n) (at + 4 * n) a.box w
          (run-puts-held t els box ready.0 busy.0)) in
      rw (poll_get-now (buffer + 4 * n) (at + 4 * n) els sched t box w ready.0 busy.0) (
        mbox_read-some buffer at n sched (step host device to_host t1 (get (buffer + 4 * n))) b'
          p.box ready.1 busy.1 (omega arith))

  -- If the device puts a word before each of at least `n` polls, `hero_dev_mbox_read` returns 0
  -- after `n` words, the words that it got are those in the buffer from the last to the first,
  -- and no cell outside the buffer and the data array changes. The mailbox has two slots of four
  -- bytes or more and is in order, and the buffer and the device's words lie apart from its data
  -- array.
  pub hero_dev_mbox_read_total :
      (buffer at n : ℕ) (sched : Schedule) (t : Traffic)
      → IsBuffer host device cells size buffer at n
      → Mailbox host device cells size t
      → ReadySchedule host device cells size sched
      → Busy sched
      → n ≤ length sched
      → (out : ℤ × Traffic) × (hero_dev_mbox_read host device buffer n sched t ≡ some out)
        × ReadWords host device cells size buffer at n t out
  hero_dev_mbox_read_total buffer at n sched t b box ready busy enough =
      let (out, e) = mbox_read-some buffer at n sched t b box ready busy enough in
      (
        out,
        e,
        Ensures_some (ReadWords host device cells size buffer at n t)
            (hero_dev_mbox_read-ReadWords host device cells size buffer at n sched t b box ready) e,
      )
