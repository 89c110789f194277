-- ===== src/Mailbox.antt =====
-- sw/libhero/src/common/hero_api.c, the mailbox calls of the host: `hero_dev_mbox_read` and
-- `hero_dev_mbox_write`. Both poll until the ring buffer gives way, so what the device does
-- meanwhile is part of the model: a schedule lists, for each poll, the calls that the device makes on
-- its end of the buffer just before. Where the schedule ends, the device stays idle for ever; a call
-- that is then still polling never returns, and the model says `none`.
pub mod Frame
pub mod Read
pub mod Returns
pub mod Write
mod Tests
use hero_tools.Prelude.{ℕ, zero, suc, ◌+◌, ◌*◌, Option, none, some, List, [], ◌∷◌, if◌then◌else◌}
use hero_tools.Prelude.Int.{ℤ, pos, is_nonzero}
use hero_tools.Prelude.Memory.{View}
use hero_tools.Prelude.Partial.{◌>>=◌}
use hero_tools.Ring.Traffic.{
  Direction, to_host, to_device, Event, put, get, Traffic, send, receive, step, run,
}

-- For each poll, the addresses of the elements that the device puts (or gets) before it.
abbrev pub Schedule : Type 0
Schedule = List (List ℕ)

abbrev pub puts : List ℕ → List Event
puts [] = []
puts (el ∷ els) = put el ∷ puts els

abbrev pub gets : List ℕ → List Event
gets [] = []
gets (el ∷ els) = get el ∷ gets els

module _ (host device : View) where
  -- `do { ret = rb_host_get(dev->mboxes.a2h_mbox, &buffer[n_words]); } while (ret);`
  -- with the fence and the idle rounds, which change no state, left out.
  unfoldable pub poll_get : (el : ℕ) → Schedule → Traffic → Option (Traffic × Schedule)
  poll_get el [] t =
      if is_nonzero (receive host device to_host t.rb el t.mem).0
      then none
      else some (step host device to_host t (get el), [])
  poll_get el (els ∷ sched) t =
      let t' = run host device to_host t (puts els) in
      let again = poll_get el sched (step host device to_host t' (get el)) in
      if is_nonzero (receive host device to_host t'.rb el t'.mem).0
      then again
      else some (step host device to_host t' (get el), sched)

  -- `while (n_words--) …`: the words go to `buffer[n_words - 1]`, …, `buffer[0]`.
  unfoldable pub hero_dev_mbox_read :
      (buffer : ℕ) → (n_words : ℕ) → Schedule → Traffic → Option (ℤ × Traffic)
  hero_dev_mbox_read buffer zero sched t = some (pos 0, t)
  hero_dev_mbox_read buffer (suc n) sched t =
      poll_get (buffer + 4 * n) sched t >>= λ (t', sched'). hero_dev_mbox_read buffer n sched' t'

  -- `do { ret = rb_host_put(dev->mboxes.h2a_mbox, &word); } while (ret); return ret;`
  unfoldable pub hero_dev_mbox_write : (word : ℕ) → Schedule → Traffic → Option (ℤ × Traffic)
  hero_dev_mbox_write word [] t =
      if is_nonzero (send host device to_device t.rb word t.mem).0
      then none
      else some (pos 0, step host device to_device t (put word))
  hero_dev_mbox_write word (els ∷ sched) t =
      let t' = run host device to_device t (gets els) in
      let again = hero_dev_mbox_write word sched (step host device to_device t' (put word)) in
      if is_nonzero (send host device to_device t'.rb word t'.mem).0
      then again
      else some (pos 0, step host device to_device t' (put word))
