-- ===== src/Mailbox/Frame.antt =====
-- What one poll of the mailbox does, for either end.
use hero_tools.Prelude.{ℕ, ◌+◌, ◌*◌, ◌<◌, ◌≡◌, ◌≢◌, ◌∙◌}
use hero_tools.Prelude.Memory.{View}
use hero_tools.Ring.Copy.{MapsTo, Apart}
use hero_tools.Ring.Traffic.{Direction, put, get, Traffic, sender, receiver, step, InOrder}
use hero_tools.Ring.Traffic.Order.{step-InOrder, step-Kept, send-frame, receive-frame}

-- A mailbox of `size` words of four bytes, in order.
pub record IsMailbox (host device : View) (cells size : ℕ) (t : Traffic) : Type 0 where
  pub in_order : InOrder host device cells t
  pub words : t.rb.element_size ≡ 4
  pub slots : t.rb.size ≡ size

-- The cell lies outside the `n` cells from `p` on.
abbrev pub Outside : (p n x : ℕ) → Type 0
Outside p n x = (j : ℕ) → j < n → x ≢ p + j

-- A word that the host or the device holds: apart from the data array, in cells of its own.
pub record IsWord (v : View) (cells size el at : ℕ) : Type 0 where
  pub apart : Apart v el 4 cells (4 * size)
  pub own : MapsTo v el at 4

module _ (host device : View) (cells size : ℕ) where
  abbrev pub Mailbox : Traffic → Type 0
  Mailbox = IsMailbox host device cells size

  module _ (d : Direction) (t : Traffic) (box : Mailbox t) where
    pub step_put-Mailbox :
        (el : ℕ)
        → Apart (sender host device d) el 4 cells (4 * size)
        → Mailbox (step host device d t (put el))
    step_put-Mailbox el out =
        let k = step-Kept host device cells d t (put el) in
        record {
          in_order =
              step-InOrder host device cells d t (put el) (rw (box.words, box.slots) out)
                box.in_order;
          words = k.es ∙ box.words;
          slots = k.size ∙ box.slots;
        }

    pub step_get-Mailbox :
        (el at : ℕ)
        → IsWord (receiver host device d) cells size el at
        → Mailbox (step host device d t (get el))
    step_get-Mailbox el at w =
        let k = step-Kept host device cells d t (get el) in
        record {
          in_order =
              step-InOrder host device cells d t (get el)
                (rw (box.words, box.slots) (w.apart, (at, w.own))) box.in_order;
          words = k.es ∙ box.words;
          slots = k.size ∙ box.slots;
        }

    pub step_put-frame :
        (el x : ℕ)
        → Apart (sender host device d) el 4 cells (4 * size)
        → Outside cells (4 * size) x
        → (step host device d t (put el)).mem x ≡ t.mem x
    unfolding step
    step_put-frame el x out off =
        send-frame host device cells d t.rb el t.mem x box.in_order.mapped
          (rw (box.words, box.slots) out) (rw (box.words, box.slots) off)

    pub step_get-frame :
        (el at x : ℕ)
        → IsWord (receiver host device d) cells size el at
        → Outside at 4 x
        → (step host device d t (get el)).mem x ≡ t.mem x
    unfolding step
    step_get-frame el at x w off =
        receive-frame host device cells d t.rb el at t.mem x box.in_order.mapped
          (rw (box.words, box.slots) w.apart) (rw box.words w.own) (rw box.words off)
