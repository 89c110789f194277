-- ===== src/Mailbox/Write.antt =====
-- `hero_dev_mbox_write`: the word that it sends, and when it returns.
use hero_tools.Prelude.{
  ℕ, ◌+◌, ◌-◌, ◌<◌, ◌≡◌, ◌≢◌, refl, sym, ap, ◌∙◌, List, [], ◌∷◌, ◌++◌, arith, length, false, true,
  Bool-cases, some, inl, inr,
}
use hero_tools.Prelude.Int.{ℤ, pos, is_nonzero}
use hero_tools.Prelude.Memory.{View, bytes, bytes_ext}
use hero_tools.Prelude.Partial.{Ensures, Ensures-map}
use hero_tools.Ring.Queue
use hero_tools.Ring.Contents.{contents, length-contents, count_lt}
use hero_tools.Ring.Refine.{got}
use hero_tools.Ring.Traffic.{to_device, put, get, Traffic, send, step, run}
use hero_tools.Ring.Traffic.Order.{send_refines, receive_refines}
use hero_tools.Mailbox.{Schedule, gets, hero_dev_mbox_write}
use hero_tools.Mailbox.Frame.{
  IsWord, Mailbox, step_put-Mailbox, step_get-Mailbox, step_put-frame, step_get-frame,
}

-- A pop leaves room, whether it finds something or not.
pop_room :
    (size : ℕ) (q : List (List ℕ)) (x : List ℕ) {r : ℤ} {q' : List (List ℕ)}
    → 1 < size
    → length q < size
    → (r, got r x, q') ≡ Queue.pop q
    → length q' < size - 1
unfolding Queue.pop
pop_room size [] x h short e = ground arith
pop_room size (y ∷ q) x h short e = ground arith

-- A push succeeds where there is room.
push_ok :
    (room : ℕ) (q : List (List ℕ)) (x : List ℕ) {r : ℤ} {q' : List (List ℕ)}
    → length q < room
    → (r, q') ≡ Queue.push room q x
    → is_nonzero r ≡ false
unfolding Queue.push
push_ok room q x h e = ground arith

module _ (host device : View) (cells size word at : ℕ) where
  -- The device's buffers lie apart from the data array and from the host's word.
  abbrev pub ReadyGets : List ℕ → Type 0
  ReadyGets [] = Unit
  ReadyGets (el ∷ els) =
      ((own : ℕ) × IsWord device cells size el own × ((i j : ℕ) → i < 4 → j < 4 → at + i ≢ own + j))
      × ReadyGets els

  abbrev pub ReadyServing : Schedule → Type 0
  ReadyServing [] = Unit
  ReadyServing (els ∷ sched) = ReadyGets els × ReadyServing sched

  -- The device's gets leave what was sent and the host's word alone.
  record Served (t t' : Traffic) : Type 0 where
    box : Mailbox host device cells size t'
    sent : t'.sent ≡ t.sent
    same : (i : ℕ) → i < 4 → t'.mem (at + i) ≡ t.mem (at + i)

  run-gets-Served :
      (t : Traffic) (els : List ℕ)
      → Mailbox host device cells size t
      → ReadyGets els
      → Served t (run host device to_device t (gets els))
  unfolding run step
  run-gets-Served t [] box ready = record { box = box; sent = refl; same = λ i h. refl }
  run-gets-Served t (el ∷ els) box ((own, w, off), ready) =
      let t1 = step host device to_device t (get el) in
      let s =
        run-gets-Served t1 els (step_get-Mailbox host device cells size to_device t box el own w)
          ready in
      record {
        box = s.box;
        sent = s.sent;
        same = λ i h.
            s.same i h
            ∙ step_get-frame host device cells size to_device t box el own (at + i) w
                (λ j hj. off i j h hj);
      }

  -- The word is the last one sent.
  pub record WroteWord (t : Traffic) (out : ℤ × Traffic) : Type 0 where
    pub status : out.0 ≡ pos 0
    pub box : Mailbox host device cells size out.1
    pub sent : out.1.sent ≡ t.sent ++ (bytes host t.mem word 4 ∷ [])

  module _ (w : IsWord host cells size word at) where
    put-WroteWord :
        (t : Traffic)
        → Mailbox host device cells size t
        → is_nonzero (send host device to_device t.rb word t.mem).0 ≡ false
        → WroteWord t (pos 0, step host device to_device t (put word))
    unfolding step
    put-WroteWord t box ok = record {
      status = refl;
      box = step_put-Mailbox host device cells size to_device t box word w.apart;
      sent = rw (ok, box.words);
    }

    Served-WroteWord :
        (t t1 : Traffic) (out : ℤ × Traffic) → Served t t1 → WroteWord t1 out → WroteWord t out
    Served-WroteWord t t1 out s p = record {
      status = p.status;
      box = p.box;
      sent = p.sent ∙ rw (s.sent, same_word);
    }
      where
        same_word : bytes host t1.mem word 4 ≡ bytes host t.mem word 4
        same_word =
            bytes_ext host host t1.mem t.mem word word 4
              λ i h. ap t1.mem (w.own i h) ∙ s.same i h ∙ ap t.mem (sym (w.own i h))

    retry-WroteWord :
        (t : Traffic) (out : ℤ × Traffic)
        → Mailbox host device cells size t
        → is_nonzero (send host device to_device t.rb word t.mem).0 ≡ true
        → WroteWord (step host device to_device t (put word)) out
        → WroteWord t out
    unfolding step
    retry-WroteWord t out box full p = record {
      status = p.status;
      box = p.box;
      sent = p.sent ∙ rw (full, kept_word);
    }
      where
        kept_word :
            bytes host (step host device to_device t (put word)).mem word 4
            ≡ bytes host t.mem word 4
        kept_word = bytes_ext host host _ t.mem word word 4 λ i h.
            step_put-frame host device cells size to_device t box word (host (word + i)) w.apart
              (λ j hj. w.apart i j h hj)

    hero_dev_mbox_write-WroteWord :
        (sched : Schedule) (t : Traffic)
        → Mailbox host device cells size t
        → ReadyServing sched
        → Ensures (WroteWord t) (hero_dev_mbox_write host device word sched t)
    unfolding hero_dev_mbox_write
    hero_dev_mbox_write-WroteWord [] t box ready =
        elim (Bool-cases (is_nonzero (send host device to_device t.rb word t.mem).0)) [
          | inl full ↦ rw full tt
          | inr free ↦ rw free (put-WroteWord t box free)
        ]
    hero_dev_mbox_write-WroteWord (els ∷ sched) t box ready =
        let t1 = run host device to_device t (gets els) in
        let s = run-gets-Served t els box ready.0 in
        let more =
          hero_dev_mbox_write-WroteWord sched (step host device to_device t1 (put word))
            (step_put-Mailbox host device cells size to_device t1 s.box word w.apart) ready.1 in
        elim (Bool-cases (is_nonzero (send host device to_device t1.rb word t1.mem).0)) [
          | inl full ↦ rw full (
              Ensures-map _ (WroteWord t) (hero_dev_mbox_write host device word sched _)
                (λ out p. Served-WroteWord t t1 out s (retry-WroteWord t1 out s.box full p)) more)
          | inr free ↦ rw free (Served-WroteWord t t1 _ s (put-WroteWord t1 s.box free))
        ]

    write-now :
        (els : List ℕ) (sched : Schedule) (t : Traffic)
        → let t1 = run host device to_device t (gets els) in
          is_nonzero (send host device to_device t1.rb word t1.mem).0 ≡ false
          → hero_dev_mbox_write host device word (els ∷ sched) t
            ≡ some (pos 0, step host device to_device t1 (put word))
    unfolding hero_dev_mbox_write
    write-now els sched t ok = rw ok

    module _ (room : 1 < size) where
      run-gets-room :
          (t : Traffic) (els : List ℕ)
          → Mailbox host device cells size t
          → ReadyGets els
          → 0 < length els
          → let t1 = run host device to_device t (gets els) in
            length (contents cells t1.rb t1.mem) < size - 1
      unfolding run step
      run-gets-room t [] box ready some_get = absurd (omega arith)
      run-gets-room t (el ∷ []) box ((own, v, off), ready) some_get =
          pop_room size (contents cells t.rb t.mem) _ room
            (omega (
              arith,
              length-contents cells t.rb t.mem,
              count_lt box.in_order.mapped.valid,
              box.slots,
            ))
            (receive_refines host device cells to_device t.rb el own t.mem box.in_order.mapped
              (rw (box.words, box.slots) v.apart) (rw box.words v.own))
      run-gets-room t (el ∷ el' ∷ els) box ((own, v, off), ready) some_get =
          run-gets-room (step host device to_device t (get el)) (el' ∷ els)
            (step_get-Mailbox host device cells size to_device t box el own v) ready (omega arith)

      send_ok :
          (t : Traffic)
          → Mailbox host device cells size t
          → length (contents cells t.rb t.mem) < size - 1
          → is_nonzero (send host device to_device t.rb word t.mem).0 ≡ false
      send_ok t box short =
          push_ok (t.rb.size - 1) (contents cells t.rb t.mem) _ (omega (arith, short, box.slots)) (
            send_refines host device cells to_device t.rb word t.mem box.in_order.mapped
              (rw (box.words, box.slots) w.apart))

      -- If the device takes a word before the first poll, `hero_dev_mbox_write` returns 0,
      -- and its word is the last one sent. The mailbox has two slots of four bytes or more
      -- and is in order, the word and the device's buffers lie apart from its data array, and
      -- the buffers apart from the word.
      pub hero_dev_mbox_write_total :
          (els : List ℕ) (sched : Schedule) (t : Traffic)
          → Mailbox host device cells size t
          → ReadyServing (els ∷ sched)
          → 0 < length els
          → (out : ℤ × Traffic) × (hero_dev_mbox_write host device word (els ∷ sched) t ≡ some out)
            × WroteWord t out
      hero_dev_mbox_write_total els sched t box ready some_get =
          let t1 = run host device to_device t (gets els) in
          let s = run-gets-Served t els box ready.0 in
          let ok = send_ok t1 s.box (run-gets-room t els box ready.0 some_get) in
          (
            (pos 0, step host device to_device t1 (put word)),
            write-now els sched t ok,
            Served-WroteWord t t1 _ s (put-WroteWord t1 s.box ok),
          )
