-- ===== src/Mailbox/Read.antt =====
-- `hero_dev_mbox_read`: which words it returns, where they go, and when it returns.
use hero_tools.Prelude.{
  ℕ, zero, suc, ◌+◌, ◌*◌, ◌≡◌, refl, sym, ap, ◌∙◌, List, [], ◌∷◌, ◌++◌, arith, false, true,
  Bool-cases, inl, inr,
}
use mathlib.Core.List.{append_assoc, append-nil}
use hero_tools.Prelude.Int.{ℤ, pos, is_nonzero}
use hero_tools.Prelude.Memory.{Mem, View, bytes, bytes_ext}
use hero_tools.Ring.Copy.{MapsTo, Apart}
use hero_tools.Ring.Traffic.{to_host, put, get, Traffic, receive, step, run}
use hero_tools.Mailbox.{Schedule, puts, poll_get, hero_dev_mbox_read}
use hero_tools.Prelude.Partial.{Ensures, Ensures-map, Ensures-bind}
use hero_tools.Mailbox.Frame.{
  Outside, IsWord, Mailbox, step_put-Mailbox, step_get-Mailbox, step_put-frame, step_get-frame,
}

module _ (host device : View) (cells size : ℕ) where
  -- The elements that the device puts lie apart from the data array.
  abbrev pub ReadyPuts : List ℕ → Type 0
  ReadyPuts [] = Unit
  ReadyPuts (el ∷ els) = Apart device el 4 cells (4 * size) × ReadyPuts els

  abbrev pub ReadySchedule : Schedule → Type 0
  ReadySchedule [] = Unit
  ReadySchedule (els ∷ sched) = ReadyPuts els × ReadySchedule sched

  -- The device's puts leave everything but the data array and what was sent alone.
  pub record Waited (t t' : Traffic) : Type 0 where
    pub box : Mailbox host device cells size t'
    pub received : t'.received ≡ t.received
    pub same : (x : ℕ) → Outside cells (4 * size) x → t'.mem x ≡ t.mem x

  pub run-puts-Waited :
      (t : Traffic) (els : List ℕ)
      → Mailbox host device cells size t
      → ReadyPuts els
      → Waited t (run host device to_host t (puts els))
  unfolding run step
  run-puts-Waited t [] box ready = record { box = box; received = refl; same = λ x off. refl }
  run-puts-Waited t (el ∷ els) box ready =
      let t1 = step host device to_host t (put el) in
      let w =
        run-puts-Waited t1 els (step_put-Mailbox host device cells size to_host t box el ready.0)
          ready.1 in
      record {
        box = w.box;
        received = w.received;
        same = λ x off.
            w.same x off ∙ step_put-frame host device cells size to_host t box el x ready.0 off;
      }

  -- One word taken from the mailbox into the cells from `at` on.
  pub record Polled (el at : ℕ) (t : Traffic) (t' : Traffic) : Type 0 where
    pub box : Mailbox host device cells size t'
    pub received : t'.received ≡ t.received ++ (bytes host t'.mem el 4 ∷ [])
    pub same : (x : ℕ) → Outside cells (4 * size) x → Outside at 4 x → t'.mem x ≡ t.mem x

  module _ (el at : ℕ) (w : IsWord host cells size el at) where
    pub get-Polled :
        (t : Traffic)
        → Mailbox host device cells size t
        → is_nonzero (receive host device to_host t.rb el t.mem).0 ≡ false
        → Polled el at t (step host device to_host t (get el))
    unfolding step
    get-Polled t box full = record {
      box = step_get-Mailbox host device cells size to_host t box el at w;
      received = rw (full, box.words);
      same = λ x _ off. step_get-frame host device cells size to_host t box el at x w off;
    }

    -- A poll that fails and the polls after it are polls from the state before.
    retry-Polled :
        (t t' : Traffic)
        → Mailbox host device cells size t
        → is_nonzero (receive host device to_host t.rb el t.mem).0 ≡ true
        → Polled el at (step host device to_host t (get el)) t'
        → Polled el at t t'
    unfolding step
    retry-Polled t t' box empty p = record {
      box = p.box;
      received = p.received ∙ rw empty;
      same = λ x out off.
          p.same x out off ∙ step_get-frame host device cells size to_host t box el at x w off;
    }

    pub Waited-Polled : (t t1 t2 : Traffic) → Waited t t1 → Polled el at t1 t2 → Polled el at t t2
    Waited-Polled t t1 t2 a p = record {
      box = p.box;
      received = rw (← a.received) p.received;
      same = λ x out off. p.same x out off ∙ a.same x out;
    }

    abbrev pub GotWord : Traffic → Traffic × Schedule → Type 0
    GotWord t (t', rest) = Polled el at t t' × ReadySchedule rest

    pub poll_get-GotWord :
        (sched : Schedule) (t : Traffic)
        → Mailbox host device cells size t
        → ReadySchedule sched
        → Ensures (GotWord t) (poll_get host device el sched t)
    unfolding poll_get
    poll_get-GotWord [] t box ready =
        elim (Bool-cases (is_nonzero (receive host device to_host t.rb el t.mem).0)) [
          | inl empty ↦ rw empty tt
          | inr full ↦ rw full (get-Polled t box full, tt)
        ]
    poll_get-GotWord (els ∷ sched) t box ready =
        let t1 = run host device to_host t (puts els) in
        let a = run-puts-Waited t els box ready.0 in
        let more =
          poll_get-GotWord sched (step host device to_host t1 (get el))
            (step_get-Mailbox host device cells size to_host t1 a.box el at w) ready.1 in
        elim (Bool-cases (is_nonzero (receive host device to_host t1.rb el t1.mem).0)) [
          | inl empty ↦ rw empty (
              Ensures-map _ (GotWord t) (poll_get host device el sched _)
                (λ (t', rest) (p, r).
                  (Waited-Polled t t1 t' a (retry-Polled t1 t' a.box empty p), r))
                more)
          | inr full ↦ rw full (Waited-Polled t t1 _ a (get-Polled t1 a.box full), ready.1)
        ]

  -- The `n` words of a buffer, the last one first: the order in which they are read.
  abbrev pub words_down : Mem → (buffer : ℕ) → ℕ → List (List ℕ)
  words_down m buffer zero = []
  words_down m buffer (suc n) = bytes host m (buffer + 4 * n) 4 ∷ words_down m buffer n

  -- The host's buffer of `n` words, in the cells from `at` on, apart from the data array.
  pub record IsBuffer (buffer at n : ℕ) : Type 0 where
    pub own : MapsTo host buffer at (4 * n)
    pub apart : Apart host buffer (4 * n) cells (4 * size)

  pub IsBuffer-IsWord :
      (buffer at n : ℕ)
      → IsBuffer buffer at (suc n)
      → IsWord host cells size (buffer + 4 * n) (at + 4 * n) × IsBuffer buffer at n
  IsBuffer-IsWord buffer at n b = (
    record {
      apart = λ i j hi hj e. b.apart (4 * n + i) j (omega arith) hj (ap host (omega arith) ∙ e);
      own = λ i hi. ap host (omega arith) ∙ b.own (4 * n + i) (omega arith) ∙ omega arith;
    },
    record {
      own = λ i hi. b.own i (omega arith);
      apart = λ i j hi hj. b.apart i j (omega arith) hj;
    },
  )

  -- `n` words taken from the mailbox into the buffer, downwards from its end.
  pub record ReadWords (buffer at n : ℕ) (t : Traffic) (out : ℤ × Traffic) : Type 0 where
    pub status : out.0 ≡ pos 0
    pub box : Mailbox host device cells size out.1
    pub received : out.1.received ≡ t.received ++ words_down out.1.mem buffer n
    pub same : (x : ℕ) → Outside cells (4 * size) x → Outside at (4 * n) x → out.1.mem x ≡ t.mem x

  module _ (buffer at : ℕ) where
    pub ReadWords-suc :
        (n : ℕ) (t t1 : Traffic) (out : ℤ × Traffic)
        → IsBuffer buffer at (suc n)
        → Polled (buffer + 4 * n) (at + 4 * n) t t1
        → ReadWords buffer at n t1 out
        → ReadWords buffer at (suc n) t out
    ReadWords-suc n t t1 out b p r = record {
      status = r.status;
      box = r.box;
      received =
          r.received
          ∙ rw (p.received, top_word)
              (append_assoc t.received (bytes host out.1.mem (buffer + 4 * n) 4 ∷ []) _);
      same = λ x off far.
          r.same x off (λ j h. far j (omega arith))
          ∙ p.same x off (λ j h e. far (4 * n + j) (omega arith) (e ∙ omega arith));
    }
      where
        top_word : bytes host t1.mem (buffer + 4 * n) 4 ≡ bytes host out.1.mem (buffer + 4 * n) 4
        top_word =
            let w = (IsBuffer-IsWord buffer at n b).0 in
            sym (
              bytes_ext host host out.1.mem t1.mem _ _ 4 λ i h.
                r.same (host (buffer + 4 * n + i)) (λ j hj. w.apart i j h hj)
                  (λ j hj e. absurd (omega (arith, w.own i h, e))))

    pub hero_dev_mbox_read-ReadWords :
        (n : ℕ) (sched : Schedule) (t : Traffic)
        → IsBuffer buffer at n
        → Mailbox host device cells size t
        → ReadySchedule sched
        → Ensures (ReadWords buffer at n t) (hero_dev_mbox_read host device buffer n sched t)
    unfolding hero_dev_mbox_read
    hero_dev_mbox_read-ReadWords zero sched t b box ready = record {
      status = refl;
      box = box;
      received = sym (append-nil t.received);
      same = λ x _ _. refl;
    }
    hero_dev_mbox_read-ReadWords (suc n) sched t b box ready =
        let (w, b') = IsBuffer-IsWord buffer at n b in
        Ensures-bind (GotWord (buffer + 4 * n) (at + 4 * n) w t) (ReadWords buffer at (suc n) t)
          (poll_get host device (buffer + 4 * n) sched t) _
          (poll_get-GotWord (buffer + 4 * n) (at + 4 * n) w sched t box ready)
          λ (t1, rest) (p, r).
            Ensures-map (ReadWords buffer at n t1) (ReadWords buffer at (suc n) t)
              (hero_dev_mbox_read host device buffer n rest t1)
              (λ out. ReadWords-suc n t t1 out b p)
              (hero_dev_mbox_read-ReadWords n rest t1 b' p.box r)
