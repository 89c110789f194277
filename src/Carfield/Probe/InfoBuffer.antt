-- ===== src/Carfield/Probe/InfoBuffer.antt =====
-- The information buffer of a device that was probed, against its allocation.
use hero_tools.Prelude.{ℕ, ◌<◌, ◌≡◌, refl, Bool, some, arith}
use hero_tools.Prelude.Int.{ℤ}
use hero_tools.Driver.Probe.{fresh}
use hero_tools.Driver.Probe.Buffer.{FormatsLine, AreShort, Holds, total, probe_nodes-Holds}
use hero_tools.Carfield.Probe.{
  Bus, Held, Bound, early_fields, late_fields, probe_early, probe_late, card_platform_driver_probe,
}
use hero_tools.Carfield.Probe.Fields.{Field, name, same, name_short}
use hero_tools.Carfield.Probe.Told.{probe-probing}

-- PDATA_SIZE
abbrev pub pdata_size : ℕ
pdata_size = 2048

-- After a probe of the Carfield driver that got its memory, `buffer_size` is the length of the
-- lines printed, and below PDATA_SIZE. A line is at most 35 characters longer than the name in it,
-- and a reserved memory's name has at most 31 characters.
pub probe-buffer_size :
    (linux_6_5 : Bool) (b : Bus) (id : ℕ) (h : Held) (ret : ℤ) (d : Bound) (h' : Held)
    → FormatsLine b.tree
    → AreShort b.tree
    → card_platform_driver_probe linux_6_5 b id h ≡ some (ret, some d, h')
    → (d.probing.buffer_size ≡ total b.tree d.probing.buffer) × (d.probing.buffer_size < pdata_size)
unfolding probe_early probe_late
probe-buffer_size linux_6_5 b id h ret d h' formats shorts probed =
    let early =
      probe_nodes-Holds same Field.l3 b.tree formats name name_short shorts early_fields
        (fresh Field) 0 (omega arith) (refl, omega arith) in
    let late =
      probe_nodes-Holds same Field.l3 b.tree formats name name_short shorts late_fields
        (probe_early b) 792 (omega arith) early in
    let held : Holds b.tree (probe_late b) 1848 = late in
    rw (probe-probing linux_6_5 b id h ret d h' probed) (held.0, omega (arith, held.1))
