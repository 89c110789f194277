-- ===== src/Control/SafetyIsland/Laws.antt =====
-- Calls on the safety island one after the other, and the order of their accesses.
use hero_tools.Prelude.{ℕ, ◌+◌, refl, true, Option, some, List, [], ◌∷◌, ◌==◌, if◌then◌else◌}
use hero_tools.Prelude.Partial.{◌>>=◌}
use hero_tools.Control.{Block, soc_ctrl, safety_island, Hw, Bus}
use hero_tools.Control.Order.{
  Role, isolate, isolate_status, clk_en, rst, boot_addr, fetch, plain, ResetRegs, Cluster, running,
  started_cluster,
}
use hero_tools.Control.SafetyIsland.{
  rst_offset, isolate_offset, isolate_status_offset, clk_en_offset, fetch_enable_offset,
  boot_addr_offset, island_boot_addr_offset, hero_dev_reset, hero_dev_exe_start,
}

abbrev pub role : Block → (offset : ℕ) → Role
role soc_ctrl offset =
    if offset == isolate_offset
    then isolate
    else if offset == isolate_status_offset
    then isolate_status
    else if offset == clk_en_offset
    then clk_en
    else if offset == rst_offset
    then rst
    else if offset == boot_addr_offset
    then boot_addr
    else if offset == fetch_enable_offset
    then fetch
    else plain
role safety_island offset = if offset == island_boot_addr_offset then boot_addr else plain
role _ offset = plain

abbrev pub regs : ResetRegs
regs = record {
  role = role;
  isolate_offset = isolate_offset;
  status_offset = isolate_status_offset;
  is_isolate = refl;
  is_status = refl;
}

pub data Call : Type 0 where
  reset exe_start : Call

-- What a call makes of the island.
abbrev pub outcome : Call → Cluster → Cluster
outcome reset c = running (c.resets + 1) c.enabled
outcome exe_start c =
    started_cluster (c.resets + 1) (0x60010080 ∷ 0x60010080 ∷ []) c.enabled (0 ∷ [])

abbrev pub outcomes : List Call → Cluster → Cluster
outcomes [] c = c
outcomes (call ∷ calls) c = outcomes calls (outcome call c)

module _ {S : Type 0} (hw : Hw S) (fuel : ℕ) where
  abbrev pub run_call : Call → Bus S → Option (Bus S)
  run_call reset bus = hero_dev_reset hw fuel bus
  run_call exe_start bus = hero_dev_exe_start hw fuel bus

  unfoldable pub run_calls : List Call → Bus S → Option (Bus S)
  run_calls [] bus = some bus
  run_calls (call ∷ calls) bus = run_call call bus >>= λ bus'. run_calls calls bus'

module _ {S : Type 0} (hw : Hw S) (fuel : ℕ) (start : Cluster) where
  -- The island between the requests, when it has been reset.
  abbrev cycled : Cluster → Cluster
  cycled c = record (running (c.resets + 1) c.enabled) { requested = true; isolated = true }
