-- ===== src/Control.antt =====
-- sw/libhero/src/carfield and sw/libhero/src/occamy: how the host starts and resets a cluster, through the device's registers.
-- The registers are hardware: what they do is a parameter (`Hw`), over a state `S` of the device. Each
-- program also notes its accesses, the latest first.
pub mod Order
pub mod Spatz
pub mod SafetyIsland
pub mod Snitch
pub mod Init
mod Tests
use hero_tools.Prelude.{ℕ, zero, suc, Option, none, some, List, ◌∷◌, ◌==◌, if◌then◌else◌}

-- The address ranges that the programs map: `car_soc_ctrl`, `car_mboxes`, `chs_ctrl_regs`,
-- `car_spatz_cluster`, `car_safety_island`; `occ_quad_ctrl`, `occ_soc_ctrl`, `occ_clint`.
pub data Block : Type 0 where
  soc_ctrl mboxes ctrl_regs spatz_cluster safety_island quad_ctrl occ_soc_ctrl clint : Block

pub data Access : Type 0 where
  wrote : Block → (offset value : ℕ) → Access
  saw : Block → (offset value : ℕ) → Access
  fenced : Access

pub record Hw (S : Type 0) : Type 0 where
  pub on_write : Block → (offset value : ℕ) → S → S
  pub on_read : Block → (offset : ℕ) → S → ℕ × S

pub record Bus (S : Type 0) : Type 0 where
  pub device : S
  pub trace : List Access

module _ {S : Type 0} (hw : Hw S) where
  unfoldable pub writew : (value : ℕ) → Block → (offset : ℕ) → Bus S → Bus S
  writew value block offset bus = record {
    device = hw.on_write block offset value bus.device;
    trace = wrote block offset value ∷ bus.trace;
  }

  unfoldable pub readw : Block → (offset : ℕ) → Bus S → ℕ × Bus S
  readw block offset bus =
      let (value, device) = hw.on_read block offset bus.device in
      (value, record { device = device; trace = saw block offset value ∷ bus.trace })

  unfoldable pub fence : Bus S → Bus S
  fence bus = record bus { trace = fenced ∷ bus.trace }

  -- `while (readw(…) != status);` with so many reads at most: `none` if it goes on.
  unfoldable pub poll : (fuel : ℕ) → Block → (offset status : ℕ) → Bus S → Option (Bus S)
  poll zero block offset status bus = none
  poll (suc fuel) block offset status bus =
      let (value, bus') = readw block offset bus in
      let rest = poll fuel block offset status bus' in if value == status then some bus' else rest

  -- `car_set_isolate`, the same in spatz_cluster.c and safety_island.c but for the registers.
  unfoldable pub set_isolate :
      (isolate_offset isolate_status_offset : ℕ) (fuel status : ℕ) → Bus S → Option (Bus S)
  set_isolate isolate_offset isolate_status_offset fuel status bus =
      poll fuel soc_ctrl isolate_status_offset status
        (fence (writew status soc_ctrl isolate_offset bus))
