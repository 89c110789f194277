-- ===== src/Matvec/Dma.antt =====
-- The memories of a Spatz cluster and its DMA engine, as apps/omp/basic/matvec/matvec.h uses them. A
-- transfer may write its target at any time until it is waited for: from its start on the target holds
-- anything at all (`junk`), and what was transferred once it is waited for.
use hero_tools.Prelude.{ℕ, ◌+◌, ◌*◌, ◌%◌, ◌^◌, List, [], ◌∷◌, ◌++◌, ltb, ◌==◌, if◌then◌else◌}

-- The numbers' type `D` with what the program takes from elsewhere: the conversion of integers, the kernel,
-- the core that runs an iteration of the parallel loop, and what a target holds meanwhile.
pub record Machine (D : Type 0) : Type 0 where
  pub of_int : ℕ → D
  pub fdotp_32b : (x w : ℕ → D) → ℕ → D
  pub core_idx : ℕ → ℕ
  pub junk : (issued cell : ℕ) → D

pub data Target : Type 0 where
  to_x : Target
  to_rows : ℕ → Target

pub record Transfer : Type 0 where
  pub target : Target
  pub source : ℕ
  pub floats : ℕ

-- The memory, the buffers `x_l1[0]` and `w_row_l1`, and the transfers not waited for.
pub record Device (D : Type 0) : Type 0 where
  pub mem : ℕ → D
  pub x : ℕ → D
  pub rows : (buffer cell : ℕ) → D
  pub pending : List Transfer
  pub issued : ℕ

-- sizeof(DTYPE)
abbrev pub float_bytes : ℕ
float_bytes = 4

-- The float `j` at a 32-bit pointer.
abbrev pub address : (p j : ℕ) → ℕ
address p j = (p + float_bytes * j) % 2 ^ 32

module _ {D : Type 0} where
  -- The first cells of a target get new contents.
  abbrev pub fill : Target → (floats : ℕ) → (ℕ → D) → Device D → Device D
  fill to_x n f s = record s { x = λ j. if ltb j n then f j else s.x j }
  fill (to_rows k) n f s = record s {
    rows = λ l j. if l == k then (if ltb j n then f j else s.rows l j) else s.rows l j;
  }

  -- `snrt_dma_start_1d_wideptr`
  abbrev pub start : Machine D → Transfer → Device D → Device D
  start m t s =
      let s1 = fill t.target t.floats (m.junk s.issued) s in
      record s1 { pending = s.pending ++ (t ∷ []); issued = s.issued + 1 }

  abbrev pub land : Transfer → Device D → Device D
  land t s = fill t.target t.floats (λ j. s.mem (address t.source j)) s

  abbrev pub land_all : List Transfer → Device D → Device D
  land_all [] s = s
  land_all (t ∷ ts) s = land_all ts (land t s)

  -- `snrt_dma_wait_all`
  abbrev pub wait_all : Device D → Device D
  wait_all s = record (land_all s.pending s) { pending = [] }
