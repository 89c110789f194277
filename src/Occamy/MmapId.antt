-- ===== src/Occamy/MmapId.antt =====
-- sw/hero-driver/occamy/occamy_driver.h, the `…_MMAP_ID` numbers of the regions.
use hero_tools.Prelude.{ℕ}

abbrev pub soc_ctrl : ℕ
soc_ctrl = 0

abbrev pub dma_bufs : ℕ
dma_bufs = 1

abbrev pub l3 : ℕ
l3 = 2

abbrev pub quadrant_ctrl : ℕ
quadrant_ctrl = 3

abbrev pub clint : ℕ
clint = 5

abbrev pub scratchpad_wide : ℕ
scratchpad_wide = 10

abbrev pub snitch_cluster : ℕ
snitch_cluster = 100
