-- ===== src/Carfield/MmapId.antt =====
-- sw/hero-driver/carfield/carfield_driver.h, the `…_MMAP_ID` numbers of the regions.
use hero_tools.Prelude.{ℕ}

abbrev pub soc_ctrl : ℕ
soc_ctrl = 0

abbrev pub dma_bufs : ℕ
dma_bufs = 1

abbrev pub l3 : ℕ
l3 = 2

abbrev pub mboxes : ℕ
mboxes = 3

abbrev pub ctrl_regs : ℕ
ctrl_regs = 5

abbrev pub l2_intl_0 : ℕ
l2_intl_0 = 10

abbrev pub l2_cont_0 : ℕ
l2_cont_0 = 11

abbrev pub l2_intl_1 : ℕ
l2_intl_1 = 12

abbrev pub l2_cont_1 : ℕ
l2_cont_1 = 13

abbrev pub idma : ℕ
idma = 20

abbrev pub safety_island : ℕ
safety_island = 100

abbrev pub integer_cluster : ℕ
integer_cluster = 200

abbrev pub spatz_cluster : ℕ
spatz_cluster = 300
