-- ===== src/Control/Spatz/Mbox.antt =====
-- sw/libhero/src/carfield/spatz_cluster.h, the offsets CARFIELD_MBOX_HOST_2_SPATZ_0_INT_… and
-- …_SPATZ_1_INT_… that the programs use.
use hero_tools.Prelude.{ℕ}

abbrev pub snd_set_0 : ℕ
snd_set_0 = 0x204

abbrev pub snd_clr_0 : ℕ
snd_clr_0 = 0x208

abbrev pub snd_en_0 : ℕ
snd_en_0 = 0x20c

abbrev pub rcv_clr_0 : ℕ
rcv_clr_0 = 0x248

abbrev pub snd_set_1 : ℕ
snd_set_1 = 0x304

abbrev pub snd_clr_1 : ℕ
snd_clr_1 = 0x308

abbrev pub snd_en_1 : ℕ
snd_en_1 = 0x30c

abbrev pub rcv_clr_1 : ℕ
rcv_clr_1 = 0x348
