-- ===== src/Hero64/Tests.antt =====
-- A value stored and loaded 4 GiB further on.
use hero_tools.Prelude.{◌/◌, ◌%◌, ◌≡◌, refl, true, false, [], ◌∷◌, ◌++◌, arith}
use hero_tools.Prelude.Bits.{add64}
use hero_tools.Hero64.{Core, hero_load_uint64, hero_store_uint64}
use hero_tools.Hero64.Laws.{word_access, hero_load-store_uint64}

abbrev core : Core
core = record { memory = λ x. 0; mstatus = 0x1808; mseg = 0; accesses = [] }

hero_load-store_uint64_example :
    let c1 = hero_store_uint64 0x1000 0x1122334455667788 core in
    let (loaded, c2) = hero_load_uint64 0x100001000 c1 in
    (loaded ≡ 0x1122334455667788)
    × (c2.memory ≡ c1.memory)
    × (c2.mstatus ≡ 0x1808)
    × (c2.accesses
        ≡ []
          ++ (word_access true 0x1000 core
              ∷ word_access true (add64 0x1000 4) core
              ∷ word_access false 0x1000 core
              ∷ word_access false (add64 0x1000 4) core
              ∷ []))
    × ((word_access true 0x1000 core).mstatus / 8 % 2 ≡ 0x1808 / 8 % 2)
hero_load-store_uint64_example =
    hero_load-store_uint64 0x1000 0x100001000 0x1122334455667788 core (omega arith) refl
