-- ===== src/Examples/AxiWitnesses.antt =====
-- A memory of 16 bytes behind the AXI slave, with two reads in its queue and coins that delay.
use system_on_chip_design_pr.Base.{
  ℕ, zero, suc, ◌+◌, ◌*◌, ◌/◌, ◌%◌, ◌≡◌, refl, Bool, true, false, List, [], ◌∷◌, ltb, arith,
}
use system_on_chip_design_pr.Outcome.{ok}
use system_on_chip_design_pr.Testbench.Axi.{Master, init_master, init_slave}
use system_on_chip_design_pr.Testbench.Regions.{
  World, MemRegion, TbMemory, find_region, first_match,
}
use system_on_chip_design_pr.Testbench.Regions.Bytes.{AreSeparate}
use system_on_chip_design_pr.Testbench.Process.{AxiMem, write32}
use system_on_chip_design_pr.Testbench.Process.Words.{Strobed, IsBacked, write32-Strobed}
use system_on_chip_design_pr.Testbench.Process.Words.Reading.{HasWord, HasWord-bytes}
use system_on_chip_design_pr.Testbench.Process.Progress.{OnlyReads}
use system_on_chip_design_pr.Testbench.Process.Answered.{
  Eventually, AnswersFirst, IsFair, read-IsAnswered,
}

abbrev numbered : World
numbered = record { arrays = λ p i. i; next = 1; now = 0 }

abbrev sixteen : List MemRegion
sixteen = record { base = 0x100; size = 16; mem = 0; trace = false } ∷ []

abbrev small_memory : TbMemory
small_memory = record { regions = sixteen; record_accesses = false; accesses = [] }

abbrev lower : Master
lower = record init_master { arvalid = true; araddr = 0x100; arid = 1 }

abbrev upper : Master
upper = record init_master { arvalid = true; araddr = 0x104; arid = 2; wlast = true }

-- Four coins that delay, then four that do not.
abbrev by_fours : ℕ → Bool
by_fours k = ltb (k % 8) 4

abbrev queued : AxiMem
queued = record {
  world = numbered;
  memory = small_memory;
  enable_delays = true;
  rd_q = lower ∷ upper ∷ [];
  wr_q = [];
  wr_req = init_master;
  coins = by_fours;
  drawn = 0;
}

abbrev reader : ℕ → Master
reader t = record init_master { rready = true }

reader-OnlyReads : (t : ℕ) → OnlyReads (reader t)
reader-OnlyReads t = record { no_command = refl; no_data = refl; takes = refl }

by_fours-IsFair : IsFair by_fours
by_fours-IsFair n = (n / 8 * 8 + 12, omega arith, λ k low high. ground arith)

lower_word : HasWord numbered sixteen 0x100 0x0302_0100
unfolding find_region first_match
lower_word = HasWord-bytes numbered sixteen 0x100 0x0302_0100 refl refl refl refl

upper_word : HasWord numbered sixteen 0x104 0x0706_0504
unfolding find_region first_match
upper_word = HasWord-bytes numbered sixteen 0x104 0x0706_0504 refl refl refl refl

read-IsAnswered_example :
    Eventually reader
      (AnswersFirst numbered sixteen by_fours upper 0x0706_0504 [])
      0
      init_slave
      queued
read-IsAnswered_example =
    read-IsAnswered numbered sixteen by_fours reader reader-OnlyReads (lower ∷ []) 0 0x0706_0504
      upper [] init_slave queued by_fours-IsFair ((0x0302_0100, omega arith, lower_word), tt)
      (omega arith) upper_word
      (record { world = refl; regions = refl; coins_kept = refl; reads = refl; no_writes = refl })

sixteen-AreSeparate : AreSeparate sixteen
unfolding find_region first_match
sixteen-AreSeparate a b r s at_a at_b same_array same_place = ground arith

sixteen-IsBacked : IsBacked numbered sixteen 0x102 5 0 4
unfolding find_region first_match
sixteen-IsBacked zero low high set = (2, refl)
sixteen-IsBacked (suc zero) low high set = (3, refl)
sixteen-IsBacked (suc (suc zero)) low high set = (4, refl)
sixteen-IsBacked (suc (suc (suc zero))) low high set = (5, refl)
sixteen-IsBacked (suc (suc (suc (suc k)))) low high set = absurd (omega arith)

write32-Strobed_example :
    (done : World × TbMemory) × (write32 numbered small_memory 0x102 0xAABB_CCDD 5 ≡ ok done)
    × (done.1.regions ≡ sixteen)
    × Strobed sixteen 0x102 0xAABB_CCDD 5 0 4 numbered done.0
write32-Strobed_example =
    write32-Strobed 0x102 0xAABB_CCDD 5 numbered small_memory sixteen-AreSeparate sixteen-IsBacked
