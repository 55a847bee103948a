-- ===== src/Cpu/Mmu/Walk.antt =====
-- The page table walk against the Sv32 scheme, and the end of its loop.
use system_on_chip_design_pr.Base.{ℕ, zero, suc, ◌≡◌, refl, ap, sym, ◌∙◌, fun_ext, sub32}
use system_on_chip_design_pr.Outcome.{Outcome, ok, undefined, ◌>>=◌}
use system_on_chip_design_pr.Cpu.{Cpu}
use system_on_chip_design_pr.Cpu.Mmu.{
  WalkStep, walked, next_table, walk_round, walk_loop, walk_fuel,
}

-- What follows a round, as a function of the loop on the next table.
abbrev continue_walk : (ℕ → Outcome ℕ) → WalkStep → Outcome ℕ
continue_walk next step = elim step [ walked pte ↦ ok pte | next_table base' ↦ next base' ]

loop_cong :
    (f g : ℕ) (c : Cpu) (addr i base : ℕ)
    → ((b : ℕ) → walk_loop f c addr (sub32 i 1) b ≡ walk_loop g c addr (sub32 i 1) b)
    → walk_loop (suc f) c addr i base ≡ walk_loop (suc g) c addr i base
unfolding walk_loop
loop_cong f g c addr i base h =
    ap (λ next. walk_round c addr i base >>= continue_walk next) (fun_ext h)

-- At the fourth index the shift is out of range.
last_round : (f : ℕ) (c : Cpu) (addr base : ℕ) → walk_loop f c addr 0xFFFF_FFFE base ≡ undefined
unfolding walk_loop walk_round
last_round zero c addr base = refl
last_round (suc f) c addr base = refl

-- The walk never needs more than `walk_fuel` rounds: the loop always ends.
pub walk_loop-fuel :
    (n : ℕ) (c : Cpu) (addr base : ℕ)
    → walk_loop (suc (suc (suc (suc n)))) c addr 1 base ≡ walk_loop walk_fuel c addr 1 base
walk_loop-fuel n c addr base = loop_cong (suc (suc (suc n))) 3 c addr 1 base λ b.
    loop_cong (suc (suc n)) 2 c addr 0 b λ b'.
      loop_cong (suc n) 1 c addr 0xFFFF_FFFF b'
        λ b''. last_round (suc n) c addr b'' ∙ sym (last_round 1 c addr b'')
