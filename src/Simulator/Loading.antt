-- ===== src/Simulator/Loading.antt =====
-- The bytes of an ELF section in the memory of the cosimulation: `mem_load` of
-- isa_sim/riscv_main.cpp as the callback of `elf_load` (isa_sim/elf_load.cpp).
use system_on_chip_design_pr.Base.{
  ℕ, zero, suc, ◌+◌, ap, sym, Bool, false, ◌^◌, ◌<◌, ◌≤◌, ◌≡◌, ◌≢◌, refl, true, List, [], ◌∷◌,
  arith, All, ltb, add32, Bool-cases, inl, inr, ◌==◌, ==_iff, ◌∙◌,
}
use system_on_chip_design_pr.Base.Text.{length}
use system_on_chip_design_pr.Outcome.{Outcome, ok, undefined, ◌>>=◌, >>=-eq-ok, ok-injective}
use system_on_chip_design_pr.Cosim.{MemApi, Cosim}
use system_on_chip_design_pr.Cosim.Bytes.{MemLaws}
use system_on_chip_design_pr.Cosim.Words.{IsBacked, Holds, write-Written}
use system_on_chip_design_pr.Cosim.Memory.{valid_addr, write, write_all}
use system_on_chip_design_pr.Elf.{Section, nth, load_bytes}
use system_on_chip_design_pr.Simulator.{mem_create, mem_load}

nth-inside :
    (bs : List ℕ) (i : ℕ)
    → All (λ b. b < 256) bs
    → i < length bs
    → (v : ℕ) × (nth bs i ≡ ok v) × (v < 256)
unfolding nth
nth-inside [] i h below = absurd (omega arith)
nth-inside (b ∷ bs) zero (h, hs) below = (b, refl, h)
nth-inside (b ∷ bs) (suc i) (h, hs) below = nth-inside bs i hs (omega arith)

module _ {S : Type 0} (api : MemApi S) (laws : MemLaws api) (sec : Section) where
  -- Every byte of the section from `i` on, `left` of them, is at its address.
  abbrev pub AreLoaded : Cosim S → ℕ → ℕ → Type 0
  AreLoaded s left i =
      (j v : ℕ)
      → i ≤ j
      → j < left + i
      → nth sec.bytes j ≡ ok v
      → Holds api laws s (add32 sec.sh_addr j) v

  -- Every address outside that range keeps the byte it holds.
  abbrev pub AreKept : Cosim S → Cosim S → ℕ → ℕ → Type 0
  AreKept s s' left i =
      (b w : ℕ)
      → ((j : ℕ) → i ≤ j → j < left + i → add32 sec.sh_addr j ≢ b)
      → Holds api laws s b w
      → Holds api laws s' b w

  one_byte :
      (s s1 : Cosim S) (left i v : ℕ)
      → i < 2 ^ 31
      → nth sec.bytes i ≡ ok v
      → write api s (add32 sec.sh_addr i) v ≡ ok s1
      → valid_addr s1 (add32 sec.sh_addr i) ≡ true
      → load_bytes (mem_create api) (mem_load api) s sec (suc left) i
        ≡ load_bytes (mem_create api) (mem_load api) s1 sec left (i + 1)
  unfolding load_bytes mem_load
  one_byte s s1 left i v few at returns valid =
      let below : ltb i (2 ^ 31) ≡ true = ground arith in
      rw (below, load_bytes, at, returns, valid) refl

  AreLoaded-first :
      (s' : Cosim S) (left i v : ℕ)
      → nth sec.bytes i ≡ ok v
      → Holds api laws s' (add32 sec.sh_addr i) v
      → AreLoaded s' left (i + 1)
      → AreLoaded s' (suc left) i
  AreLoaded-first s' left i v at first rest j w low high e = elim (Bool-cases (i == j)) [
    | inl same ↦
        let eq : i ≡ j = (==_iff i j).0 same in let value : v ≡ w = cc in rw (← eq, ← value) first
    | inr later ↦ rest j w (ground arith) (omega arith) e
  ]

  -- Where memory backs the addresses, the file has the bytes, and there are fewer than 2 ^ 31 of
  -- them, the loop ends with success; then every byte is at its address, and every other address
  -- keeps the byte it held.
  pub load_bytes-AreLoaded :
      (s : Cosim S) (left i : ℕ)
      → All (λ b. b < 256) sec.bytes
      → left + i ≤ length sec.bytes
      → left + i ≤ 2 ^ 31
      → ((j : ℕ) → i ≤ j → j < left + i → IsBacked api laws s (add32 sec.sh_addr j))
      → (s' : Cosim S) × (load_bytes (mem_create api) (mem_load api) s sec left i ≡ ok (s', true))
        × AreLoaded s' left i
        × AreKept s s' left i
  unfolding load_bytes mem_load
  load_bytes-AreLoaded s zero i bytes inside few backed =
      (s, refl, (λ j v low high e. absurd (omega arith)), λ b w apart h. h)
  load_bytes-AreLoaded s (suc left) i bytes inside few backed =
      let a = add32 sec.sh_addr i in
      let (v, at, small) = nth-inside sec.bytes i bytes (omega arith) in
      let (s1, w1) = write-Written api laws s a v small (backed i (omega arith) (omega arith)) in
      let valid = w1.holds.0 in
      let (s', done, loaded, kept) =
        load_bytes-AreLoaded s1 left (i + 1) bytes (omega arith) (omega arith) (λ j low high.
          w1.keeps_backed (add32 sec.sh_addr j) (omega arith)
            (backed j (omega arith) (omega arith))) in
      (
        s',
        one_byte s s1 left i v (omega arith) at w1.returns valid ∙ done,
        AreLoaded-first s' left i v at
            (kept (add32 sec.sh_addr i) v (λ j low high. omega arith) w1.holds) loaded,
        λ b w apart h.
            kept b w (λ j low high. apart j (omega arith) (omega arith))
              (w1.keeps_holds b w (apart i (omega arith) (omega arith)) h),
      )

module _ {S : Type 0} (api : MemApi S) (sec : Section) where
  write-mems : (s s' : Cosim S) (addr value : ℕ) → write api s addr value ≡ ok s' → s'.mems ≡ s.mems
  unfolding write
  write-mems s s' addr value e =
      let (objects, all, same) = >>=-eq-ok (write_all api s.mems s.objects addr value) _ e in
      sym (ap (λ (x : Cosim S). x.mems) (ok-injective same))

  mem_load-mems :
      (s : Cosim S) (done : Cosim S × Bool) (addr value : ℕ)
      → mem_load api s addr value ≡ ok done
      → done.0.mems ≡ s.mems
  unfolding mem_load
  mem_load-mems s done addr value e =
      let (s1, writes, same) = >>=-eq-ok (write api s addr value) _ e in
      sym (ap (λ (x : Cosim S × Bool). x.0.mems) (ok-injective same))
      ∙ write-mems s s1 addr value writes

  -- Loading attaches no memory and takes none away.
  pub load_bytes-mems :
      (s s' : Cosim S) (left i : ℕ) (success : Bool)
      → load_bytes (mem_create api) (mem_load api) s sec left i ≡ ok (s', success)
      → s'.mems ≡ s.mems
  unfolding load_bytes
  load_bytes-mems s s' zero i success e = cc
  load_bytes-mems s s' (suc left) i success e =
      by_bound (ltb i (2 ^ 31)) (λ d h. load_bytes-mems d s' left (i + 1) success h) e
    where
      by_success :
          (d : Cosim S) (b : Bool)
          → (load_bytes (mem_create api) (mem_load api) d sec left (i + 1) ≡ ok (s', success)
              → s'.mems ≡ d.mems)
          → (elim b as (λ x. Outcome (Cosim S × Bool)) [
            | false ↦ ok (d, false)
            | true ↦ load_bytes (mem_create api) (mem_load api) d sec left (i + 1)
          ])
            ≡ ok (s', success)
          → s'.mems ≡ d.mems
      by_success d false again h = cc
      by_success d true again h = again h

      by_bound :
          (b : Bool)
          → ((d : Cosim S)
              → load_bytes (mem_create api) (mem_load api) d sec left (i + 1) ≡ ok (s', success)
              → s'.mems ≡ d.mems)
          → (elim b as (λ x. Outcome (Cosim S × Bool)) [
            | false ↦ undefined
            | true ↦ do
              v ← nth sec.bytes i
              done ← mem_load api s (add32 sec.sh_addr i) v
              elim done.1 [
                | false ↦ ok (done.0, false)
                | true ↦ load_bytes (mem_create api) (mem_load api) done.0 sec left (i + 1)
              ]
          ])
            ≡ ok (s', success)
          → s'.mems ≡ s.mems
      by_bound false again h = cc
      by_bound true again h =
          let (v, at, h1) = >>=-eq-ok (nth sec.bytes i) _ h in
          let (done, loads, h2) = >>=-eq-ok (mem_load api s (add32 sec.sh_addr i) v) _ h1 in
          by_success done.0 done.1 (again done.0) h2
          ∙ mem_load-mems s done (add32 sec.sh_addr i) v loads
