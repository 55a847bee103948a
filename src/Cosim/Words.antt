-- ===== src/Cosim/Words.antt =====
-- The byte and word accesses of isa_sim/cosim_api.cpp over memories that keep their contract.
use system_on_chip_design_pr.Base.{
  ℕ, ◌/◌, ◌%◌, ◌^◌, ◌<◌, ◌≡◌, ◌≢◌, refl, ap, true, List, arith, All-map, add32, shl32, bit_or,
}
use system_on_chip_design_pr.Base.Bits.{zero-bit_or, bit_or_hole}
use system_on_chip_design_pr.Outcome.{ok}
use system_on_chip_design_pr.Cosim.{MemApi, MemItem, Cosim}
use system_on_chip_design_pr.Cosim.Memory.{
  valid_addr, write, read, write_bytes, write_word, read_bytes, read_word,
}
use system_on_chip_design_pr.Cosim.Bytes.{
  MemLaws, AllHave, Wrote, write_all-Wrote, read_first-holds, HasByte-elsewhere,
}

module _ {S : Type 0} (api : MemApi S) (laws : MemLaws api) where
  -- A byte is at an address of the cosimulation: some memory has the address, and all that do
  -- have a byte there.
  abbrev pub IsBacked : Cosim S → ℕ → Type 0
  IsBacked s a = (valid_addr s a ≡ true) × AllHave api laws (λ w. Unit) s.mems s.objects a

  -- That byte is `v` in all of them.
  abbrev pub Holds : Cosim S → ℕ → ℕ → Type 0
  Holds s a v = (valid_addr s a ≡ true) × AllHave api laws (λ w. w ≡ v) s.mems s.objects a

  -- A write to an address with a byte ends normally, and leaves the byte in every memory that has
  -- the address; a byte at another address stays as it is.
  pub record Written (s : Cosim S) (a v : ℕ) (s' : Cosim S) : Type 0 where
    pub returns : write api s a v ≡ ok s'
    pub holds : Holds s' a v
    pub keeps_backed : (b : ℕ) → a ≢ b → IsBacked s b → IsBacked s' b
    pub keeps_holds : (b w : ℕ) → a ≢ b → Holds s b w → Holds s' b w

  AllHave-elsewhere :
      (P : ℕ → Type 0) (mems : List MemItem) (objects objects' : ℕ → S) (a v b : ℕ)
      → a ≢ b
      → ((p : ℕ) → Wrote api laws a v (objects p) (objects' p))
      → AllHave api laws P mems objects b
      → AllHave api laws P mems objects' b
  AllHave-elsewhere P mems objects objects' a v b other wrote = All-map mems (λ it h hit.
      HasByte-elsewhere api laws P a v b (objects it.mem) (objects' it.mem) (wrote it.mem) other
        (h hit))

  pub write-Written :
      (s : Cosim S) (a v : ℕ) → v < 256 → IsBacked s a → (s' : Cosim S) × Written s a v s'
  unfolding write valid_addr
  write-Written s a v fits (valid, have) =
      let (objects', done, wrote, holds) =
        write_all-Wrote api laws s.mems s.objects a v fits have in
      (
        record s { objects = objects' },
        record {
          returns = rw done refl;
          holds = (valid, holds);
          keeps_backed = λ b other backed.
              let (v', h) = backed in
              (v', AllHave-elsewhere (λ x. Unit) s.mems s.objects objects' a v b other wrote h);
          keeps_holds = λ b w other held.
              let (v', h) = held in
              (v', AllHave-elsewhere (λ x. x ≡ w) s.mems s.objects objects' a v b other wrote h);
        },
      )

  -- A read of a byte that all memories with its address hold gives it.
  pub read-Holds : (s : Cosim S) (a v : ℕ) → Holds s a v → read api s a ≡ ok v
  unfolding read valid_addr
  read-Holds s a v (valid, have) = read_first-holds api laws s.mems s.objects a v have valid

  assembled :
      (v : ℕ)
      → v < 2 ^ 32
      → bit_or
          (bit_or
            (bit_or (bit_or 0 (shl32 (v / 2 ^ 0 % 2 ^ 8) 0)) (shl32 (v / 2 ^ 8 % 2 ^ 8) 8))
            (shl32 (v / 2 ^ 16 % 2 ^ 8) 16))
          (shl32 (v / 2 ^ 24 % 2 ^ 8) 24)
        ≡ v
  assembled v fits = ground (
    arith,
    zero-bit_or (v % 256),
    bit_or_hole 8 8 0 (v / 2 ^ 8 % 256) (v % 256),
    bit_or_hole 16 8 0 (v / 2 ^ 16 % 256) (v % 2 ^ 16),
    bit_or_hole 24 8 0 (v / 2 ^ 24 % 256) (v % 2 ^ 24),
  )

  read_word-Holds :
      (s : Cosim S) (a v : ℕ)
      → v < 2 ^ 32
      → Holds s (add32 a 0) (v / 2 ^ 0 % 2 ^ 8)
      → Holds s (add32 a 1) (v / 2 ^ 8 % 2 ^ 8)
      → Holds s (add32 a 2) (v / 2 ^ 16 % 2 ^ 8)
      → Holds s (add32 a 3) (v / 2 ^ 24 % 2 ^ 8)
      → read_word api s a ≡ ok v
  unfolding read_word read_bytes
  read_word-Holds s a v fits h0 h1 h2 h3 =
      rw
        (
          read-Holds s (add32 a 0) _ h0,
          read-Holds s (add32 a 1) _ h1,
          read-Holds s (add32 a 2) _ h2,
          read-Holds s (add32 a 3) _ h3,
        )
        (ap ok (assembled v fits))

  -- Where all four bytes of a word are backed, `write_word` ends normally, and `read_word` then
  -- gives the word. The addresses wrap at 2 ^ 32, and need not be aligned.
  pub read_word-write_word :
      (s : Cosim S) (a v : ℕ)
      → v < 2 ^ 32
      → ((i : ℕ) → i < 4 → IsBacked s (add32 a i))
      → (s' : Cosim S) × (write_word api s a v ≡ ok s') × (read_word api s' a ≡ ok v)
  unfolding write_word write_bytes
  read_word-write_word s a v fits backed =
      let (s1, w1) =
        write-Written s (add32 a 0) (v / 2 ^ 0 % 2 ^ 8) (omega arith) (backed 0 (omega arith)) in
      let (s2, w2) =
        write-Written s1 (add32 a 1) (v / 2 ^ 8 % 2 ^ 8) (omega arith)
          (w1.keeps_backed (add32 a 1) (omega arith) (backed 1 (omega arith))) in
      let (s3, w3) = write-Written s2 (add32 a 2) (v / 2 ^ 16 % 2 ^ 8) (omega arith) (
        w2.keeps_backed (add32 a 2) (omega arith)
          (w1.keeps_backed (add32 a 2) (omega arith) (backed 2 (omega arith)))) in
      let (s4, w4) = write-Written s3 (add32 a 3) (v / 2 ^ 24 % 2 ^ 8) (omega arith) (
        w3.keeps_backed (add32 a 3) (omega arith) (
          w2.keeps_backed (add32 a 3) (omega arith)
            (w1.keeps_backed (add32 a 3) (omega arith) (backed 3 (omega arith))))) in
      (
        s4,
        rw (w1.returns, w2.returns, w3.returns, w4.returns) refl,
        read_word-Holds s4 a v fits
            (w4.keeps_holds (add32 a 0) _ (omega arith) (
              w3.keeps_holds (add32 a 0) _ (omega arith)
                (w2.keeps_holds (add32 a 0) _ (omega arith) w1.holds)))
            (w4.keeps_holds (add32 a 1) _ (omega arith)
              (w3.keeps_holds (add32 a 1) _ (omega arith) w2.holds))
            (w4.keeps_holds (add32 a 2) _ (omega arith) w3.holds) w4.holds,
      )
