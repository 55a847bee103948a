-- ===== src/Cosim/Bytes.antt =====
-- The loops of `write` and `read` of isa_sim/cosim_api.cpp over memories that keep their contract.
use system_on_chip_design_pr.Base.{
  ℕ, ◌<◌, ◌≡◌, ◌≢◌, ◌⊎◌, inl, inr, refl, sym, ◌∙◌, ap, true, List, [], ◌∷◌, Option, some, arith,
  if◌then◌else◌, All-map, ◌==◌, ==_iff, Bool-cases, update, All,
}
use system_on_chip_design_pr.Outcome.{ok}
use system_on_chip_design_pr.Cosim.{MemApi, MemItem}
use system_on_chip_design_pr.Cosim.Memory.{has_addr, any_memory, write_all, read_first}

-- The contract of a memory: it is a partial map from addresses to bytes. A write to a byte that
-- is there replaces that byte alone, and a read gives it.
pub record MemLaws {S : Type 0} (api : MemApi S) : Type 1 where
  pub Good : S → Type 0
  pub byte_at : S → ℕ → Option ℕ
  pub write_lem :
      (x : S) (a old v : ℕ)
      → Good x
      → v < 256
      → byte_at x a ≡ some old
      → (x' : S) × (api.write x a v ≡ ok x')
        × Good x'
        × ((b : ℕ) → byte_at x' b ≡ (if a == b then some v else byte_at x b))
  pub read_lem : (x : S) (a v : ℕ) → Good x → byte_at x a ≡ some v → api.read x a ≡ ok v

module _ {S : Type 0} (api : MemApi S) (laws : MemLaws api) where
  -- A memory is good, and has a byte with a property at an address.
  abbrev pub HasByte : (ℕ → Type 0) → S → ℕ → Type 0
  HasByte P x a = laws.Good x × (v : ℕ) × (laws.byte_at x a ≡ some v) × P v

  -- Every attached memory whose range has the address has such a byte there.
  abbrev pub AllHave : (ℕ → Type 0) → List MemItem → (ℕ → S) → ℕ → Type 0
  AllHave P mems objects a = All (λ it. has_addr it a ≡ true → HasByte P (objects it.mem) a) mems

  -- What the loop of `write` may change: the byte at the address.
  pub record Wrote (a v : ℕ) (x x' : S) : Type 0 where
    pub keeps_good : laws.Good x → laws.Good x'
    pub elsewhere : (b : ℕ) → a ≢ b → laws.byte_at x' b ≡ laws.byte_at x b
    pub here : (laws.byte_at x' a ≡ laws.byte_at x a) ⊎ (laws.byte_at x' a ≡ some v)

  unchanged : (a v : ℕ) (x : S) → Wrote a v x x
  unchanged a v x = record { keeps_good = λ g. g; elsewhere = λ b n. refl; here = inl refl }

  written :
      (a v : ℕ) (x x' : S)
      → laws.Good x'
      → ((b : ℕ) → laws.byte_at x' b ≡ (if a == b then some v else laws.byte_at x b))
      → Wrote a v x x'
  written a v x x' good after = record {
    keeps_good = λ g. good;
    elsewhere = λ b n. ground (arith, after b);
    here = inr (ground (arith, after a));
  }

  then-Wrote : (a v : ℕ) (x y z : S) → Wrote a v x y → Wrote a v y z → Wrote a v x z
  then-Wrote a v x y z first second = record {
    keeps_good = λ g. second.keeps_good (first.keeps_good g);
    elsewhere = λ b n. second.elsewhere b n ∙ first.elsewhere b n;
    here = elim second.here [ inl same ↦ by_first same first.here | inr new ↦ inr new ];
  }
    where
      by_first :
          laws.byte_at z a ≡ laws.byte_at y a
          → (laws.byte_at y a ≡ laws.byte_at x a) ⊎ (laws.byte_at y a ≡ some v)
          → (laws.byte_at z a ≡ laws.byte_at x a) ⊎ (laws.byte_at z a ≡ some v)
      by_first same (inl kept) = inl (same ∙ kept)
      by_first same (inr new) = inr (same ∙ new)

  HasByte-here :
      (a v : ℕ) (x x' : S) → Wrote a v x x' → HasByte (λ w. Unit) x a → HasByte (λ w. Unit) x' a
  HasByte-here a v x x' wrote (good, old, is, u) = elim wrote.here [
    | inl same ↦ (wrote.keeps_good good, old, same ∙ is, tt)
    | inr new ↦ (wrote.keeps_good good, v, new, tt)
  ]

  HasByte-new :
      (a v : ℕ) (x x' : S)
      → Wrote a v x x'
      → laws.Good x
      → laws.byte_at x a ≡ some v
      → HasByte (λ w. w ≡ v) x' a
  HasByte-new a v x x' wrote good is = elim wrote.here [
    | inl same ↦ (wrote.keeps_good good, v, same ∙ is, refl)
    | inr new ↦ (wrote.keeps_good good, v, new, refl)
  ]

  pub HasByte-elsewhere :
      (P : ℕ → Type 0) (a v b : ℕ) (x x' : S)
      → Wrote a v x x'
      → a ≢ b
      → HasByte P x b
      → HasByte P x' b
  HasByte-elsewhere P a v b x x' wrote other (good, w, is, p) =
      (wrote.keeps_good good, w, wrote.elsewhere b other ∙ is, p)

  one_written :
      (objects : ℕ → S) (q : ℕ) (x : S) (a v : ℕ)
      → laws.Good x
      → ((b : ℕ) → laws.byte_at x b ≡ (if a == b then some v else laws.byte_at (objects q) b))
      → (p : ℕ) → Wrote a v (objects p) (update objects q x p)
  one_written objects q x a v good after p = elim (Bool-cases (q == p)) [
    | inl same ↦
        let eq : q ≡ p = (==_iff q p).0 same in
        rw (same, sym eq) (written a v (objects q) x good after)
    | inr other ↦ rw other (unchanged a v (objects p))
  ]

  pub write_all-Wrote :
      (mems : List MemItem) (objects : ℕ → S) (a v : ℕ)
      → v < 256
      → AllHave (λ w. Unit) mems objects a
      → (objects' : ℕ → S) × (write_all api mems objects a v ≡ ok objects')
        × ((p : ℕ) → Wrote a v (objects p) (objects' p))
        × AllHave (λ w. w ≡ v) mems objects' a
  unfolding write_all
  write_all-Wrote [] objects a v fits have = (objects, refl, λ p. unchanged a v (objects p), tt)
  write_all-Wrote (it ∷ rest) objects a v fits (have, haves) = elim (Bool-cases (has_addr it a)) [
    | inl hit ↦
        let (good, old, is, u) = have hit in
        let (x, taken, good', after) = laws.write_lem (objects it.mem) a old v good fits is in
        let o1 = update objects it.mem x in
        let step : (p : ℕ) → Wrote a v (objects p) (o1 p) =
          one_written objects it.mem x a v good' after in
        let (objects', done, wrote, holds) = write_all-Wrote rest o1 a v fits (
          All-map rest
            (λ other h k.
              HasByte-here a v (objects other.mem) (o1 other.mem) (step other.mem) (h k))
            haves) in
        let self : o1 it.mem ≡ x = ground arith in
        (
          objects',
          rw (hit, taken) done,
          λ p. then-Wrote a v (objects p) (o1 p) (objects' p) (step p) (wrote p),
          (
            λ h.
                HasByte-new a v x (objects' it.mem) (rw self at (wrote it.mem)) good'
                  (ground (arith, after a)),
            holds,
          ),
        )
    | inr miss ↦
        let (objects', done, wrote, holds) = write_all-Wrote rest objects a v fits haves in
        (objects', rw miss done, wrote, (λ h. absurd (ground arith), holds))
  ]

  pub read_first-holds :
      (mems : List MemItem) (objects : ℕ → S) (a v : ℕ)
      → AllHave (λ w. w ≡ v) mems objects a
      → any_memory mems a ≡ true
      → read_first api mems objects a ≡ ok v
  unfolding read_first any_memory
  read_first-holds [] objects a v have some_has = cc
  read_first-holds (it ∷ rest) objects a v (have, haves) some_has =
      elim (Bool-cases (has_addr it a)) [
        | inl hit ↦
            let (good, w, is, same) = have hit in
            rw hit (laws.read_lem (objects it.mem) a v good (is ∙ ap (λ x. some x) same))
        | inr miss ↦ rw miss (read_first-holds rest objects a v haves (rw miss at some_has))
      ]
