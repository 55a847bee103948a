-- ===== src/Elf.antt =====
-- isa_sim/elf_load.cpp: `elf_load` and `elf_get_symbol`. What libelf and bfd answer for a file is a
-- record; the callbacks that make memory and load bytes are parameters, on a state of any type.
use system_on_chip_design_pr.Base.{
  ℕ, zero, suc, ◌+◌, ◌^◌, Bool, true, false, ◌&&◌, List, [], ◌∷◌, Option, none, some, if◌then◌else◌,
  ltb, ◌==◌, add32, u32, any_bit,
}
use system_on_chip_design_pr.Base.Text.{Text, equal_text}
use system_on_chip_design_pr.Outcome.{Outcome, ok, undefined, ◌>>=◌}

-- The fields of `Elf32_Shdr` that are read, and the bytes at `d_buf`.
pub record Section : Type 0 where
  pub sh_type : ℕ
  pub sh_flags : ℕ
  pub sh_addr : ℕ
  pub sh_size : ℕ
  pub bytes : List ℕ

-- What libelf answers for a 32-bit file: whether each call succeeds that has to, the entry point (64 bits
-- wide) and the sections in the order of their indices.
pub record ElfFile : Type 0 where
  pub has_version : Bool
  pub opens : Bool
  pub begins : Bool
  pub is_elf : Bool
  pub has_names : Bool
  pub e_entry : ℕ
  pub sections : List Section

-- What bfd answers: the symbol table, if the file opens and is an object.
pub record Symbol : Type 0 where
  pub name : Text
  pub value : ℕ

abbrev pub shf_alloc : ℕ
shf_alloc = 2

abbrev pub sht_progbits : ℕ
sht_progbits = 1

-- `((uint8_t*)data->d_buf)[i]`.
unfoldable pub nth : List ℕ → ℕ → Outcome ℕ
nth [] i = undefined
nth (b ∷ bs) zero = ok b
nth (b ∷ bs) (suc i) = nth bs i

-- What a run leaves: the state, whether the result is 1, and `*start_addr`.
pub record Loaded (M : Type 0) : Type 0 where
  pub state : M
  pub success : Bool
  pub start_addr : ℕ

module _ {M : Type 0} (fn_create fn_load : M → ℕ → ℕ → Outcome (M × Bool)) where
  -- The loop over the bytes of a section from byte `i` on; `i` is an `int`.
  unfoldable pub load_bytes : M → Section → ℕ → ℕ → Outcome (M × Bool)
  load_bytes m sec zero i = ok (m, true)
  load_bytes m sec (suc left) i = elim (ltb i (2 ^ 31)) [
    | false ↦ undefined
    | true ↦ do
      b ← nth sec.bytes i
      done ← fn_load m (add32 sec.sh_addr i) b
      elim done.1 [ false ↦ ok (done.0, false) | true ↦ load_bytes done.0 sec left (i + 1) ]
  ]

  -- One round of the loop over the sections.
  unfoldable pub load_section : M → Section → Outcome (M × Bool)
  load_section m sec =
      if any_bit sec.sh_flags shf_alloc && ltb 0 sec.sh_size
      then (do
        made ← fn_create m sec.sh_addr sec.sh_size
        elim made.1 [
          | false ↦ ok (made.0, false)
          | true ↦
              if sec.sh_type == sht_progbits
              then load_bytes made.0 sec sec.sh_size 0
              else ok (made.0, true)
        ])
      else ok (m, true)

  unfoldable pub load_sections : M → List Section → Outcome (M × Bool)
  load_sections m [] = ok (m, true)
  load_sections m (sec ∷ rest) = do
    done ← load_section m sec
    elim done.1 [ false ↦ ok (done.0, false) | true ↦ load_sections done.0 rest ]

  -- `start` is `*start_addr` before the call.
  unfoldable pub elf_load : ElfFile → M → ℕ → Outcome (Loaded M)
  elf_load f m start =
      if f.has_version && f.opens && f.begins && f.is_elf && f.has_names
      then (do
        done ← load_sections m f.sections
        ok (record { state = done.0; success = done.1; start_addr = u32 f.e_entry }))
      else ok (record { state = m; success = false; start_addr = start })

-- The loop over the symbols: the value of the first one of that name. `strcmp` has no meaning for a
-- name that is not given.
unfoldable pub find_symbol : List Symbol → Option Text → Outcome ℕ
find_symbol [] name = ok 0xFFFF_FFFF
find_symbol (sym ∷ rest) none = undefined
find_symbol (sym ∷ rest) (some name) =
    if equal_text sym.name name then ok (u32 sym.value) else find_symbol rest (some name)

-- `elf_get_symbol`, cut to 32 bits as its caller does; -1 where bfd does not read the file.
unfoldable pub elf_get_symbol : Option (List Symbol) → Option Text → Outcome ℕ
elf_get_symbol none name = ok 0xFFFF_FFFF
elf_get_symbol (some symbols) name = find_symbol symbols name
