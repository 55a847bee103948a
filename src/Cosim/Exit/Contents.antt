-- ===== src/Cosim/Exit/Contents.antt =====
-- What `cosim::at_exit` (isa_sim/cosim_api.cpp) writes, by the memory that it dumps.
use system_on_chip_design_pr.Base.{
  ℕ, zero, suc, ◌+◌, ◌/◌, ◌<◌, ◌≡◌, refl, ◌∙◌, ap, Bool, true, false, List, [], ◌∷◌, some, arith,
  All, if◌then◌else◌, add32, sub32, is_neg,
}
use system_on_chip_design_pr.Base.Text.{Text}
use system_on_chip_design_pr.Outcome.{ok}
use system_on_chip_design_pr.Cosim.{MemApi, Cosim, Dump}
use system_on_chip_design_pr.Cosim.Bytes.{MemLaws}
use system_on_chip_design_pr.Cosim.Words.{Holds, read-Holds}
use system_on_chip_design_pr.Cosim.Exit.{
  sig_txt_file, file_contents, read_range, dump_memory, exit_after, at_exit,
}
use system_on_chip_design_pr.Cosim.Exit.Signature.{number_lines, print_rows-number_lines}

-- `n` values of a function, from `i` on.
unfoldable pub values : (ℕ → ℕ) → ℕ → ℕ → List ℕ
values f zero i = []
values f (suc n) i = f i ∷ values f n (i + 1)

values-All : (f : ℕ → ℕ) (n i : ℕ) → ((j : ℕ) → f j < 256) → All (λ b. b < 256) (values f n i)
unfolding values
values-All f zero i h = tt
values-All f (suc n) i h = (h i, values-All f n (i + 1) h)

module _ {S : Type 0} (api : MemApi S) (laws : MemLaws api) (opens : Text → Bool) where
  read_range-values :
      (s : Cosim S) (start : ℕ) (f : ℕ → ℕ) (left i : ℕ)
      → ((j : ℕ) → j < left + i → Holds api laws s (add32 start j) (f j))
      → read_range api opens s start left i ≡ ok (values f left i)
  unfolding read_range values
  read_range-values s start f zero i holds = refl
  read_range-values s start f (suc left) i holds =
      rw
        (
          read-Holds api laws s (add32 start i) (f i) (holds i (omega arith)),
          read_range-values s start f left (i + 1) (λ j h. holds j (omega arith)),
        )
        refl

  contents :
      (file : Text) (f : ℕ → ℕ) (size : ℕ)
      → ((j : ℕ) → f j < 256)
      → file_contents file (values f size 0) size ≡ (
          if sig_txt_file file
          then number_lines (values f size 0) (size / 16) 0
          else values f size 0)
  unfolding file_contents
  contents file f size bytes =
      rw (print_rows-number_lines (values f size 0) (size / 16) 0 (values-All f size 0 bytes)) refl

  -- Where a dump is set, its end is not more than 2 ^ 31 - 1 bytes behind its start, every
  -- address of it holds a byte and the file opens, `at_exit` writes it: for a name that ends in
  -- ".output", each full 16 bytes as a number in 32 hexadecimal digits on a line of its own, and
  -- for any other name the bytes. The exit status is the one given.
  pub at_exit-contents :
      (s : Cosim S) (d : Dump) (exit_code : ℕ) (f : ℕ → ℕ)
      → s.dump ≡ some d
      → is_neg (sub32 d.end_ d.start) ≡ false
      → ((j : ℕ) → f j < 256)
      → ((j : ℕ) → j < sub32 d.end_ d.start → Holds api laws s (add32 d.start j) (f j))
      → opens d.file ≡ true
      → at_exit api opens s exit_code
        ≡ ok (
          some (
            d.file,
            if sig_txt_file d.file
                then number_lines (values f (sub32 d.end_ d.start) 0) (sub32 d.end_ d.start / 16) 0
                else values f (sub32 d.end_ d.start) 0,
          ),
          exit_code,
        )
  unfolding at_exit exit_after dump_memory
  at_exit-contents s d exit_code f set positive bytes holds opened =
      ap (λ o. exit_after api opens s o exit_code) set
      ∙ rw
          (
            positive,
            read_range-values s d.start f (sub32 d.end_ d.start) 0 (λ j h. holds j (omega arith)),
            opened,
            contents d.file f (sub32 d.end_ d.start) bytes,
          )
          refl
