-- ===== src/Fs/Descriptors/Tests.antt =====
-- Inputs for the theorems on descriptors.
use linux_0_11_notes.Prelude.{
  [], arith, done, if◌then◌else◌, no_bits, none, pos, refl, some, update, ℕ, ◌+◌, ◌==◌, ◌∷◌, ◌≡◌,
}
use linux_0_11_notes.Fs.Descriptors.{Files, sys_close}
use linux_0_11_notes.Fs.Descriptors.Count.{IsCounted, close-IsCounted, refs}

-- Descriptors 0 and 1 name file 7, which another task names too.
abbrev pub files : Files
files = record {
  filp = update (update (λ _. none) 0 (some 7)) 1 (some 7);
  close_on_exec = no_bits;
  count = update (λ _. 0) 7 3;
  flags = λ _. no_bits;
  node = λ i. i + 100;
  offset = λ _. 0;
  put = [];
}

abbrev pub others : ℕ → ℕ
others = update (λ _. 0) 7 1

pub files-IsCounted : IsCounted others files
unfolding refs
files-IsCounted file = ground arith

close-IsCounted_example :
    (f' : Files) × (sys_close 1 files ≡ done (pos 0, f'))
    × IsCounted others f'
    × (f'.filp 1 ≡ none)
    × (f'.put ≡ (if f'.count 7 == 0 then 107 ∷ [] else []))
close-IsCounted_example = close-IsCounted others 1 7 files files-IsCounted (omega arith) refl
