-- ===== src/Fs/Names/Holes.antt =====
-- `empty_dir` of fs/namei.c on a directory that has a block missing.
use linux_0_11_notes.Prelude.{Bool-cases, ap, arith, inl, inr, leb, suc, ℕ, ◌+◌, ◌/◌, ◌<◌, ◌∙◌, ◌≡◌}
use linux_0_11_notes.Fs.Inode.Blocks.{bmap-file_block, brelse-held, file_block, held}
use linux_0_11_notes.Fs.Inode.Bmap.{bmap, max_block}
use linux_0_11_notes.Fs.Names.Remove.{empty_from}
use linux_0_11_notes.Fs.Store.{
  Store, bind_at, bind_panics, brelse, panics, returns, take_else, take_then,
}

brelse-unused : (dev b : ℕ) (s : Store) → s.users dev b ≡ 0 → brelse dev b s ≡ panics
unfolding brelse
brelse-unused dev b s e = rw e

-- At a missing block `empty_dir` has given the last block back, and gives it back once more: if nobody
-- else uses that block it panics, also where the directory is empty.
pub empty_from_hole :
    (s : Store) (fuel i len nr b : ℕ)
    → nr < len
    → nr / 64 < max_block
    → s.users (s.inode i).dev b ≡ 0
    → file_block s i (nr / 64) ≡ 0
    → empty_from (suc (suc fuel)) i len nr b 64 (held (s.inode i).dev b s) ≡ panics
unfolding empty_from
empty_from_hole s fuel i len nr b lt small alone hole =
    let d : ℕ = (s.inode i).dev in
    let u : Store = held d b s in
    take_else (leb len nr) _ _ u (ground arith)
    ∙ bind_at (brelse d b) _ u s tt (brelse-held d b s)
    ∙ bind_at (bmap i (nr / 64)) _ s s 0
        (bmap-file_block s i (nr / 64) small ∙ ap (λ (n : ℕ). returns n s) hole)
    ∙ twice
  where
    twice : empty_from (suc fuel) i len (nr + 64) b 64 s ≡ panics
    twice =
        let d : ℕ = (s.inode i).dev in
        elim (Bool-cases (leb len (nr + 64))) [
          | inl past ↦
              take_then (leb len (nr + 64)) _ _ s past
              ∙ bind_panics (brelse d b) _ s (brelse-unused d b s alone)
          | inr more ↦
              take_else (leb len (nr + 64)) _ _ s more
              ∙ bind_panics (brelse d b) _ s (brelse-unused d b s alone)
        ]
