-- ===== src/Fs/Store/Layout.antt =====
-- An inode on the disk: struct d_inode of include/linux/fs.h, written and read back.
use linux_0_11_notes.Prelude.{
  ap, ap₂, arith, false, leb, ltb, true, ℕ, ◌%◌, ◌&&◌, ◌*◌, ◌+◌, ◌-◌, ◌/◌, ◌<◌, ◌==◌, ◌∙◌, ◌≡◌, ◌≤◌,
  ◌⊎◌,
}
use linux_0_11_notes.Fs.Store.{MInode}
use linux_0_11_notes.Fs.Store.Words.{byte, disk_byte, from_disk, to_disk}

-- The fields that go to the disk, and that they fit there.
pub record IsStored (n : MInode) : Type 0 where
  pub mode : n.mode < 65536
  pub uid : n.uid < 65536
  pub size : n.size < 0x1_0000_0000
  pub mtime : n.mtime < 0x1_0000_0000
  pub zone : (z : ℕ) → z < 9 → n.zone z < 65536

to_disk-in : (k o : ℕ) (n : MInode) (f : ℕ → ℕ) → o < 32 → to_disk k n f (k + o) ≡ disk_byte n o
unfolding to_disk
to_disk-in k o n f h =
    let t : (leb k (k + o) && ltb (k + o) (k + 32)) ≡ true = ground arith in
    let e : (k + o) - k ≡ o = omega arith in rw (t, e)

to_disk-out : (k j : ℕ) (n : MInode) (f : ℕ → ℕ) → (j < k) ⊎ (k + 32 ≤ j) → to_disk k n f j ≡ f j
unfolding to_disk
to_disk-out k j n f h = ground arith

two_bytes : (v : ℕ) → v < 65536 → byte v 0 + 256 * byte v 1 ≡ v
two_bytes v h = omega arith

four_bytes :
    (v : ℕ)
    → v < 0x1_0000_0000
    → byte v 0 + 256 * byte v 1 + 65536 * byte v 2 + 16777216 * byte v 3 ≡ v
four_bytes v h = omega arith

disk_byte-zone :
    (n : MInode) (o : ℕ) → 14 ≤ o → disk_byte n o ≡ byte (n.zone ((o - 14) / 2)) ((o - 14) % 2)
unfolding disk_byte
disk_byte-zone n o h =
    let a : ltb o 2 ≡ false = ground arith in
    let b : ltb o 4 ≡ false = ground arith in
    let c : ltb o 8 ≡ false = ground arith in
    let d : ltb o 12 ≡ false = ground arith in
    let e : (o == 12) ≡ false = ground arith in
    let f : (o == 13) ≡ false = ground arith in rw (a, b, c, d, e, f)

-- What an inode and one that was read from the disk have in common.
pub record SameStored (n m : MInode) : Type 0 where
  pub mode : m.mode ≡ n.mode
  pub uid : m.uid ≡ n.uid
  pub size : m.size ≡ n.size
  pub mtime : m.mtime ≡ n.mtime
  pub gid : m.gid ≡ n.gid
  pub nlinks : m.nlinks ≡ n.nlinks
  pub zone : (z : ℕ) → z < 9 → m.zone z ≡ n.zone z

module _ (k : ℕ) (n : MInode) (f : ℕ → ℕ) where
  abbrev written : ℕ → ℕ
  written = to_disk k n f

  first_byte : written k ≡ disk_byte n 0
  first_byte = ap written (omega arith) ∙ to_disk-in k 0 n f (omega arith)

  zone_bytes :
      (z : ℕ)
      → z < 9
      → (written (k + 14 + 2 * z) ≡ byte (n.zone z) 0)
        × (written (k + 15 + 2 * z) ≡ byte (n.zone z) 1)
  zone_bytes z h =
      let p : (14 + 2 * z - 14) / 2 ≡ z = omega arith in
      let q : (15 + 2 * z - 14) / 2 ≡ z = omega arith in
      let p' : (14 + 2 * z - 14) % 2 ≡ 0 = omega arith in
      let q' : (15 + 2 * z - 14) % 2 ≡ 1 = omega arith in
      let d : disk_byte n (14 + 2 * z) ≡ byte (n.zone z) 0 =
        disk_byte-zone n (14 + 2 * z) (omega arith)
        ∙ ap₂ (λ (a : ℕ) (b : ℕ). byte (n.zone a) b) p p' in
      let e : disk_byte n (15 + 2 * z) ≡ byte (n.zone z) 1 =
        disk_byte-zone n (15 + 2 * z) (omega arith)
        ∙ ap₂ (λ (a : ℕ) (b : ℕ). byte (n.zone a) b) q q' in
      (
        ap written (omega arith) ∙ to_disk-in k (14 + 2 * z) n f (omega arith) ∙ d,
        ap written (omega arith) ∙ to_disk-in k (15 + 2 * z) n f (omega arith) ∙ e,
      )

  stored : (o : ℕ) → o < 32 → to_disk k n f (k + o) ≡ disk_byte n o
  stored o h = to_disk-in k o n f h

  -- An inode that is written to its place of a block, and read from there, is the same in all that the
  -- disk keeps, whatever it was before.
  pub read-written : (m : MInode) → IsStored n → SameStored n (from_disk k (to_disk k n f) m)
  unfolding from_disk disk_byte
  read-written m v = record {
    mode = rw (first_byte, to_disk-in k 1 n f (omega arith)) (two_bytes n.mode v.mode);
    uid =
        rw (to_disk-in k 2 n f (omega arith), to_disk-in k 3 n f (omega arith))
          (two_bytes n.uid v.uid);
    size = ground (
      arith,
      stored 4 (omega arith),
      stored 5 (omega arith),
      stored 6 (omega arith),
      stored 7 (omega arith),
      four_bytes n.size v.size,
    );
    mtime = ground (
      arith,
      stored 8 (omega arith),
      stored 9 (omega arith),
      stored 10 (omega arith),
      stored 11 (omega arith),
      four_bytes n.mtime v.mtime,
    );
    gid = to_disk-in k 12 n f (omega arith);
    nlinks = to_disk-in k 13 n f (omega arith);
    zone = λ z h.
        let (a, b) = zone_bytes z h in
        let t : ltb z 9 ≡ true = ground arith in rw (t, a, b) (two_bytes (n.zone z) (v.zone z h));
  }
