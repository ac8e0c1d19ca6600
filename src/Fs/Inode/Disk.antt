-- ===== src/Fs/Inode/Disk.antt =====
-- `write_inode` and `read_inode` of fs/inode.c: an inode comes back from the disk as it was.
use linux_0_11_notes.Prelude.{
  ap, ap₂, arith, false, not, some, subst, sym, true, update, update_ne, update_self, ℕ, ◌==◌, ◌||◌,
  ◌∙◌, ◌≡◌,
}
use linux_0_11_notes.Fs.Inode.{
  inode_block, inode_place, lock_inode, read_inode, wait_on_inode, write_inode,
}
use linux_0_11_notes.Fs.Inode.Blocks.{bread-good, brelse-held, held}
use linux_0_11_notes.Fs.Store.{
  MInode, Store, bind_at, bread, brelse, find_super, get_super, nr_super, returns, set_inode,
  take_else, update_at,
}
use linux_0_11_notes.Fs.Store.Layout.{IsStored, SameStored, read-written}
use linux_0_11_notes.Fs.Store.Words.{from_disk, to_disk}

get_super-some :
    (dev k : ℕ) (s : Store)
    → ¬ (dev ≡ 0)
    → find_super nr_super 0 dev s.super ≡ some k
    → (s.super k).lock ≡ false
    → get_super dev s ≡ returns (some k) s
unfolding get_super
get_super-some dev k s nz f u = let z : (dev == 0) ≡ false = ground arith in rw (z, f, u)

module _ (s : Store) (i k : ℕ) (free : (s.inode i).lock ≡ false) where
  abbrev n : MInode
  n = s.inode i

  -- The inode while it is locked.
  abbrev locked : Store
  locked = set_inode i (record n { lock = true }) s

  abbrev m : MInode
  m = locked.inode i

  same : m ≡ record n { lock = true }
  same = update_self s.inode i (record n { lock = true })

  wait_lem : wait_on_inode i s ≡ returns tt s
  unfolding wait_on_inode
  wait_lem = rw free

  lock_lem : lock_inode i s ≡ returns tt locked
  unfolding lock_inode
  lock_lem = bind_at (wait_on_inode i) _ s s tt wait_lem

  abbrev b : ℕ
  b = inode_block (s.super k) m.num

  abbrev stored : Store
  stored = record locked {
    content = update_at s.content m.dev b (to_disk (inode_place m.num) m (s.content m.dev b));
    dirty = update_at s.dirty m.dev b true;
  }

  abbrev clean : Store
  clean = set_inode i (record (stored.inode i) { dirt = false }) stored

  abbrev after_write : Store
  after_write = set_inode i (record (clean.inode i) { lock = false }) clean

  write_lem :
      n.dirt ≡ true
      → ¬ (n.dev ≡ 0)
      → find_super nr_super 0 n.dev s.super ≡ some k
      → (s.super k).lock ≡ false
      → s.broken n.dev (inode_block (s.super k) n.num) ≡ false
      → write_inode i s ≡ returns tt after_write
  unfolding write_inode
  write_lem dirty has_dev sb unlocked good =
      let dirt : m.dirt ≡ true = ap (λ (x : MInode). x.dirt) same ∙ dirty in
      let dev : m.dev ≡ n.dev = ap (λ (x : MInode). x.dev) same in
      let nr : m.num ≡ n.num = ap (λ (x : MInode). x.num) same in
      let good' : s.broken m.dev b ≡ false =
        ap₂ (λ (d : ℕ) (r : ℕ). s.broken d (inode_block (s.super k) r)) dev nr ∙ good in
      bind_at (lock_inode i) _ s locked tt lock_lem
      ∙ take_else (not m.dirt || m.dev == 0) _ _ locked (ground arith)
      ∙ bind_at (get_super m.dev) _ locked locked (some k) (
          get_super-some m.dev k locked (ground arith)
            (ap (λ (d : ℕ). find_super nr_super 0 d s.super) dev ∙ sb) unlocked)
      ∙ bind_at (bread m.dev b) _ locked (held m.dev b locked) true
          (bread-good m.dev b locked good')
      ∙ bind_at (brelse m.dev b) _ (held m.dev b clean) clean tt (brelse-held m.dev b clean)

  abbrev loaded_from : Store
  loaded_from = set_inode i (from_disk (inode_place m.num) (s.content m.dev b) m) locked

  abbrev after_read : Store
  after_read = set_inode i (record (loaded_from.inode i) { lock = false }) loaded_from

  read_lem :
      ¬ (n.dev ≡ 0)
      → find_super nr_super 0 n.dev s.super ≡ some k
      → (s.super k).lock ≡ false
      → s.broken n.dev (inode_block (s.super k) n.num) ≡ false
      → read_inode i s ≡ returns tt after_read
  unfolding read_inode
  read_lem has_dev sb unlocked good =
      let dev : m.dev ≡ n.dev = ap (λ (x : MInode). x.dev) same in
      let nr : m.num ≡ n.num = ap (λ (x : MInode). x.num) same in
      let good' : s.broken m.dev b ≡ false =
        ap₂ (λ (d : ℕ) (r : ℕ). s.broken d (inode_block (s.super k) r)) dev nr ∙ good in
      bind_at (lock_inode i) _ s locked tt lock_lem
      ∙ bind_at (get_super m.dev) _ locked locked (some k) (
          get_super-some m.dev k locked (ground arith)
            (ap (λ (d : ℕ). find_super nr_super 0 d s.super) dev ∙ sb) unlocked)
      ∙ bind_at (bread m.dev b) _ locked (held m.dev b locked) true
          (bread-good m.dev b locked good')
      ∙ bind_at (brelse m.dev b) _ (held m.dev b loaded_from) loaded_from tt
          (brelse-held m.dev b loaded_from)

  -- The slot afterwards.
  read_slot :
      after_read.inode i
      ≡ record (from_disk (inode_place m.num) (s.content m.dev b) m) { lock = false }
  read_slot =
      update_self loaded_from.inode i (record (loaded_from.inode i) { lock = false })
      ∙ ap (λ (x : MInode). record x { lock = false })
          (update_self locked.inode i (from_disk (inode_place m.num) (s.content m.dev b) m))

unlocked_stored : (n x : MInode) → SameStored n x → SameStored n (record x { lock = false })
unlocked_stored n x v = record {
  mode = v.mode;
  uid = v.uid;
  size = v.size;
  mtime = v.mtime;
  gid = v.gid;
  nlinks = v.nlinks;
  zone = v.zone;
}

locked_stored : (n x : MInode) → SameStored (record n { lock = true }) x → SameStored n x
locked_stored n x v = record {
  mode = v.mode;
  uid = v.uid;
  size = v.size;
  mtime = v.mtime;
  gid = v.gid;
  nlinks = v.nlinks;
  zone = v.zone;
}

locked_IsStored : (n : MInode) → IsStored n → IsStored (record n { lock = true })
locked_IsStored n v = record {
  mode = v.mode;
  uid = v.uid;
  size = v.size;
  mtime = v.mtime;
  zone = v.zone;
}

update_at_self {ℓ} : {A : Type ℓ} (f : ℕ → ℕ → A) (d b : ℕ) (v : A) → update_at f d b v d b ≡ v
update_at_self f d b v = ap (λ g. g b) (update_self f d (update (f d) b v)) ∙ update_self (f d) b v

-- What is read in another slot, where the block has the bytes of the inode.
stored_again :
    (n a mw : MInode) (p p' : ℕ) (c f : ℕ → ℕ)
    → a ≡ record n { lock = true }
    → IsStored n
    → p' ≡ p
    → c ≡ to_disk p a f
    → SameStored n (from_disk p' c mw)
stored_again n a mw p p' c f e v q r =
    subst (λ x. SameStored n (from_disk x c mw)) (sym q)
      (subst (λ x. SameStored n (from_disk p x mw)) (sym r)
        (subst (λ x. SameStored n (from_disk p (to_disk p x f) mw)) (sym e)
          (locked_stored n _
            (read-written p (record n { lock = true }) f mw (locked_IsStored n v)))))

-- An inode that `write_inode` has written and `read_inode` reads into another slot, which was given the
-- same device and number, is the same there in all that the disk keeps: mode, owner, size, time, links
-- and zones. Both calls return, if the device has its super block and can read the block, and nobody
-- holds the inodes or the super block locked.
pub write-read :
    (s : Store) (i j k : ℕ)
    → ¬ (j ≡ i)
    → (s.inode i).lock ≡ false
    → (s.inode i).dirt ≡ true
    → ¬ ((s.inode i).dev ≡ 0)
    → IsStored (s.inode i)
    → (s.inode j).lock ≡ false
    → (s.inode j).dev ≡ (s.inode i).dev
    → (s.inode j).num ≡ (s.inode i).num
    → find_super nr_super 0 (s.inode i).dev s.super ≡ some k
    → (s.super k).lock ≡ false
    → s.broken (s.inode i).dev (inode_block (s.super k) (s.inode i).num) ≡ false
    → (w : Store) × (t : Store) × (write_inode i s ≡ returns tt w)
      × (read_inode j w ≡ returns tt t)
      × SameStored (s.inode i) (t.inode j)
write-read s i j k other free dirty has_dev fits free' dev nr sb unlocked good =
    let w : Store = after_write s i k free in
    let a : MInode = m s i k free in
    let e : w.inode j ≡ s.inode j =
      update_ne (clean s i k free).inode i j _ other
      ∙ update_ne (stored s i k free).inode i j _ other
      ∙ update_ne s.inode i j _ other in
    let f : (w.inode j).lock ≡ false = ap (λ (x : MInode). x.lock) e ∙ free' in
    let d : (w.inode j).dev ≡ (s.inode i).dev = ap (λ (x : MInode). x.dev) e ∙ dev in
    let r : (w.inode j).num ≡ (s.inode i).num = ap (λ (x : MInode). x.num) e ∙ nr in
    let mw : MInode = m w j k f in
    let dw : mw.dev ≡ a.dev =
      ap (λ (x : MInode). x.dev) (same w j k f)
      ∙ d
      ∙ sym (ap (λ (x : MInode). x.dev) (same s i k free)) in
    let nw : mw.num ≡ a.num =
      ap (λ (x : MInode). x.num) (same w j k f)
      ∙ r
      ∙ sym (ap (λ (x : MInode). x.num) (same s i k free)) in
    let c : w.content mw.dev (inode_block (s.super k) mw.num)
        ≡ to_disk (inode_place a.num) a (s.content a.dev (b s i k free)) =
      ap₂ (λ (x : ℕ) (y : ℕ). w.content x (inode_block (s.super k) y)) dw nw
      ∙ update_at_self s.content a.dev (b s i k free) _ in
    (
      w,
      after_read w j k f,
      write_lem s i k free dirty has_dev sb unlocked good,
      read_lem w j k f (ground arith) (ap (λ (x : ℕ). find_super nr_super 0 x s.super) d ∙ sb)
          unlocked (ap₂ (λ (x : ℕ) (y : ℕ). s.broken x (inode_block (s.super k) y)) d r ∙ good),
      subst (SameStored (s.inode i)) (sym (read_slot w j k f)) (
          unlocked_stored (s.inode i) _ (
            stored_again (s.inode i) a mw (inode_place a.num) (inode_place mw.num) _ _
              (same s i k free) fits (ap inode_place nw) c)),
    )
