-- ===== src/Inodes.antt =====
-- xv6-riscv/kernel/fs.c, the layer of inodes: the table of inodes in use, inodes on disk, and the
-- blocks that an inode lists. A sleep lock that is taken shows as `spins`.
pub mod Table
use csse332_final_project.Base.{
  ℕ, zero, suc, ◌+◌, ◌-◌, ◌*◌, ◌/◌, ◌%◌, ◌^◌, Bool, true, false, not, ◌&&◌, ◌||◌, if◌then◌else◌,
  ltb, leb, ◌==◌, update, inc32, dec32, pos32,
}
use csse332_final_project.Run.{Cmd, ok, panic, fault, pure, fails, put_back, ◌>>=◌, ◌>>◌}
use csse332_final_project.Sleeplock.{acquiresleep, releasesleep, holdingsleep}
use csse332_final_project.Buffers.{Block, bread, brelse, modify}
use csse332_final_project.Log.{log_write}
use csse332_final_project.Blocks.{
  Superblock, Inode, Fs, on_log, on_buffers, contents, balloc, bfree,
}

abbrev pub ninode : ℕ
ninode = 50

abbrev pub ndirect : ℕ
ndirect = 12

abbrev pub nindirect : ℕ
nindirect = 256

-- Inodes per block, and the words of one.
abbrev pub ipb : ℕ
ipb = 16

abbrev pub dinode_words : ℕ
dinode_words = 16

-- IBLOCK(i, sb)
abbrev pub iblock : Superblock → ℕ → ℕ
iblock sb i = i / ipb + sb.inodestart

-- The first word of inode i in its block.
abbrev pub dinode_at : ℕ → ℕ
dinode_at i = i % ipb * dinode_words

abbrev pub low_half : ℕ → ℕ
low_half w = w % 2 ^ 16

abbrev pub high_half : ℕ → ℕ
high_half w = w / 2 ^ 16 % 2 ^ 16

-- The words of a struct dinode with the fields of `ip`.
abbrev pub dinode_word : Inode → ℕ → ℕ
dinode_word ip j =
    if j == 0
    then ip.type + ip.major * 2 ^ 16
    else if j == 1
    then ip.minor + ip.nlink * 2 ^ 16
    else if j == 2
    then ip.size
    else ip.addrs (j - 3)

abbrev pub put_dinode : ℕ → Inode → Block → Block
put_dinode i ip block = λ w.
    if leb (dinode_at i) w && ltb w (dinode_at i + dinode_words)
    then dinode_word ip (w - dinode_at i)
    else block w

abbrev pub get_dinode : ℕ → Block → Inode → Inode
get_dinode i block ip =
    let at = dinode_at i in
    record ip {
      type = low_half (block at);
      major = high_half (block at);
      minor = low_half (block (at + 1));
      nlink = high_half (block (at + 1));
      size = block (at + 2);
      addrs = λ j. if leb j ndirect then block (at + 3 + j) else ip.addrs j;
    }

abbrev pub load_inode : {A : Type 0} → ℕ → (Inode → A) → Cmd Fs A
load_inode p field s = if p == 0 then fault else ok (field (s.inode p)) s

abbrev pub edit_inode : ℕ → (Inode → Inode) → Cmd Fs (Unit {0})
edit_inode p f s =
    if p == 0 then fault else ok tt (record s { inode = update s.inode p (f (s.inode p)) })

pub lock_inode : ℕ → Cmd Fs (Unit {0})
lock_inode p s =
    put_back (λ lk. record s { inode = update s.inode p (record (s.inode p) { lock = lk }) })
      (acquiresleep s.pid (s.inode p).lock)

pub unlock_inode : ℕ → Cmd Fs (Unit {0})
unlock_inode p = edit_inode p (λ r. record r { lock = releasesleep r.lock })

-- The scan of iget over the `n` entries from `p` on: the entry of inode `inum`, as (p, true), or the
-- first free one, as (p, false), which is `empty` if one has been seen.
pub find_inode : ℕ → ℕ → ℕ → ℕ → (ℕ → Inode) → ℕ × Bool
find_inode zero p empty inum table = (empty, false)
find_inode (suc n) p empty inum table =
    let rest =
      find_inode n (p + 1) (if (empty == 0) && ((table p).ref == 0) then p else empty) inum table in
    if pos32 (table p).ref && ((table p).inum == inum) then (p, true) else rest

unfoldable pub iget : ℕ → Cmd Fs ℕ
unfolding find_inode
iget inum s =
    let (p, found) = find_inode ninode 1 0 inum s.inode in
    if found
    then (do edit_inode p (λ r. record r { ref = inc32 r.ref }); pure p) s
    else if p == 0
    then panic
    else (do edit_inode p (λ r. record r { inum = inum; ref = 1; valid = false }); pure p) s

unfoldable pub idup : ℕ → Cmd Fs ℕ
idup p = do edit_inode p (λ r. record r { ref = inc32 r.ref }); pure p

-- The loop of ialloc with `n` inodes left.
pub ialloc_from : ℕ → ℕ → ℕ → Cmd Fs ℕ
unfolding iget
ialloc_from zero inum type = pure 0
ialloc_from (suc n) inum type = do
  sb ← λ s. ok s.sb s
  let bp = iblock sb inum
  on_buffers (bread bp)
  block ← contents bp
  elim (low_half (block (dinode_at inum)) == 0) [
    | false ↦ (do on_buffers (brelse bp); ialloc_from n (inum + 1) type)
    | true ↦ (do
      on_buffers (
          modify bp (λ old w.
            if leb (dinode_at inum) w && ltb w (dinode_at inum + dinode_words)
            then (if w == dinode_at inum then type else 0)
            else old w))
      on_log (log_write bp)
      on_buffers (brelse bp)
      iget inum)
  ]

unfoldable pub ialloc : ℕ → Cmd Fs ℕ
unfolding ialloc_from
ialloc type s = ialloc_from (s.sb.ninodes - 1) 1 type s

unfoldable pub iupdate : ℕ → Cmd Fs (Unit {0})
iupdate p = do
  ip ← load_inode p (λ r. r)
  sb ← λ s. ok s.sb s
  let bp = iblock sb ip.inum
  on_buffers (bread bp)
  on_buffers (modify bp (put_dinode ip.inum ip))
  on_log (log_write bp)
  on_buffers (brelse bp)

unfoldable pub ilock : ℕ → Cmd Fs (Unit {0})
unfolding lock_inode
ilock p s =
    if (p == 0) || not (pos32 (s.inode p).ref)
    then panic
    else (do
      lock_inode p
      valid ← load_inode p (λ r. r.valid)
      if valid then pure tt else (do
        inum ← load_inode p (λ r. r.inum)
        sb ← λ s. ok s.sb s
        let bp = iblock sb inum
        on_buffers (bread bp)
        block ← contents bp
        edit_inode p (get_dinode inum block)
        on_buffers (brelse bp)
        edit_inode p (λ r. record r { valid = true })
        type ← load_inode p (λ r. r.type)
        if type == 0 then fails else pure tt))
        s

unfoldable pub iunlock : ℕ → Cmd Fs (Unit {0})
unfolding unlock_inode
iunlock p s =
    if (p == 0) || (not (holdingsleep s.pid (s.inode p).lock) || not (pos32 (s.inode p).ref))
    then panic
    else unlock_inode p s

-- The loop of itrunc over the direct blocks from index `i` on.
pub free_direct : ℕ → ℕ → ℕ → Cmd Fs (Unit {0})
free_direct zero p i = pure tt
free_direct (suc n) p i = do
  addr ← load_inode p (λ r. r.addrs i)
  (if addr == 0
      then pure tt
      else (do bfree addr; edit_inode p (λ r. record r { addrs = update r.addrs i 0 })))
  free_direct n p (i + 1)

-- Its loop over the entries of the indirect block `bp`.
pub free_indirect : ℕ → ℕ → ℕ → Cmd Fs (Unit {0})
free_indirect zero bp j = pure tt
free_indirect (suc n) bp j = do
  a ← contents bp
  (if a j == 0 then pure tt else bfree (a j))
  free_indirect n bp (j + 1)

unfoldable pub itrunc : ℕ → Cmd Fs (Unit {0})
unfolding free_direct free_indirect iupdate
itrunc p = do
  free_direct ndirect p 0
  bp ← load_inode p (λ r. r.addrs ndirect)
  (if bp == 0 then pure tt else (do
    on_buffers (bread bp)
    free_indirect nindirect bp 0
    on_buffers (brelse bp)
    bfree bp
    edit_inode p (λ r. record r { addrs = update r.addrs ndirect 0 })))
  edit_inode p (λ r. record r { size = 0 })
  iupdate p

unfoldable pub iput : ℕ → Cmd Fs (Unit {0})
unfolding lock_inode unlock_inode itrunc iupdate
iput p = do
  ip ← load_inode p (λ r. r)
  (if (ip.ref == 1) && (ip.valid && (ip.nlink == 0))
      then (do
        lock_inode p
        itrunc p
        edit_inode p (λ r. record r { type = 0 })
        iupdate p
        edit_inode p (λ r. record r { valid = false })
        unlock_inode p)
      else pure tt)
  edit_inode p (λ r. record r { ref = dec32 r.ref })

unfoldable pub iunlockput : ℕ → Cmd Fs (Unit {0})
unfolding iunlock iput
iunlockput p = do iunlock p; iput p

-- The direct half of bmap.
pub bmap_direct : ℕ → ℕ → Cmd Fs ℕ
bmap_direct p bn = do
  addr ← load_inode p (λ r. r.addrs bn)
  if not (addr == 0) then pure addr else (do
    new ← balloc
    if new == 0
        then pure 0
        else (do edit_inode p (λ r. record r { addrs = update r.addrs bn new }); pure new))

-- Entry `bn` of the indirect block `bp`.
pub bmap_entry : ℕ → ℕ → Cmd Fs ℕ
bmap_entry bp bn = do
  on_buffers (bread bp)
  a ← contents bp
  addr ← if not (a bn == 0) then pure (a bn) else (do
    new ← balloc
    (if new == 0
        then pure tt
        else (do on_buffers (modify bp (λ b. update b bn new)); on_log (log_write bp)))
    pure new)
  on_buffers (brelse bp)
  pure addr

unfoldable pub bmap : ℕ → ℕ → Cmd Fs ℕ
unfolding bmap_direct bmap_entry
bmap p bn =
    if ltb bn ndirect
    then bmap_direct p bn
    else if ltb (bn - ndirect) nindirect
    then (do bp ← bmap_direct p ndirect; if bp == 0 then pure 0 else bmap_entry bp (bn - ndirect))
    else fails
