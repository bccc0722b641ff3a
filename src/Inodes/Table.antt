-- ===== src/Inodes/Table.antt =====
-- The table of inodes: what iget finds in it and makes of it.
use csse332_final_project.Base.{
  upto, ℕ, zero, suc, ◌+◌, ◌^◌, ◌<◌, ◌≤◌, ◌≡◌, ◌≢◌, ◌⊎◌, refl, ◌∙◌, sym, subst, inl, inr,
  Bool-cases, Bool, true, false, ◌&&◌, if◌then◌else◌, ◌==◌, arith, ==→eq, ==-ne, eq→==, ne→==,
  inc32, pos32, update, All,
}
use csse332_final_project.Run.{ok, panic, pure, ◌>>◌}
use csse332_final_project.Blocks.{Inode, Fs}
use csse332_final_project.Inodes.{ninode, find_inode, iget, edit_inode}

abbrev pub is_active : ℕ → Inode → Bool
is_active inum r = pos32 r.ref && (r.inum == inum)

-- What the scan of the entries from p to e finds, if `empty` is what has been seen before.
data Scan (p e empty inum : ℕ) (table : ℕ → Inode) : ℕ × Bool → Type 0 where
  hit :
      (q : ℕ)
      → p ≤ q
      → q < e
      → is_active inum (table q) ≡ true
      → Scan p e empty inum table (q, true)
  seen :
      ((q : ℕ) → p ≤ q → q < e → is_active inum (table q) ≡ false)
      → empty ≢ 0
      → Scan p e empty inum table (empty, false)
  unused :
      (v : ℕ)
      → ((q : ℕ) → p ≤ q → q < e → is_active inum (table q) ≡ false)
      → p ≤ v
      → v < e
      → (table v).ref ≡ 0
      → Scan p e empty inum table (v, false)
  full :
      ((q : ℕ) → p ≤ q → q < e → is_active inum (table q) ≡ false)
      → ((q : ℕ) → p ≤ q → q < e → (table q).ref ≢ 0)
      → empty ≡ 0
      → Scan p e empty inum table (0, false)

from-here :
    {P : ℕ → Type 0} (p e : ℕ)
    → P p
    → ((q : ℕ) → p + 1 ≤ q → q < e → P q)
    → (q : ℕ) → p ≤ q
    → q < e
    → P q
from-here {P = P} p e here rest q a b = elim (Bool-cases (p == q)) [
  | inl same ↦ subst P (==→eq p q same) here
  | inr other ↦ let ne = ==-ne p q other in rest q (omega arith) b
]

-- The entry p is none for the inode; `now` is what has been seen behind it.
module _ (p e empty now inum : ℕ) (table : ℕ → Inode) (here : is_active inum (table p) ≡ false)
    (pz : p ≢ 0) (lt : p < e)
    (first : now ≡ (if (empty == 0) && ((table p).ref == 0) then p else empty)) where
  widen-seen :
      ((q : ℕ) → p + 1 ≤ q → q < e → is_active inum (table q) ≡ false)
      → now ≢ 0
      → Scan p e empty inum table (now, false)
  widen-seen none nz = elim (Bool-cases ((empty == 0) && ((table p).ref == 0))) [
    | inl takes ↦
        let now_p : now ≡ p = first ∙ rw takes refl in
        subst (λ x. Scan p e empty inum table (x, false)) (sym now_p)
          (unused p (from-here p e here none) (omega arith) lt (ground arith))
    | inr keeps ↦
        let now_empty : now ≡ empty = first ∙ rw keeps refl in
        subst (λ x. Scan p e empty inum table (x, false)) (sym now_empty)
          (seen (from-here p e here none) (λ z. nz (now_empty ∙ z)))
  ]

  empty-here : now ≡ 0 → (empty ≡ 0) × ((table p).ref ≢ 0)
  empty-here z = (ground arith, ground arith)

  widen : (r : ℕ × Bool) → Scan (p + 1) e now inum table r → Scan p e empty inum table r
  widen r (hit q a b is) = hit q (omega arith) b is
  widen r (seen none nz) = widen-seen none nz
  widen r (unused v none a b free) = unused v (from-here p e here none) (omega arith) b free
  widen r (full none used z) =
      full (from-here p e here none) (from-here p e (empty-here z).1 used) (empty-here z).0

find_inode-Scan :
    (n p e empty inum : ℕ) (table : ℕ → Inode)
    → p ≢ 0
    → e ≡ p + n
    → Scan p e empty inum table (find_inode n p empty inum table)
unfolding find_inode
find_inode-Scan zero p e empty inum table pz eq = elim (Bool-cases (empty == 0)) [
  | inl z ↦
      subst (λ x. Scan p e empty inum table (x, false)) (sym (==→eq empty 0 z))
        (full (λ q a b. absurd (omega arith)) (λ q a b. absurd (omega arith)) (==→eq empty 0 z))
  | inr some ↦ seen (λ q a b. absurd (omega arith)) (==-ne empty 0 some)
]
find_inode-Scan (suc n) p e empty inum table pz eq =
    let now = if (empty == 0) && ((table p).ref == 0) then p else empty in
    elim (Bool-cases (is_active inum (table p))) [
      | inl is ↦ rw is (hit p (omega arith) (omega arith) is)
      | inr isnt ↦ rw isnt (
          widen p e empty now inum table isnt pz (omega arith) refl
            (find_inode n (p + 1) now inum table)
            (find_inode-Scan n (p + 1) e now inum table (omega arith) (omega arith)))
    ]

-- Two entries that are in use are for two inodes.
pub record IsTable (table : ℕ → Inode) : Type 0 where
  pub once :
      (p q : ℕ)
      → 0 < p
      → p ≤ ninode
      → 0 < q
      → q ≤ ninode
      → pos32 (table p).ref ≡ true
      → pos32 (table q).ref ≡ true
      → (table p).inum ≡ (table q).inum
      → p ≡ q

All-upto : (P : ℕ → Type 0) (n e : ℕ) → n < e → ((q : ℕ) → 1 ≤ q → q < e → P q) → All P (upto n)
All-upto P zero e lt h = tt
All-upto P (suc n) e lt h = (h (suc n) (omega arith) lt, All-upto P n e (omega arith) h)

abbrev with_inode : ℕ → Inode → Fs → Fs
with_inode p r s = record s { inode = update s.inode p r }

edit-ok :
    (p : ℕ) (f : Inode → Inode) (s : Fs)
    → p ≢ 0
    → (do edit_inode p f; pure p) s ≡ ok p (with_inode p (f (s.inode p)) s)
edit-ok p f s nz = rw (ne→== p 0 nz) refl

-- What iget gives: an entry that is in use for the inode.
abbrev pub Got : ℕ → ℕ → Fs → Type 0
Got inum p t = (0 < p) × (p ≤ ninode) × (is_active inum (t.inode p) ≡ true) × IsTable t.inode

taken-active :
    (v inum : ℕ) (table : ℕ → Inode)
    → is_active inum (update table v (record (table v) { inum = inum; ref = 1; valid = false }) v)
      ≡ true
taken-active v inum table = rw (eq→== v v refl, eq→== inum inum refl) refl

raise-IsTable :
    (p : ℕ) (table : ℕ → Inode)
    → IsTable table
    → pos32 (table p).ref ≡ true
    → IsTable (update table p (record (table p) { ref = inc32 (table p).ref }))
raise-IsTable p table is used = record {
  once = λ a b la ma lb mb ua ub e.
      is.once a b la ma lb mb (ground arith) (ground arith) (ground arith);
}

take-IsTable :
    (p inum : ℕ) (table : ℕ → Inode)
    → IsTable table
    → ((q : ℕ) → 1 ≤ q → q < ninode + 1 → is_active inum (table q) ≡ false)
    → IsTable (update table p (record (table p) { inum = inum; ref = 1; valid = false }))
take-IsTable p inum table is none = record {
  once = λ a b la ma lb mb ua ub e.
      let none_a = none a (omega arith) (omega arith) in
      let none_b = none b (omega arith) (omega arith) in
      elim (Bool-cases (p == a)) [
        | inl pa ↦ elim (Bool-cases (p == b)) [
          | inl pb ↦ sym (==→eq p a pa) ∙ ==→eq p b pb
          | inr pb ↦ ground arith
        ]
        | inr pa ↦ elim (Bool-cases (p == b)) [
          | inl pb ↦ ground arith
          | inr pb ↦ is.once a b la ma lb mb (ground arith) (ground arith) (ground arith)
        ]
      ];
}

iget-Scan :
    (inum : ℕ) (s : Fs)
    → IsTable s.inode
    → ((p : ℕ) → (s.inode p).ref + 1 < 2 ^ 31)
    → (r : ℕ × Bool) → find_inode ninode 1 0 inum s.inode ≡ r
    → Scan 1 (ninode + 1) 0 inum s.inode r
    → ((iget inum s ≡ panic)
        × All (λ q. is_active inum (s.inode q) ≡ false) (upto ninode)
        × All (λ q. (s.inode q).ref ≢ 0) (upto ninode))
      ⊎ ((p : ℕ) × (t : Fs) × (iget inum s ≡ ok p t) × Got inum p t)
unfolding iget
iget-Scan inum s is few r e (hit q a b act) =
    let small = few q in
    inr (
      q,
      with_inode q (record (s.inode q) { ref = inc32 (s.inode q).ref }) s,
      rw e (edit-ok q (λ r. record r { ref = inc32 r.ref }) s (omega arith)),
      (omega arith, omega arith, ground arith, raise-IsTable q s.inode is (ground arith)),
    )
iget-Scan inum s is few r e (seen none nz) = absurd (nz refl)
iget-Scan inum s is few r e (unused v none a b free) = inr (
  v,
  with_inode v (record (s.inode v) { inum = inum; ref = 1; valid = false }) s,
  rw (e, ne→== v 0 (omega arith)) refl,
  (omega arith, omega arith, taken-active v inum s.inode, take-IsTable v inum s.inode is none),
)
iget-Scan inum s is few r e (full none used z) = inl (
  rw e refl,
  All-upto _ ninode (ninode + 1) (omega arith) none,
  All-upto _ ninode (ninode + 1) (omega arith) used,
)

-- Where no inode has two entries in use, and no count can grow past an int, iget either panics, and
-- then every entry is in use and none for the inode, or it returns an entry of the table that is in
-- use for the inode. Then, too, no inode has two entries in use.
pub iget-IsTable :
    (inum : ℕ) (s : Fs)
    → IsTable s.inode
    → ((p : ℕ) → (s.inode p).ref + 1 < 2 ^ 31)
    → ((iget inum s ≡ panic)
        × All (λ q. is_active inum (s.inode q) ≡ false) (upto ninode)
        × All (λ q. (s.inode q).ref ≢ 0) (upto ninode))
      ⊎ ((p : ℕ) × (t : Fs) × (iget inum s ≡ ok p t) × Got inum p t)
iget-IsTable inum s is few =
    iget-Scan inum s is few (find_inode ninode 1 0 inum s.inode) refl
      (find_inode-Scan ninode 1 (ninode + 1) 0 inum s.inode (omega arith) (omega arith))
