-- ===== src/Thread/Tables.antt =====
-- The table of processes that link_thread and unlink_thread leave, and its rings in both directions.
use csse332_final_project.Base.{
  ap, ℕ, ◌≡◌, ◌∙◌, ◌≢◌, List, [], ◌∷◌, All, if◌then◌else◌, ◌==◌, arith, update, subst, sym, dec32,
}
use csse332_final_project.Kernel.{Proc}
use csse332_final_project.Thread.Family.{Links, IsRing}

-- From `y` on the previous slots of `qs` lead back to it, and `leader` is behind the last of them.
abbrev pub Backs : (ℕ → Proc) → ℕ → ℕ → List ℕ → Type 0
Backs ps leader y [] = (ps leader).group_prev ≡ y
Backs ps leader y (q ∷ qs) = ((ps q).group_prev ≡ y) × Backs ps leader q qs

-- A ring in both directions.
pub record IsLoop (ps : ℕ → Proc) (leader : ℕ) (rest : List ℕ) : Type 0 where
  pub ring : IsRing ps leader rest
  pub backs : Backs ps leader leader rest

-- The table that link_thread leaves.
abbrev pub linked : ℕ → ℕ → (ℕ → Proc) → ℕ → Proc
linked np leader ps =
    let next = (ps leader).group_next in
    let one = update ps np (record (ps np) {
      tid = (ps leader).num_children;
      group_leader = leader;
      group_prev = leader;
      group_next = next;
    }) in
    let two = update one next (record (one next) { group_prev = np }) in
    update two leader (record (two leader) { group_next = np })

abbrev pub unlinked : ℕ → ℕ → (ℕ → Proc) → ℕ → Proc
unlinked np leader ps =
    let next = (ps np).group_next in
    let one = update ps leader (record (ps leader) { group_next = next }) in
    let two = update one next (record (one next) { group_prev = leader }) in
    update two leader (record (two leader) {
      num_children = dec32 (two leader).num_children;
      ref_count = dec32 (two leader).ref_count;
    })

pub next-unlinked :
    (np leader q : ℕ) (ps : ℕ → Proc)
    → (unlinked np leader ps q).group_next
      ≡ (if q == leader then (ps np).group_next else (ps q).group_next)
next-unlinked np leader q ps = ground arith

-- The null test and the successor of a slot in a ring.
pub next-nonnull :
    (ps : ℕ → Proc) (leader p : ℕ) (qs : List ℕ) → leader ≢ 0 → Links ps leader p qs → p ≢ 0
next-nonnull ps leader p [] lz e = λ z. lz (sym e ∙ z)
next-nonnull ps leader p (q ∷ qs) lz (e, nz, ne, l) = λ z. nz (sym e ∙ z)

pub Links-unlinked :
    (np leader p : ℕ) (rest : List ℕ) (ps : ℕ → Proc)
    → Links ps leader p rest
    → Links (unlinked np leader ps) leader p rest
Links-unlinked np leader p [] ps l = l
Links-unlinked np leader p (q ∷ rest) ps (e, nz, ql, l) = (
  e,
  nz,
  ql,
  subst (λ n. Links (unlinked np leader ps) leader n rest)
      (ground (arith, next-unlinked np leader q ps))
      (Links-unlinked np leader (ps q).group_next rest ps l),
)

pub next-linked :
    (np leader q : ℕ) (ps : ℕ → Proc)
    → np ≢ leader
    → (linked np leader ps q).group_next
      ≡ (if q == leader then np else if q == np then (ps leader).group_next else (ps q).group_next)
next-linked np leader q ps ne = ground arith

pub Links-linked :
    (np leader p : ℕ) (rest : List ℕ) (ps : ℕ → Proc)
    → np ≢ leader
    → All (λ q. q ≢ np) rest
    → Links ps leader p rest
    → Links (linked np leader ps) leader p rest
Links-linked np leader p [] ps ne fresh l = l
Links-linked np leader p (q ∷ rest) ps ne fresh (e, nz, ql, l) = (
  e,
  nz,
  ql,
  subst (λ n. Links (linked np leader ps) leader n rest)
      (ground (arith, next-linked np leader q ps ne, fresh.0))
      (Links-linked np leader (ps q).group_next rest ps ne fresh.1 l),
)

pub prev-linked :
    (np leader q : ℕ) (ps : ℕ → Proc)
    → (linked np leader ps q).group_prev
      ≡ (if q == (ps leader).group_next then np else if q == np then leader else (ps q).group_prev)
prev-linked np leader q ps = ground arith

Backs-linked :
    (np leader p y : ℕ) (rest : List ℕ) (ps : ℕ → Proc)
    → np ≢ leader
    → (ps leader).group_next ≢ leader
    → (ps (ps leader).group_next).group_prev ≡ leader
    → y ≢ leader
    → All (λ q. q ≢ np) rest
    → Links ps leader p rest
    → Backs ps leader y rest
    → Backs (linked np leader ps) leader y rest
Backs-linked np leader p y [] ps ne far back yl fresh l b =
    ground (arith, prev-linked np leader leader ps)
Backs-linked np leader p y (q ∷ rest) ps ne far back yl fresh (e, nz, ql, l) (b, bs) = (
  ground (arith, prev-linked np leader q ps, other, fresh.0),
  Backs-linked np leader (ps q).group_next q rest ps ne far back ql fresh.1 l bs,
)
  where
    other : q ≢ (ps leader).group_next
    other same = yl (sym b ∙ ap (λ x. (ps x).group_prev) same ∙ back)

pub loop-linked :
    (np leader : ℕ) (rest : List ℕ) (ps : ℕ → Proc)
    → np ≢ leader
    → All (λ q. q ≢ np) rest
    → Links ps leader (ps leader).group_next rest
    → Backs ps leader leader rest
    → Backs (linked np leader ps) leader np rest
loop-linked np leader [] ps ne fresh l b = ground (arith, prev-linked np leader leader ps)
loop-linked np leader (q ∷ rest) ps ne fresh (e, nz, ql, l) (b, bs) = (
  ground (arith, prev-linked np leader q ps),
  Backs-linked np leader (ps q).group_next q rest ps ne (λ same. ql (sym e ∙ same))
      (ap (λ x. (ps x).group_prev) e ∙ b) ql fresh.1 l bs,
)

prev-unlinked :
    (np leader q : ℕ) (ps : ℕ → Proc)
    → (unlinked np leader ps q).group_prev
      ≡ (if q == (ps np).group_next then leader else (ps q).group_prev)
prev-unlinked np leader q ps = ground arith

Backs-unlinked :
    (np leader y : ℕ) (rest : List ℕ) (ps : ℕ → Proc)
    → (ps np).group_next ≢ leader
    → (ps (ps np).group_next).group_prev ≡ np
    → y ≢ np
    → All (λ q. q ≢ np) rest
    → Backs ps leader y rest
    → Backs (unlinked np leader ps) leader y rest
Backs-unlinked np leader y [] ps far back yn fresh b =
    ground (arith, prev-unlinked np leader leader ps)
Backs-unlinked np leader y (q ∷ rest) ps far back yn fresh (b, bs) = (
  ground (arith, prev-unlinked np leader q ps, other),
  Backs-unlinked np leader q rest ps far back fresh.0 fresh.1 bs,
)
  where
    other : q ≢ (ps np).group_next
    other same = yn (sym b ∙ ap (λ x. (ps x).group_prev) same ∙ back)

pub loop-unlinked :
    (np leader : ℕ) (rest : List ℕ) (ps : ℕ → Proc)
    → All (λ q. q ≢ np) rest
    → Links ps leader (ps np).group_next rest
    → Backs ps leader np rest
    → Backs (unlinked np leader ps) leader leader rest
loop-unlinked np leader [] ps fresh l b = ground (arith, prev-unlinked np leader leader ps)
loop-unlinked np leader (q ∷ rest) ps fresh (e, nz, ql, l) (b, bs) = (
  ground (arith, prev-unlinked np leader q ps),
  Backs-unlinked np leader q rest ps (λ same. ql (sym e ∙ same)) (ap (λ x. (ps x).group_prev) e ∙ b)
      fresh.0 fresh.1 bs,
)
