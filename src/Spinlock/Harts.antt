-- ===== src/Spinlock/Harts.antt =====
-- Spinlocks between harts, each step one call of spinlock.c on one hart; and nested push_off.
use csse332_final_project.Base.{
  ℕ, zero, suc, ◌+◌, ◌<◌, ◌≡◌, refl, ◌≢◌, ◌∙◌, Bool, true, false, if◌then◌else◌, ◌==◌, update,
  arith, ◌&&◌, ◌-◌,
}
use csse332_final_project.Run.{Cmd, ok, pure, ◌>>◌}
use csse332_final_project.Spinlock.{Lock, Machine, holding, push_off, pop_off, acquire, release}

pub record Cpu : Type 0 where
  pub noff : ℕ
  pub intena : Bool
  pub intr : Bool
  pub proc : ℕ

-- The locks, and cpus[] of spinlock.c's mycpu().
pub record System : Type 0 where
  pub locks : ℕ → Lock
  pub cpus : ℕ → Cpu

-- What hart `h` sees; the address of its struct cpu is not null.
abbrev pub view : ℕ → System → Machine
view h s = record {
  locks = s.locks;
  self = suc h;
  noff = (s.cpus h).noff;
  intena = (s.cpus h).intena;
  intr = (s.cpus h).intr;
  proc = (s.cpus h).proc;
}

abbrev pub commit : ℕ → Machine → System → System
commit h m s = record {
  locks = m.locks;
  cpus =
      update s.cpus h (record { noff = m.noff; intena = m.intena; intr = m.intr; proc = m.proc });
}

pub data Call : Type 0 where
  acquires releases : ℕ → Call
  masks unmasks : Call

unfoldable pub call : Call → Cmd Machine (Unit {0})
call (acquires l) = acquire l
call (releases l) = release l
call masks = push_off
call unmasks = pop_off

-- One call that returns, on hart `h`.
pub data Step (h : ℕ) (s : System) : System → Type 0 where
  returns : (c : Call) (m : Machine) → call c (view h s) ≡ ok tt m → Step h s (commit h m s)

-- Any calls of harts other than `h`, in any order.
pub data Others (h : ℕ) (s : System) : System → Type 0 where
  here : Others h s s
  next : {t u : System} (k : ℕ) → Others h s t → k ≢ h → Step k t u → Others h s u

locks-kept :
    (h k l : ℕ) (s : System) (c : Call) (m : Machine)
    → k ≢ h
    → call c (view k s) ≡ ok tt m
    → holding l (view h (commit k m s)) ≡ holding l (view h s)
unfolding call acquire release holding push_off pop_off
locks-kept h k l s (acquires j) m ne e = ground arith
locks-kept h k l s (releases j) m ne e = ground arith
locks-kept h k l s masks m ne e = ground arith
locks-kept h k l s unmasks m ne e = ground arith

holding-Step :
    (h k l : ℕ) {s t : System} → k ≢ h → Step k s t → holding l (view h t) ≡ holding l (view h s)
holding-Step h k l {s} ne (returns c m e) = locks-kept h k l s c m ne e

-- Whatever the other harts call, a hart holds the locks that it held, and no others: neither can a
-- lock be taken from it, nor given to it.
pub holding-Others :
    (h l : ℕ) {s t : System} → Others h s t → holding l (view h t) ≡ holding l (view h s)
holding-Others h l here = refl
holding-Others h l (next k o ne st) = holding-Step h k l ne st ∙ holding-Others h l o

-- Where acquire succeeds on a hart, no hart held the lock before, and that hart alone holds it
-- afterwards.
pub acquire-exclusive :
    (h k l : ℕ) (s : System) (m : Machine)
    → acquire l (view h s) ≡ ok tt m
    → (holding l (view k s) ≡ false) × (holding l (view k (commit h m s)) ≡ (k == h))
unfolding acquire holding
acquire-exclusive h k l s m e = (ground arith, ground arith)

-- `n` calls of push_off with `n` calls of pop_off after the code between them, which is the next
-- nest.
pub nest : ℕ → Cmd Machine (Unit {0})
nest zero = pure tt
nest (suc n) = push_off >> (nest n >> pop_off)

pub record Nested (m t : Machine) : Type 0 where
  pub depth : t.noff ≡ m.noff
  pub masked : t.intr ≡ m.intr
  pub saved : 0 < m.noff → t.intena ≡ m.intena

abbrev pushed : Machine → Machine
pushed m = record m {
  noff = m.noff + 1;
  intena = if m.noff == 0 then m.intr else m.intena;
  intr = false;
}

push_off-eq : (m : Machine) → push_off m ≡ ok tt (pushed m)
unfolding push_off
push_off-eq m = refl

pop_off-Nested :
    (m t : Machine)
    → (0 < m.noff → m.intr ≡ false)
    → Nested (pushed m) t
    → (u : Machine) × (pop_off t ≡ ok tt u) × Nested m u
unfolding pop_off
pop_off-Nested m t quiet n =
    let u : Machine = record t {
      noff = t.noff - 1;
      intr = if ((t.noff - 1) == 0) && t.intena then true else t.intr;
    } in
    (u, ground arith, record { depth = ground arith; masked = ground arith; saved = ground arith })

-- Balanced push_off and pop_off never panic, and restore the nesting depth and the interrupt
-- enable; the saved flag too, unless the nest is the outermost.
pub nest-Nested :
    (n : ℕ) (m : Machine)
    → (0 < m.noff → m.intr ≡ false)
    → (t : Machine) × (nest n m ≡ ok tt t) × Nested m t
unfolding nest
nest-Nested zero m quiet = (m, refl, record { depth = refl; masked = refl; saved = λ _. refl })
nest-Nested (suc n) m quiet =
    let (t, e, inner) = nest-Nested n (pushed m) (λ _. refl) in
    let (u, e', outer) = pop_off-Nested m t quiet inner in (u, rw (push_off-eq m, e) e', outer)
