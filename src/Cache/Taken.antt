-- ===== src/Cache/Taken.antt =====
-- What bget does to the buffer that it has found.
use csse332_final_project.Base.{
  ℕ, ◌≡◌, refl, ◌∙◌, true, false, List, if◌then◌else◌, ◌==◌, update, eq→==,
}
use csse332_final_project.Run.{ok, pure, ◌>>◌}
use csse332_final_project.Sleeplock.{Sleeplock, holdingsleep}
use csse332_final_project.Cache.Moves.{field-update}
use csse332_final_project.Cache.{Buf, Bcache, edit_buf, acquire_buf}
use csse332_final_project.Cache.Ring.{Linked, Linked-same}

-- The buffer b after an edit and its acquiresleep.
pub taken : ℕ → (Buf → Buf) → Bcache → Bcache
taken b f c =
    let one = update c.buf b (f (c.buf b)) in
    record c { buf = update one b (record (one b) { lock = record { locked = true; pid = c.me } }) }

pub take-ok :
    (b : ℕ) (f : Buf → Buf) (c : Bcache)
    → (f (c.buf b)).lock.locked ≡ false
    → (do edit_buf b f; acquire_buf b; pure b) c ≡ ok b (taken b f c)
unfolding taken
take-ok b f c free =
    let open_lock : (update c.buf b (f (c.buf b)) b).lock.locked ≡ false =
      rw (eq→== b b refl) free in
    rw open_lock refl

-- What stands in the fields of the buffers after that.
module _ {A : Type 0} (g : Buf → A)
    (locks : (r : Buf) (lk : Sleeplock) → g (record r { lock = lk }) ≡ g r) (b q : ℕ)
    (f : Buf → Buf) (c : Bcache) where
  pub field-taken : g ((taken b f c).buf q) ≡ g (if b == q then f (c.buf b) else c.buf q)
  unfolding taken
  field-taken =
      let one = update c.buf b (f (c.buf b)) in
      field-update g one b q (record (one b) { lock = record { locked = true; pid = c.me } })
        (locks (one b) _)

  pub field-kept : g (f (c.buf b)) ≡ g (c.buf b) → g ((taken b f c).buf q) ≡ g (c.buf q)
  field-kept same = field-taken ∙ field-update g c.buf b q (f (c.buf b)) same

pub held-taken :
    (b : ℕ) (f : Buf → Buf) (c : Bcache)
    → holdingsleep (taken b f c).me ((taken b f c).buf b).lock ≡ true
unfolding taken
held-taken b f c = rw (eq→== b b refl, eq→== c.me c.me refl) refl

pub Linked-taken :
    (b : ℕ) (f : Buf → Buf) (c : Bcache) (bs : List ℕ)
    → ((r : Buf) → (f r).next ≡ r.next)
    → ((r : Buf) → (f r).prev ≡ r.prev)
    → Linked c.buf 0 bs 0
    → Linked (taken b f c).buf 0 bs 0
Linked-taken b f c bs nexts prevs ring =
    Linked-same c.buf (taken b f c).buf 0 0 bs
      (λ q. (
        field-kept (λ r. r.next) (λ r lk. refl) b q f c (nexts (c.buf b)),
        field-kept (λ r. r.prev) (λ r lk. refl) b q f c (prevs (c.buf b)),
      ))
      ring
