-- ===== src/Sysfile/Close.antt =====
-- sys_close: the descriptor that is freed, and the count of its file.
use csse332_final_project.Base.{ℕ, ◌<◌, ◌≡◌, ◌⊎◌, dec32, update}
use csse332_final_project.Run.{ok, pure, and_then}
use csse332_final_project.Os.{Os, fd_none}
use csse332_final_project.Ftable.{close_last}
use csse332_final_project.Sysfile.{sys_close}
use csse332_final_project.Sysfile.Counts.{descriptors, Counted, arg_int, with_ref}

-- The file f without its last descriptor.
abbrev pub without : ℕ → Os → Os
without f s =
    let t = with_ref f dec32 s in
    record t { file = update t.file f (record (t.file f) { ref = 0; type = fd_none }) }

-- What close leaves: the descriptor is free, and the counts are those of the descriptors. A file with
-- other users is left alone and the answer is 0; for its last user, the call is what close_last does
-- to the file from there on, and then the answer 0.
abbrev pub Closed : (ℕ → ℕ) → Os → Os → Type 0
Closed others s t =
    let fd = arg_int 0 s in
    let f = descriptors s fd in
    Counted others t
    × ((q : ℕ) → descriptors t q ≡ update (descriptors s) fd 0 q)
    × (((1 < (s.file f).ref) × (sys_close s ≡ ok 0 t))
        ⊎ (((s.file f).ref ≡ 1)
            × ((t.file f).ref ≡ 0)
            × (sys_close s
                ≡ and_then (close_last (record (s.file f) { ref = 0 }) t) (λ _. pure 0))))
