-- ===== src/Copy.antt =====
-- xv6-riscv/kernel/vm.c: copyout, copyin and copyinstr, between kernel buffers, which are lists of
-- bytes, and user memory. Each round of a loop moves at least one byte, so that as many rounds as
-- bytes are enough. Memory is total: an access outside RAM, to which only a wrong page table leads,
-- does not fault.
pub mod Laws
pub mod Fetch
pub mod Text
use csse332_final_project.Base.{
  ℕ, zero, suc, ◌+◌, ◌-◌, Bool, true, false, List, [], ◌∷◌, ◌++◌, map, take, drop, length, min,
  if◌then◌else◌, ltb, ◌==◌,
}
use csse332_final_project.Run.{Cmd, ok, out_of_fuel, pure, ◌>>=◌, ◌>>◌}
use csse332_final_project.Memory.{Memory, pgsize, add64, pg_round_down, load_byte, store_bytes}
use csse332_final_project.Vm.{Status, success, failure, walkaddr}

-- The bytes from `va` to the end of its page, or as many as are wanted.
abbrev pub chunk : ℕ → ℕ → ℕ
chunk va len = min (pgsize - (va - pg_round_down va)) len

copyout_from : ℕ → ℕ → ℕ → List ℕ → Cmd Memory Status
copyout_from n pt va [] = pure success
copyout_from zero pt va (b ∷ bs) = λ _. out_of_fuel
copyout_from (suc n) pt va (b ∷ bs) =
    let src = b ∷ bs in
    let k = chunk va (length src) in
    walkaddr pt (pg_round_down va) >>= λ pa0. elim (pa0 == 0) [
      | true ↦ pure failure
      | false ↦ λ m.
          copyout_from n pt (add64 (pg_round_down va) pgsize) (drop k src)
            (store_bytes (pa0 + (va - pg_round_down va)) (take k src) m)
    ]

unfoldable pub copyout : ℕ → ℕ → List ℕ → Cmd Memory Status
unfolding copyout_from
copyout pt va src = copyout_from (length src) pt va src

-- The `n` bytes from physical address `p` on.
load_bytes : ℕ → ℕ → Memory → List ℕ
load_bytes zero p m = []
load_bytes (suc n) p m = load_byte m p ∷ load_bytes n (p + 1) m

-- The answer, and the bytes that have reached `dst`.
copyin_from : ℕ → ℕ → ℕ → ℕ → List ℕ → Cmd Memory (Status × List ℕ)
unfolding load_bytes
copyin_from zero pt va len dst = elim (len == 0) [
  | true ↦ pure (success, dst)
  | false ↦ λ _. out_of_fuel
]
copyin_from (suc n) pt va len dst = elim (len == 0) [
  | true ↦ pure (success, dst)
  | false ↦
      let k = chunk va len in
      walkaddr pt (pg_round_down va) >>= λ pa0. elim (pa0 == 0) [
        | true ↦ pure (failure, dst)
        | false ↦ λ m.
            copyin_from n pt (add64 (pg_round_down va) pgsize) (len - k)
              (dst ++ load_bytes k (pa0 + (va - pg_round_down va)) m) m
      ]
]

unfoldable pub copyin : ℕ → ℕ → ℕ → Cmd Memory (Status × List ℕ)
unfolding copyin_from
copyin pt va len = copyin_from len pt va len []

-- The inner loop of copyinstr over the bytes of a page: what was copied, and whether a 0 ended it.
until_null : List ℕ → List ℕ × Bool
until_null [] = ([], false)
until_null (c ∷ cs) =
    let (out, got) = until_null cs in if c == 0 then (0 ∷ [], true) else (c ∷ out, got)

copyinstr_from : ℕ → ℕ → ℕ → ℕ → List ℕ → Cmd Memory (Status × List ℕ)
unfolding load_bytes until_null
copyinstr_from zero pt va max dst = elim (max == 0) [
  | true ↦ pure (failure, dst)
  | false ↦ λ _. out_of_fuel
]
copyinstr_from (suc n) pt va max dst = elim (max == 0) [
  | true ↦ pure (failure, dst)
  | false ↦
      let k = chunk va max in
      walkaddr pt (pg_round_down va) >>= λ pa0. elim (pa0 == 0) [
        | true ↦ pure (failure, dst)
        | false ↦ λ m.
            let (out, got) = until_null (load_bytes k (pa0 + (va - pg_round_down va)) m) in
            elim got [
              | true ↦ ok (success, dst ++ out) m
              | false ↦
                  copyinstr_from n pt (add64 (pg_round_down va) pgsize) (max - k) (dst ++ out) m
            ]
      ]
]

unfoldable pub copyinstr : ℕ → ℕ → ℕ → Cmd Memory (Status × List ℕ)
unfolding copyinstr_from
copyinstr pt va max = copyinstr_from max pt va max []
