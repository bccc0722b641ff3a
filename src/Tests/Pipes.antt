-- ===== src/Tests/Pipes.antt =====
-- The queue of a pipe at two counters that are about to wrap around.
use csse332_final_project.Base.{◌≡◌, true, [], ◌∷◌, arith}
use csse332_final_project.Pipe.{Pipe}
use csse332_final_project.Pipe.Queue.{
  IsPipe, queue, serve, serve_queue, replies, replies-queue, puts, gets,
}

abbrev late : Pipe
late = record { bytes = λ i. i; nread = 4294967295; nwrite = 0; readopen = true; writeopen = true }

late-IsPipe : IsPipe late
late-IsPipe = record { read = omega arith; write = omega arith; fits = omega arith }

replies-queue_example :
    (replies serve_queue (gets ∷ gets ∷ puts 5 ∷ []) (queue late) ≡ (
      (replies serve (gets ∷ gets ∷ puts 5 ∷ []) late).0,
      queue (replies serve (gets ∷ gets ∷ puts 5 ∷ []) late).1,
    ))
    × IsPipe (replies serve (gets ∷ gets ∷ puts 5 ∷ []) late).1
replies-queue_example = replies-queue (gets ∷ gets ∷ puts 5 ∷ []) late late-IsPipe
