-- ===== src/Buffer/Tests.antt =====
-- The theorems on the ring, at a ring of four places.
use tiny_cp.Base.{◌≡◌, List, [], ◌∷◌, arith}
use tiny_cp.Buffer.{empty}
use tiny_cp.Buffer.Invariant.{IsValid, empty-IsValid}
use tiny_cp.Buffer.Queue
use tiny_cp.Buffer.Queue.{Op}
use tiny_cp.Buffer.Refinement.{view}
use tiny_cp.Buffer.Run.{run, run_refines}

abbrev calls : List Op
calls =
    Op.write (1 ∷ 2 ∷ 3 ∷ [])
    ∷ Op.read 2
    ∷ Op.write (4 ∷ 5 ∷ 6 ∷ 7 ∷ [])
    ∷ Op.peek 2 1
    ∷ Op.discard 1
    ∷ Op.try_read 9
    ∷ Op.read 1
    ∷ []

fresh : IsValid 4 empty
fresh = empty-IsValid 4 (omega arith)

run_refines_example : run 4 empty calls ≡ Queue.run 4 (view 4 empty) calls
run_refines_example = run_refines calls fresh
