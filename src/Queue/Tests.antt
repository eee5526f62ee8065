-- ===== src/Queue/Tests.antt =====
-- A queue of two cells.
use pico_sdemu.Common.{ℕ, ◌≡◌, List, [], ◌∷◌, arith}
use pico_sdemu.Queue.{empty_queue}
use pico_sdemu.Queue.Refine.{Op, put, get, drop_all, run, spec_run, run_refines}

abbrev script : List (Op ℕ)
script = put 5 ∷ put 6 ∷ put 7 ∷ get ∷ put 8 ∷ get ∷ get ∷ get ∷ put 9 ∷ drop_all ∷ get ∷ []

run_refines_example : run 2 (empty_queue 0 2) script ≡ spec_run 2 [] script
run_refines_example = run_refines 0 2 script (omega arith)
