-- ===== src/Replacer/Tests.antt =====
-- Runs of the replacer.
use aidv.Prelude.{◌≡◌, refl, none, some, List, [], ◌∷◌}
use aidv.Replacer.{init, victim, pin, unpin, frames}
use aidv.Replacer.Refinement.{Call, evicts, pins, unpins, step, run, queue_run, run-refines}

-- Frames 1, 2 and 3 come in, 1 comes again, and 2 goes.
abbrev calls : List Call
calls = unpins 1 ∷ unpins 2 ∷ unpins 3 ∷ unpins 1 ∷ pins 2 ∷ evicts ∷ evicts ∷ evicts ∷ []

victims : (run (init 4) calls).1 ≡ none ∷ none ∷ none ∷ none ∷ none ∷ some 1 ∷ some 3 ∷ none ∷ []
unfolding run step init victim pin unpin
victims = refl

run-refines_example :
    (frames (run (init 4) calls).0 ≡ (queue_run [] calls).0)
    × ((run (init 4) calls).1 ≡ (queue_run [] calls).1)
run-refines_example = run-refines 4 calls
