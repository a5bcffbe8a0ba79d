-- ===== src/Txn/Tests.antt =====
-- Runs of the transaction components.
mod Locks
mod Deadlocks
mod Versions
use aidv.Prelude.{◌≡◌, refl, List, [], ◌∷◌}
use aidv.Txn.Watermark.{
  Event, added, removed, committed, init, add_txn, remove_txn, update_commit_ts, get_watermark, put,
  oldest, step, run,
}
use aidv.Txn.Watermark.Minimum.{IsMinimum, running, start, get_watermark-IsMinimum}

-- The transaction that reads at 2 goes on while a commit at 5 comes.
abbrev history : List Event
history = added 1 ∷ added 2 ∷ added 2 ∷ removed 1 ∷ committed 5 ∷ removed 2 ∷ []

watermark_two : get_watermark (run (init 0) history) ≡ 2
unfolding get_watermark run step init add_txn remove_txn update_commit_ts put oldest
watermark_two = refl

get_watermark-IsMinimum_example :
    IsMinimum (get_watermark (run (init 0) history)) (running (start 0) history)
get_watermark-IsMinimum_example = get_watermark-IsMinimum 0 history
