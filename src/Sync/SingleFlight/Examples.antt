-- ===== src/Sync/SingleFlight/Examples.antt =====
-- Runs of the gate, after the unit tests of crates/sync/src/single_flight.rs, and the theorems at them.
use indexer_rs.Base.{◌≡◌, refl, pos, true, none, some, List, [], ◌∷◌, All}
use indexer_rs.Sync.SingleFlight.{
  new_gate, acquired, stashed, compare_exchange, drain, stash, offer, take_pending_and_release,
}
use indexer_rs.Sync.SingleFlight.Gate.{
  Call, offers, takes, offered, taken, idle, serve_all, promise_all, serve_all-promise_all,
}
use indexer_rs.Sync.SingleFlight.Race.{
  Racing, here, wins, loses, drains, stashes, Reach, begin, step,
}
use indexer_rs.Sync.SingleFlight.Race.Safety.{OneOwner, Reach-OneOwner}
use indexer_rs.Sync.SingleFlight.Race.Tips.{Accounted, Stranded, Reach-Accounted, tip-Stranded}

-- second_offer_stashes_higher_tip of the unit tests.
abbrev calls : List Call
calls =
    offers (pos 10)
    ∷ offers (pos 11)
    ∷ offers (pos 13)
    ∷ offers (pos 12)
    ∷ takes
    ∷ takes
    ∷ offers (pos 20)
    ∷ []

highest_stashed_wins : serve_all calls new_gate ≡ (
    offered (acquired (pos 10))
    ∷ offered stashed
    ∷ offered stashed
    ∷ offered stashed
    ∷ taken (some (pos 13))
    ∷ taken none
    ∷ offered (acquired (pos 20))
    ∷ [])
unfolding serve_all offer take_pending_and_release compare_exchange drain stash
highest_stashed_wins = refl

serve_all-promise_all_example : serve_all calls new_gate ≡ promise_all calls idle
serve_all-promise_all_example = serve_all-promise_all calls

-- Two offers, the second stashed before the first caller has drained, so that the first takes it.
abbrev both_offered : Racing
both_offered = record {
  gate = record { inflight = true; pending = none };
  draining = [];
  stashing = [];
  working = pos 11 ∷ [];
  offered = pos 11 ∷ pos 10 ∷ [];
  given = pos 11 ∷ [];
}

Reach-both : Reach both_offered
unfolding compare_exchange drain stash
Reach-both =
    step
      (step (step (step begin (wins (pos 10) refl)) (loses (pos 11) refl))
        (stashes (pos 11) [] here))
      (drains (pos 10) [] here)

Reach-OneOwner_example : OneOwner both_offered
Reach-OneOwner_example = Reach-OneOwner Reach-both

Reach-Accounted_example : All (Accounted both_offered) (pos 11 ∷ pos 10 ∷ [])
Reach-Accounted_example = Reach-Accounted Reach-both

tip-Stranded_example : (s : Racing) × Reach s × Stranded (pos 11) s
tip-Stranded_example = tip-Stranded (pos 10) (pos 11)
