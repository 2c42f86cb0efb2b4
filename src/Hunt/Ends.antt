-- ===== src/Hunt/Ends.antt =====
-- `executeHunt` (stasis/src/nodes/hunt.executor.ts) ends.
use callytics.Hunt.{strategy_of}
use callytics.Flow.{FlowNode}
use callytics.Js.{get}
use callytics.Hunt.{Destination, group}
use callytics.Hunt.Attempts.{Leg, hunt_config, pick, start_hunt, execute_hunt}
use callytics.Hunt.Limits.{Finishes, at_least_one-pos, hunt_loop-Finishes}
use callytics.Hunt.Picks.{pick-In, dial_of-full, base-pos}
use callytics.Hunt.{strategy_of}
use callytics.Prelude.{
  ℕ, ◌≤◌, ◌<◌, String, ◌≡◌, refl, ◌≢◌, inr, Bool, false, not, ◌||◌, arith, eqb, if-holds, length,
  In, is_empty,
}

-- For every strategy but `group`: if every destination of the node has a dial string and every attempt takes at
-- least a millisecond, the hunt ends within as many rounds as its total timeout has milliseconds.
-- Its result is `done`, `hangup` or what the node does without an answer, and each attempt rings for
-- at least a millisecond, for no longer than an attempt may, and not past the total timeout.
pub execute_hunt-Finishes :
    (dial : Destination → String) (has_busy_media : Bool) (node : FlowNode) (legs : ℕ → Leg)
    (choices : ℕ → ℕ) (has_bridge inbound_ended : Bool) (fuel : ℕ)
    → strategy_of node ≢ group
    → ((d : Destination)
        → In d (hunt_config dial has_busy_media node).base_destinations
        → is_empty (dial d) ≡ false)
    → ((i : ℕ) → 1 ≤ (legs i).took)
    → (hunt_config dial has_busy_media node).total_timeout_ms < fuel
    → let config = hunt_config dial has_busy_media node in
      Finishes config legs choices (execute_hunt config legs choices has_bridge inbound_ended fuel)
unfolding hunt_config execute_hunt start_hunt
execute_hunt-Finishes dial has_busy_media node legs choices has_bridge inbound_ended fuel alone full
      takes enough =
    let config = hunt_config dial has_busy_media node in
    if-holds (Finishes config legs choices) (not has_bridge || eqb (length config.destinations) 0)
      (λ _. (inr (inr refl), tt))
      λ some_one.
        hunt_loop-Finishes config legs choices fuel (start_hunt config legs choices inbound_ended)
          (λ h. dial_of-full config legs choices dial refl (pick config legs choices h) full (
            pick-In config legs choices dial refl h
              (base-pos config legs choices dial refl (or-false (not has_bridge) _ some_one))))
          takes (at_least_one-pos (get node.config "attempt_timeout_ms") 20000) tt
          (omega (arith, enough))
  where
    or-false : (a b : Bool) → a || b ≡ false → b ≡ false
    or-false a b h = ground arith
