-- ===== src/Tests/Reconnect.antt =====
-- The reconnect controller over a few disconnections.
use btc_rust_history.Prelude.{◌≡◌, refl, List, [], ◌∷◌, nat_key, string_key}
use btc_rust_history.Reconnect.{
  new, Event, opened, lost, run, delay_of, saturating_incr, saturating_mul, on_connected,
  on_disconnected,
}

abbrev events : List Event
events = lost ∷ lost ∷ opened ∷ lost ∷ []

-- The base is raised to 100 ms and the cap is not, so that the delays are below the base.
test_below_base : (run (new 10 50) events []).1 ≡ 50 ∷ 50 ∷ 50 ∷ []
unfolding run new delay_of saturating_incr saturating_mul on_connected on_disconnected
test_below_base = refl
