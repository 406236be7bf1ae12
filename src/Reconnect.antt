-- ===== src/Reconnect.antt =====
-- `ReconnectController` of services/marketdata_ingestor/src/ws/reconnect.rs. The counters saturate.
use btc_rust_history.Prelude.{
  ℕ, suc, ◌+◌, ◌-◌, ◌*◌, ◌^◌, ◌≤◌, min, max, ◌≡◌, List, [], ◌∷◌, length, All, nat_key, string_key,
}

pub record ReconnectController : Type 0 where
  pub base_ms : ℕ
  pub max_ms : ℕ
  pub attempt : ℕ
  pub reconnect_count : ℕ

pub data ConnectionState : Type 0 where
  connecting : ConnectionState
  connected : ConnectionState
  backoff : ℕ → ConnectionState

unfoldable pub new : ℕ → ℕ → ReconnectController
new base_ms max_ms = record {
  base_ms = max base_ms 100;
  max_ms = max max_ms base_ms;
  attempt = 0;
  reconnect_count = 0;
}

-- `saturating_add(1)` and `saturating_mul` on an unsigned integer of `w` bits.
unfoldable pub saturating_incr : ℕ → ℕ → ℕ
saturating_incr w n = min (n + 1) (2 ^ w - 1)

unfoldable pub saturating_mul : ℕ → ℕ → ℕ → ℕ
saturating_mul w a b = min (a * b) (2 ^ w - 1)

unfoldable pub on_connected : ReconnectController → ReconnectController × ConnectionState
on_connected c = (record c { attempt = 0 }, connected)

unfoldable pub delay_of : ReconnectController → ℕ → ℕ
unfolding saturating_mul
delay_of c attempt = min (saturating_mul 64 c.base_ms (2 ^ min attempt 10)) c.max_ms

unfoldable pub on_disconnected : ReconnectController → ReconnectController × ConnectionState
unfolding saturating_incr delay_of
on_disconnected c =
    let attempt = saturating_incr 32 c.attempt in
    (
      record c { attempt = attempt; reconnect_count = saturating_incr 64 c.reconnect_count },
      backoff (delay_of c attempt),
    )

-- Connections and disconnections in turn, and the delays, the newest first.
pub data Event : Type 0 where
  opened : Event
  lost : Event

unfoldable pub run : ReconnectController → List Event → List ℕ → ReconnectController × List ℕ
unfolding on_connected on_disconnected
run c [] delays = (c, delays)
run c (opened ∷ es) delays = run (on_connected c).0 es delays
run c (lost ∷ es) delays =
    run (on_disconnected c).0 es (delay_of c (saturating_incr 32 c.attempt) ∷ delays)

-- Twice the base, unless the cap is below it, up to the cap.
abbrev InRange : ReconnectController → ℕ → Type 0
InRange c ms = (min (c.base_ms * 2) c.max_ms ≤ ms) × (ms ≤ c.max_ms)

abbrev pub losses : List Event → ℕ
losses [] = 0
losses (opened ∷ es) = losses es
losses (lost ∷ es) = suc (losses es)

-- What a run keeps: the two bounds, and delays within them, one for each reconnection.
record Runs (base cap count : ℕ) (r : ReconnectController × List ℕ) : Type 0 where
  same_base : r.0.base_ms ≡ base
  same_cap : r.0.max_ms ≡ cap
  counted : r.0.reconnect_count ≡ count
  waits : length r.1 ≡ count
  range : All (λ ms. (min (base * 2) cap ≤ ms) × (ms ≤ cap)) r.1
