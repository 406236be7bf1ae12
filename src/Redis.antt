-- ===== src/Redis.antt =====
-- libs/rust/hft_redis: the Boolean values and the keys. The server is a parameter: what GET, SET, DEL,
-- INCR and EXPIRE do to the state that it keeps, with their documented behaviour as the laws of
-- `IsServer`. A command that the server does not answer is an error of the call (`none`). Child
-- `KillSwitch` has the kill switch, `RateLimit` the counters.
pub mod KillSwitch
pub mod RateLimit
use btc_rust_history.Prelude.{
  ℕ, zero, suc, ◌+◌, ◌-◌, ◌*◌, ◌/◌, ◌%◌, ◌^◌, ◌≤◌, ◌<◌, min, max, String, ◌≡◌, refl, sym, ap, ◌∙◌,
  ◌≢◌, ◌↔◌, ◌⊎◌, inl, inr, Bool, true, false, ◌&&◌, ◌||◌, not, Option, none, some, List, [], ◌∷◌,
  ◌++◌, map, foldl, arith, ltb, leb, eqb, if◌then◌else◌, ltb→lt, leb→le, eqb_iff, Bool-cases,
  Option-cases, is_some, get_or, or_else, length, is_empty, drop, take, last?, keep, exists, All,
  length-append, length-drop, length-take, length-keep-le, keep-All, keep_of_All, All-append,
  All-drop, drop_past, drop-append, drop-drop, length-map, Key, ◌==◌, nat_key, string_key, pair_key,
  int_key, ==_refl, cat, Map, lookup, insert, remove, lookup-insert, lookup-insert_self,
  lookup-insert_ne, lookup-remove, ℤ, pos, negsuc, pos_part, neg_part, ◌+ℤ◌, ◌-ℤ◌, ◌*ℤ◌, tdiv,
  to_u32, ◌≤ℤ◌, leb_ℤ, ltb_ℤ, eqb_ℤ, show_ℕ, show_ℤ,
}
use Prim.Native.String
use Prim.Native.String.{len}
use Prim.Native.String.append
use text.Mathlib.TextPositions.{len-append}

pub record Server (S : Type 0) : Type 0 where
  pub get : String → S → Option String
  pub set : String → String → S → S
  pub del : String → S → S
  -- the counter of a key, and the seconds that it is kept, where these are limited
  pub number : String → S → ℤ
  pub ttl : String → S → Option ℕ
  pub incr : String → S → S
  pub expire : String → ℕ → S → S

-- What the commands do, as Redis documents it, while no key expires. INCR starts from zero and
-- fails only past the largest i64; EXPIRE keeps the counter where the seconds are more than zero (with
-- zero it deletes the key); DEL clears the counter and its time to live.
pub record IsServer {S : Type 0} (r : Server S) : Type 0 where
  pub get-set :
      (asked key value : String) (s : S)
      → r.get asked (r.set key value s) ≡ (if key == asked then some value else r.get asked s)
  pub get-del :
      (asked key : String) (s : S)
      → r.get asked (r.del key s) ≡ (if key == asked then none else r.get asked s)
  pub number-incr :
      (asked key : String) (n : ℕ) (s : S)
      → r.number asked s ≡ pos n
      → n + 1 < 2 ^ 63
      → r.number asked (r.incr key s) ≡ (if key == asked then pos (n + 1) else pos n)
  pub number-expire :
      (asked key : String) (seconds : ℕ) (s : S)
      → 0 < seconds
      → r.number asked (r.expire key seconds s) ≡ r.number asked s
  pub ttl-incr : (asked key : String) (s : S) → r.ttl asked (r.incr key s) ≡ r.ttl asked s
  pub ttl-expire :
      (asked key : String) (seconds : ℕ) (s : S)
      → 0 < seconds
      → r.ttl asked (r.expire key seconds s)
        ≡ (if key == asked then some seconds else r.ttl asked s)
  pub number-del :
      (asked key : String) (s : S)
      → r.number asked (r.del key s) ≡ (if key == asked then pos 0 else r.number asked s)

-- keys.rs
abbrev pub kill_switch : String
kill_switch = "risk:kill"

unfoldable pub kill_switch_account : String → String
kill_switch_account account_id = cat "risk:kill:" account_id

append_left_cancel : (p a b : String) → cat p a ≡ cat p b → a ≡ b
append_left_cancel String.[] a b e = sym (append.nil a) ∙ e ∙ append.nil b
append_left_cancel (String.◌∷◌ c p) a b e =
    append_left_cancel p a b (cc (append.cons c p a, append.cons c p b, e))

pub kill_switch_account_inj : (a b : String) → kill_switch_account a ≡ kill_switch_account b → a ≡ b
unfolding kill_switch_account
kill_switch_account_inj a b e = append_left_cancel "risk:kill:" a b e

pub kill_switch_account-ne : (a : String) → kill_switch_account a ≢ kill_switch
unfolding kill_switch_account
kill_switch_account-ne a e = absurd (omega (arith, len-append "risk:kill:" a, ap len e))

-- How a command ends: answered, or an error after it took effect, or an error before.
pub data Reply : Type 0 where
  answered : Reply
  answer_lost : Reply
  failed : Reply

abbrev pub takes_effect : Reply → Bool
takes_effect failed = false
takes_effect reply = true

-- `matches!(val.as_deref(), Some("1"))`
unfoldable pub is_one : Option String → Bool
is_one none = false
is_one (some v) = v == "1"

module _ {S : Type 0} (r : Server S) where
  -- The state after a command, and whether the call returned `Ok`.
  unfoldable pub command : Reply → (S → S) → S → S × Bool
  command answered effect s = (effect s, true)
  command answer_lost effect s = (effect s, false)
  command failed effect s = (s, false)

  -- Each of the next three is a method of `RedisStore` in client.rs.
  unfoldable pub get_bool : Bool → String → S → Option Bool
  unfolding is_one
  get_bool answers key s = if answers then some (is_one (r.get key s)) else none

  unfoldable pub set_bool : Reply → String → Bool → S → S × Bool
  unfolding command
  set_bool reply key val s = command reply (r.set key (if val then "1" else "0")) s

  unfoldable pub del : Reply → String → S → S × Bool
  unfolding command
  del reply key s = command reply (r.del key) s
