-- ===== src/Tests/Redis.antt =====
-- The Redis library on a server that keeps its keys in maps, and the token bucket.
use btc_rust_history.Prelude.{
  ℕ, ◌+◌, min, String, ◌≡◌, refl, inl, inr, true, some, List, [], ◌∷◌, if◌then◌else◌, Bool-cases,
  get_or, ◌==◌, nat_key, string_key, pair_key, int_key, Map, lookup, insert, remove, lookup-insert,
  lookup-remove, ℤ, pos, ◌+ℤ◌, arith, All, ◌^◌, ◌<◌,
}
use btc_rust_history.Float.Model.{fixed_f64}
use btc_rust_history.Redis.{Server, IsServer, Reply, answered, failed, is_one}
use btc_rust_history.Redis.KillSwitch.{
  Command, enable, disable, enable_account, is_enabled, run_commands, is_enabled-run_commands,
}
use btc_rust_history.Redis.RateLimit.{allowed, requests, allowed_lem, state_after}
use btc_rust_history.Redis.RateLimit.Window.{ttl-state_after}

record Keys : Type 0 where
  texts : Map String String
  numbers : Map String ℤ
  ttls : Map String ℕ

abbrev number_of : String → Keys → ℤ
number_of key s = get_or (lookup key s.numbers) (pos 0)

abbrev server : Server Keys
server = record {
  get = λ key s. lookup key s.texts;
  set = λ key value s. record s { texts = insert key value s.texts };
  del = λ key s. record {
    texts = remove key s.texts;
    numbers = remove key s.numbers;
    ttls = remove key s.ttls;
  };
  number = number_of;
  ttl = λ key s. lookup key s.ttls;
  incr = λ key s. record s { numbers = insert key (number_of key s +ℤ pos 1) s.numbers };
  expire = λ key seconds s. record s { ttls = insert key seconds s.ttls };
}

add_one : (n : ℕ) → pos n +ℤ pos 1 ≡ pos (n + 1)
unfolding ◌+ℤ◌
add_one n = ground arith

number-insert :
    (asked key : String) (n : ℕ) (s : Keys)
    → number_of asked s ≡ pos n
    → n + 1 < 2 ^ 63
    → get_or (lookup asked (insert key (number_of key s +ℤ pos 1) s.numbers)) (pos 0)
      ≡ (if key == asked then pos (n + 1) else pos n)
number-insert asked key n s e b = elim (Bool-cases (key == asked)) [
  | inl same ↦ rw (lookup-insert, same, (string_key.same_iff key asked).0 same, e) (add_one n)
  | inr other ↦ rw (lookup-insert, other) e
]

number-remove :
    (asked key : String) (s : Keys)
    → get_or (lookup asked (remove key s.numbers)) (pos 0)
      ≡ (if key == asked then pos 0 else number_of asked s)
number-remove asked key s = elim (Bool-cases (key == asked)) [
  | inl same ↦ rw (lookup-remove, same) refl
  | inr other ↦ rw (lookup-remove, other) refl
]

server-IsServer : IsServer server
server-IsServer = record {
  get-set = λ asked key value s. lookup-insert asked key value s.texts;
  get-del = λ asked key s. lookup-remove asked key s.texts;
  number-incr = number-insert;
  number-expire = λ asked key seconds s h. refl;
  ttl-incr = λ asked key s. refl;
  ttl-expire = λ asked key seconds s h. lookup-insert asked key seconds s.ttls;
  number-del = number-remove;
}

abbrev nothing : Keys
nothing = record { texts = []; numbers = []; ttls = [] }

-- The command to disable does not reach the server.
abbrev commands : List (Command × Reply)
commands = (enable, answered) ∷ (enable_account "a1", answered) ∷ (disable, failed) ∷ []

is_enabled-run_commands_example :
    is_enabled server true true (some "a2") (run_commands server commands nothing) ≡ true
unfolding lookup is_one
is_enabled-run_commands_example =
    is_enabled-run_commands server server-IsServer true true "a2" commands nothing

abbrev calls : List (String × ℕ)
calls = ("k", 60) ∷ ("j", 10) ∷ ("k", 30) ∷ ("k", 30) ∷ []

times : All (λ call. 0 < call.1) calls
times = (omega arith, (omega arith, (omega arith, (omega arith, tt))))

allowed_example : allowed server 2 "k" calls nothing + min 0 2 ≡ min (0 + requests "k" calls) 2
unfolding lookup
allowed_example = allowed_lem server server-IsServer 2 "k" calls 0 nothing refl (omega arith) times

ttl-state_after_example : server.ttl "k" (state_after server 2 calls nothing) ≡ some 60
unfolding lookup
ttl-state_after_example =
    ttl-state_after server server-IsServer 2 "k" calls nothing refl (omega arith) times
