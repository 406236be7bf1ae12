-- ===== src/Redis/KillSwitch.antt =====
-- `KillSwitch` of libs/rust/hft_redis/src/rate_limit.rs.
use btc_rust_history.Prelude.{
  String, ◌≡◌, refl, sym, ap, ◌∙◌, inl, inr, Bool, true, false, ◌&&◌, ◌||◌, Option, none, some,
  List, [], ◌∷◌, arith, if◌then◌else◌, Bool-cases, ◌==◌, nat_key, string_key, pair_key, int_key,
}
use btc_rust_history.Redis.{
  Server, IsServer, kill_switch, kill_switch_account, kill_switch_account_inj,
  kill_switch_account-ne, Reply, answered, answer_lost, failed, takes_effect, is_one, get_bool,
  set_bool, del,
}

-- The calls that change the switches.
pub data Command : Type 0 where
  enable : Command
  enable_account : String → Command
  disable : Command
  disable_account : String → Command

module _ {S : Type 0} (r : Server S) where
  unfoldable pub run_command : Command → Reply → S → S × Bool
  unfolding set_bool del kill_switch_account
  run_command enable reply s = set_bool r reply kill_switch true s
  run_command (enable_account id) reply s = set_bool r reply (kill_switch_account id) true s
  run_command disable reply s = del r reply kill_switch s
  run_command (disable_account id) reply s = del r reply (kill_switch_account id) s

  unfoldable pub check_global : Bool → S → Option Bool
  unfolding get_bool
  check_global answers s = get_bool r answers kill_switch s

  unfoldable pub check_account : Bool → String → S → Option Bool
  unfolding get_bool kill_switch_account
  check_account answers id s = get_bool r answers (kill_switch_account id) s

  -- The match on the answer for the account.
  unfoldable pub on_account : Option Bool → Bool
  on_account none = false
  on_account (some active) = active

  unfoldable pub account_enabled : Bool → Option String → S → Bool
  unfolding on_account check_account
  account_enabled answers none s = false
  account_enabled answers (some id) s = on_account (check_account answers id s)

  -- The match on the answer for the global key.
  unfoldable pub on_global : Option Bool → Bool → Bool
  on_global none account = false
  on_global (some true) account = true
  on_global (some false) account = account

  unfoldable pub is_enabled : Bool → Bool → Option String → S → Bool
  unfolding check_global on_global account_enabled
  is_enabled answers_global answers_account account_id s =
      on_global (check_global answers_global s) (account_enabled answers_account account_id s)

  pub run_commands : List (Command × Reply) → S → S
  run_commands [] s = s
  run_commands ((c, reply) ∷ rest) s = run_commands rest (run_command c reply s).0

-- A switch after the commands: what the last command on it says, else what it was.
abbrev pub set_global : Command → Bool → Bool
set_global enable was = true
set_global disable was = false
set_global other was = was

abbrev pub set_account : String → Command → Bool → Bool
set_account id (enable_account at) was = if at == id then true else was
set_account id (disable_account at) was = if at == id then false else was
set_account id other was = was

abbrev pub after : (Command → Bool → Bool) → List (Command × Reply) → Bool → Bool
after step [] was = was
after step ((c, reply) ∷ rest) was =
    after step rest (if takes_effect reply then step c was else was)

module _ {S : Type 0} (r : Server S) (laws : IsServer r) where
  abbrev on : String → S → Bool
  on key s = is_one (r.get key s)

  on-set :
      (asked key : String) (s : S)
      → on asked (r.set key "1" s) ≡ (if key == asked then true else on asked s)
  unfolding is_one
  on-set asked key s = rw (laws.get-set asked key "1" s) (if_lem (key == asked))
    where
      if_lem :
          (b : Bool)
          → is_one (if b then some "1" else r.get asked s)
            ≡ (if b then true else is_one (r.get asked s))
      if_lem true = refl
      if_lem false = refl

  on-del :
      (asked key : String) (s : S)
      → on asked (r.del key s) ≡ (if key == asked then false else on asked s)
  unfolding is_one
  on-del asked key s = rw (laws.get-del asked key s) (if_lem (key == asked))
    where
      if_lem :
          (b : Bool)
          → is_one (if b then none else r.get asked s)
            ≡ (if b then false else is_one (r.get asked s))
      if_lem true = refl
      if_lem false = refl

  same_account : (at id : String) → (kill_switch_account at == kill_switch_account id) ≡ (at == id)
  same_account at id = ground (
    arith,
    string_key.same_iff (kill_switch_account at) (kill_switch_account id),
    string_key.same_iff at id,
    kill_switch_account_inj at id,
    ap kill_switch_account,
  )

  other_key : (id : String) → (kill_switch_account id == kill_switch) ≡ false
  other_key id =
      ground
        (arith, string_key.same_iff (kill_switch_account id) kill_switch, kill_switch_account-ne id)

  other_account : (id : String) → (kill_switch == kill_switch_account id) ≡ false
  other_account id = elim (Bool-cases (kill_switch == kill_switch_account id)) [
    | inl same ↦ absurd (
        kill_switch_account-ne id
          (sym ((string_key.same_iff kill_switch (kill_switch_account id)).0 same)))
    | inr other ↦ other
  ]

  global_step :
      (c : Command) (reply : Reply) (s : S)
      → on kill_switch (run_command r c reply s).0
        ≡ (if takes_effect reply then set_global c (on kill_switch s) else on kill_switch s)
  unfolding run_command
  global_step enable answered s = rw on-set refl
  global_step enable answer_lost s = rw on-set refl
  global_step disable answered s = rw on-del refl
  global_step disable answer_lost s = rw on-del refl
  global_step (enable_account at) answered s = rw (on-set, other_key at) refl
  global_step (enable_account at) answer_lost s = rw (on-set, other_key at) refl
  global_step (disable_account at) answered s = rw (on-del, other_key at) refl
  global_step (disable_account at) answer_lost s = rw (on-del, other_key at) refl
  global_step enable failed s = refl
  global_step disable failed s = refl
  global_step (enable_account at) failed s = refl
  global_step (disable_account at) failed s = refl

  account_step :
      (id : String) (c : Command) (reply : Reply) (s : S)
      → on (kill_switch_account id) (run_command r c reply s).0 ≡ (
          if takes_effect reply
          then set_account id c (on (kill_switch_account id) s)
          else on (kill_switch_account id) s)
  unfolding run_command
  account_step id enable answered s = rw (on-set, other_account id) refl
  account_step id enable answer_lost s = rw (on-set, other_account id) refl
  account_step id disable answered s = rw (on-del, other_account id) refl
  account_step id disable answer_lost s = rw (on-del, other_account id) refl
  account_step id (enable_account at) answered s = rw (on-set, same_account at id) refl
  account_step id (enable_account at) answer_lost s = rw (on-set, same_account at id) refl
  account_step id (disable_account at) answered s = rw (on-del, same_account at id) refl
  account_step id (disable_account at) answer_lost s = rw (on-del, same_account at id) refl
  account_step id enable failed s = refl
  account_step id disable failed s = refl
  account_step id (enable_account at) failed s = refl
  account_step id (disable_account at) failed s = refl

  global_run :
      (commands : List (Command × Reply)) (s : S)
      → on kill_switch (run_commands r commands s) ≡ after set_global commands (on kill_switch s)
  unfolding run_commands
  global_run [] s = refl
  global_run ((c, reply) ∷ rest) s =
      global_run rest (run_command r c reply s).0
      ∙ ap (after set_global rest) (global_step c reply s)

  account_run :
      (id : String) (commands : List (Command × Reply)) (s : S)
      → on (kill_switch_account id) (run_commands r commands s)
        ≡ after (set_account id) commands (on (kill_switch_account id) s)
  unfolding run_commands
  account_run id [] s = refl
  account_run id ((c, reply) ∷ rest) s =
      account_run id rest (run_command r c reply s).0
      ∙ ap (after (set_account id) rest) (account_step id c reply s)

  -- After any commands, on a server that keeps its documented behaviour, an account may not trade exactly
  -- where the server answers for the global key, and the last command on the global switch that took
  -- effect enabled it, or the server answers for the account's key too, and the last such command on the
  -- account's switch enabled it; where there was none, the key was "1" before. No other account's
  -- commands play a role.
  pub is_enabled-run_commands :
      (answers_global answers_account : Bool) (id : String) (commands : List (Command × Reply))
      (s : S)
      → is_enabled r answers_global answers_account (some id) (run_commands r commands s) ≡ (
          answers_global
          && (after set_global commands (is_one (r.get kill_switch s))
              || (answers_account
                  && after (set_account id) commands (is_one (r.get (kill_switch_account id) s)))))
  unfolding is_enabled get_bool
  is_enabled-run_commands answers_global answers_account id commands s =
      rw (← global_run commands s, ← account_run id commands s)
        (cases answers_global answers_account (on kill_switch (run_commands r commands s))
          (on (kill_switch_account id) (run_commands r commands s)))
    where
      cases :
          (g a on_g on_a : Bool)
          → on_global r
              (if g then some on_g else none)
              (on_account r (if a then some on_a else none))
            ≡ (g && (on_g || (a && on_a)))
      cases false a on_g on_a = refl
      cases true a true on_a = refl
      cases true true false on_a = refl
      cases true false false on_a = refl
