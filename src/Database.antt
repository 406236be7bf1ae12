-- ===== src/Database.antt =====
-- A transaction of PostgreSQL as the services use it through sqlx: statements in order, each of which may
-- fail, on a view of the tables, then COMMIT. A transaction that is dropped is rolled back.
use btc_rust_history.Prelude.{
  ◌≡◌, refl, Bool, true, false, Option, none, some, nat_key, string_key, pair_key, int_key,
}

-- The answer to COMMIT: an error may come after the commit took effect.
pub data Commit : Type 0 where
  committed : Commit
  rolled_back : Commit
  answer_lost : Commit

-- Where the transaction began: the state of the tables, and whether the call returned `Ok`.
unfoldable pub commit : {D : Type 0} → Commit → D → D → D × Bool
commit Commit.committed old new = (new, true)
commit Commit.rolled_back old new = (old, false)
commit Commit.answer_lost old new = (new, false)

unfoldable pub finish : {D : Type 0} → Commit → D → Option D → D × Bool
unfolding commit
finish c old none = (old, false)
finish c old (some new) = commit c old new

unfoldable pub and_then {ℓ κ} : {A : Type ℓ} {B : Type κ} → Option A → (A → Option B) → Option B
and_then none k = none
and_then (some a) k = k a

pub some_inj : {A : Type 0} {a a' : A} → some a ≡ some a' → a ≡ a'
some_inj e = cc

pub and_then-some :
    {A B : Type 0} (o : Option A) (k : A → Option B) {b : B}
    → and_then o k ≡ some b
    → (a : A) × (o ≡ some a) × (k a ≡ some b)
unfolding and_then
and_then-some none k e = cc
and_then-some (some a) k e = (a, refl, e)
