-- ===== src/Tests/Limits.antt =====
-- Follows, marks and budgets on concrete inputs.
use saros.Base.{
  ◌≡◌, refl, ◌⊎◌, ◌-◌, ℕ, true, false, Option, none, some, [], ◌∷◌, Text, text, if◌then◌else◌, ltb,
}
use saros.Db.Table.{Table, Repo, IsRelational, in_memory}
use saros.Db.Inbox.{NotificationRow, FollowRow}
use saros.RateLimit.{Limiter, RateLimit, is_strict, enforce, served, too_many_requests}
use saros.RateLimit.Laws.{enforce-tiers, spent}

abbrev T : Table NotificationRow
T = in_memory NotificationRow

T-IsRelational : IsRelational T
T-IsRelational = record {
  select_rows = λ p s rs e. cc;
  create_rows = λ r s t e. cc;
  update_rows = λ p f s t e. cc;
  delete_rows = λ p s t e. cc;
}

abbrev F : Table FollowRow
F = in_memory FollowRow

F-IsRelational : IsRelational F
F-IsRelational = record {
  select_rows = λ p s rs e. cc;
  create_rows = λ r s t e. cc;
  update_rows = λ p f s t e. cc;
  delete_rows = λ p s t e. cc;
}

abbrev notice : ℕ → Text → NotificationRow
notice id who = record {
  id = id;
  username = who;
  at = 7;
  kind = 1;
  read = false;
  title = text "hi";
  detail = [];
  link = [];
}

abbrev inbox : Repo T
inbox = record { table = notice 1 (text "ann") ∷ notice 2 (text "bob") ∷ []; generation = 0 }

-- A limiter that charges down to nothing, and then tells to wait for half a second.
abbrev limiter : Limiter
limiter = record {
  State = ℕ;
  keyed = λ n. n;
  check_key = λ ip now n. (if ltb 0 n then none else some 500_000_000, n - 1);
  retain_recent = λ now n. n;
}

abbrev begin_login : Text
begin_login = text "/inex.saros.v1.AuthService/BeginLogin"

abbrev budgets : RateLimit limiter
budgets = record { strict = some 0; global = none }

abbrev no_address : Text → Option ℕ
no_address t = none

abbrev paid : RateLimit limiter
paid = record { strict = some 1; global = some 5 }

enforce-tiers_example :
    ((is_strict begin_login ≡ true)
      × (enforce limiter no_address 0 none (some 9) begin_login budgets
          ≡ (too_many_requests 1, budgets)))
    ⊎ ((is_strict begin_login ≡ false)
        × (enforce limiter no_address 0 none (some 9) begin_login budgets ≡ (served, budgets)))
unfolding enforce spent saros.RateLimit.reply_of saros.RateLimit.too_many
enforce-tiers_example = enforce-tiers limiter no_address 0 none (some 9) begin_login budgets

-- A start of a ceremony is paid from the strict budget.
strict_paid :
    enforce limiter no_address 0 none (some 9) begin_login paid
    ≡ (served, record { strict = some 0; global = some 5 })
unfolding enforce is_strict saros.RateLimit.check saros.RateLimit.bucket_for
    saros.RateLimit.reply_of saros.Base.strip_prefix
strict_paid = refl
