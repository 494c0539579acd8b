-- ===== src/Scheduler/Tokens.antt =====
-- The job tokens of buildstream/_scheduler/scheduler.py: how many more jobs of each type may start.
use bst_staging.Prelude.{ℕ, ◌+◌, ◌-◌, Bool, true, false, ltb, if◌then◌else◌}

-- queue.py, class QueueType
pub data QueueType : Type 0 where
  fetch build push : QueueType

-- The dictionary `job_tokens`.
pub record Tokens : Type 0 where
  pub fetchers : ℕ
  pub builders : ℕ
  pub pushers : ℕ

abbrev pub tokens_of : QueueType → Tokens → ℕ
tokens_of fetch t = t.fetchers
tokens_of build t = t.builders
tokens_of push t = t.pushers

abbrev pub set_tokens : QueueType → ℕ → Tokens → Tokens
set_tokens fetch n t = record t { fetchers = n }
set_tokens build n t = record t { builders = n }
set_tokens push n t = record t { pushers = n }

unfoldable pub get_job_token : QueueType → Tokens → Bool × Tokens
get_job_token k t =
    if ltb 0 (tokens_of k t) then (true, set_tokens k (tokens_of k t - 1) t) else (false, t)

unfoldable pub put_job_token : QueueType → Tokens → Tokens
put_job_token k t = set_tokens k (tokens_of k t + 1) t

-- Whether two queue types share their tokens.
abbrev pub same_type : QueueType → QueueType → Bool
same_type fetch fetch = true
same_type build build = true
same_type push push = true
same_type _ _ = false
