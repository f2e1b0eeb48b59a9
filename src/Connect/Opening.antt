-- ===== src/Connect/Opening.antt =====
-- Opening and closing a connection, when the calls succeed.
use mytests.Base.{ℕ, true, Option, none, some, List, ◌≡◌, ◌⊎◌, inl, inr, refl, arith}
use mytests.Connect.Calls.{Call, note, Answers, attempt, ok, build_context}
use mytests.Connect.Accounts.{context_calls}

-- Every call of the verbs library succeeds.
abbrev pub AllSucceed : Answers → Type 0
AllSucceed answers = (log : List Call) (c : Call) → answers log c ≡ true

-- The context is not built, or is of this ibv_context.
abbrev pub IsFor : ℕ → Option ℕ → Type 0
IsFor verbs s_ctx = (s_ctx ≡ none) ⊎ (s_ctx ≡ some verbs)

abbrev pub succeed : Answers
succeed log c = true

pub build_context_lem :
    (verbs : ℕ) (s_ctx : Option ℕ) (log : List Call)
    → IsFor verbs s_ctx
    → build_context succeed verbs (record { s_ctx = s_ctx; log = log })
      ≡ ok (record { s_ctx = some verbs; log = context_calls verbs s_ctx log })
unfolding build_context context_calls note attempt
build_context_lem verbs none log h = refl
build_context_lem verbs (some ctx) log (inl e) = absurd (ground (arith, e))
build_context_lem verbs (some ctx) log (inr e) = ground (arith, e)
