-- ===== src/Filter/Tests.antt =====
-- A token that nobody signed, and requests without one.
use go_digi.Prelude.{ℕ, String, ◌≡◌, refl, arith, Option, none, some, str_eq, if◌then◌else◌}
use go_digi.Prelude.Words.{split_on}
use go_digi.Filter.{passed, unauthorized, to_login, middleware, is_token_valid, middleware-forged}

abbrev read_exp : String → Option ℕ
read_exp s = if str_eq s "exp_9" then some 9 else none

unauthorized_example : middleware read_exp 1000 "/api/alerts" none ≡ unauthorized
unfolding middleware
unauthorized_example = refl

to_login_example : middleware read_exp 10000 "/rack" (some "a.exp_9.b") ≡ to_login
unfolding middleware is_token_valid split_on
to_login_example = refl

-- a public path is any text that begins with one
agents_example : middleware read_exp 1000 "/api/agents_of_others" none ≡ passed
unfolding middleware
agents_example = refl

middleware-forged_example : middleware read_exp 1000 "/api/alerts" (some "h.exp_9.") ≡ passed
middleware-forged_example =
    middleware-forged read_exp 1000 9 "/api/alerts" "h" "exp_9" "" (refl, tt) (ground arith) refl
      (omega arith)
