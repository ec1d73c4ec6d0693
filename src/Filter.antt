-- ===== src/Filter.antt =====
-- web/src/middleware.ts: which requests reach a route. What `atob` and `JSON.parse` make of a part
-- of a token is a parameter: the field `exp`, where the part is JSON with a number there.
mod Tests
use Prim.Native.Char.{Char, code}
use Prim.Native.String.append
use Prim.Native.String.{[], ◌∷◌}
use go_digi.Prelude
use go_digi.Prelude.{
  ℕ, suc, ◌*◌, ◌<◌, String, Bool, true, false, ◌≡◌, ◌||◌, ◌&&◌, not, refl, ap, ◌∙◌, arith, inl, inr,
  Bool-cases, Option, none, some, List, any, ltb, ◌==◌, if◌then◌else◌,
}
use go_digi.Prelude.Text.{starts_with, ◌+++◌}
use go_digi.Prelude.Words.{is_empty, split_on, split_on-append, AllOf}

pub data Verdict : Type 0 where
  passed unauthorized to_login : Verdict

abbrev public_paths : List String
public_paths =
    Prelude.◌∷◌ "/login"
      (Prelude.◌∷◌ "/api/auth" (Prelude.◌∷◌ "/api/agent" (Prelude.◌∷◌ "/api/metrics" Prelude.[])))

abbrev pub is_public : String → Bool
is_public path = any (λ p. starts_with p path) public_paths

abbrev is_dot : Char → Bool
is_dot c = code c == b'.'

-- token.split('.')[1]
abbrev second_part : List String → Option String
second_part (Prelude.◌∷◌ a (Prelude.◌∷◌ b rest)) = some b
second_part _ = none

not_empty : (s : String) (c : Char) (t : String) → is_empty (s +++ c ∷ t) ≡ false
not_empty [] c t = rw (append.nil (c ∷ t)) refl
not_empty (d ∷ s) c t = rw (append.cons d s (c ∷ t)) refl

module _ (read_exp : String → Option ℕ) where
  -- payload.exp > Date.now() / 1000, with the time in milliseconds
  abbrev in_future : ℕ → Option ℕ → Bool
  in_future now none = false
  in_future now (some exp) = ltb now (exp * 1000)

  abbrev exp_of : Option String → Option ℕ
  exp_of none = none
  exp_of (some part) = read_exp part

  unfoldable pub is_token_valid : ℕ → String → Bool
  is_token_valid now token = in_future now (exp_of (second_part (split_on is_dot token)))

  abbrev pub holds_token : ℕ → Option String → Bool
  holds_token now none = false
  holds_token now (some token) = not (is_empty token) && is_token_valid now token

  unfoldable pub middleware : ℕ → String → Option String → Verdict
  middleware now path cookie =
      if is_public path || holds_token now cookie
      then passed
      else if starts_with "/api/" path
      then unauthorized
      else to_login

  is_token_valid-forged :
      (now exp : ℕ) (header payload signature : String)
      → AllOf (λ c. (code c == b'.') ≡ false) header
      → AllOf (λ c. (code c == b'.') ≡ false) payload
      → read_exp payload ≡ some exp
      → now < exp * 1000
      → is_token_valid now (header +++ "." ∷ (payload +++ "." ∷ signature)) ≡ true
  unfolding is_token_valid
  is_token_valid-forged now exp header payload signature h p r later =
      let rest = split_on-append is_dot payload "." signature p refl in
      let parts =
        split_on-append is_dot header "." (payload +++ "." ∷ signature) h refl
        ∙ ap (Prelude.◌∷◌ header) rest in
      ap (λ l. in_future now (exp_of (second_part l))) parts ∙ still_valid r
    where
      still_valid : read_exp payload ≡ some exp → in_future now (read_exp payload) ≡ true
      still_valid e = rw e (ground arith)

  -- A cookie of three parts passes the filter on every path, whatever its first and last part
  -- are, if no dot is in the first two and the second says a time in the future.
  pub middleware-forged :
      (now exp : ℕ) (path header payload signature : String)
      → AllOf (λ c. (code c == b'.') ≡ false) header
      → AllOf (λ c. (code c == b'.') ≡ false) payload
      → read_exp payload ≡ some exp
      → now < exp * 1000
      → middleware now path (some (header +++ "." ∷ (payload +++ "." ∷ signature))) ≡ passed
  unfolding middleware
  middleware-forged now exp path header payload signature h p r later =
      let valid = is_token_valid-forged now exp header payload signature h p r later in
      let filled = not_empty header "." (payload +++ "." ∷ signature) in
      ground (arith, valid, filled)
