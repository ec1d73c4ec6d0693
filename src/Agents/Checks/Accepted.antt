-- ===== src/Agents/Checks/Accepted.antt =====
-- Which results of checks web/src/app/api/agent/service-checks/route.ts takes.
use go_digi.Prelude.{
  Option, none, some, ◌↔◌, ◌≢◌, ◌≤◌, ◌⊎◌, All, arith, ==_iff, eq_iff, ℕ, String, Bool, true, false,
  ◌&&◌, ◌||◌, not, ◌≡◌, refl, ap, ◌∙◌, inl, inr, Option-cases, Bool-cases, List, [], ◌∷◌, ◌==◌,
  find, is_some, length,
}
use go_digi.Prelude.Words.{is_empty}
use go_digi.Prelude.Text.{text_length}
use go_digi.Prelude.Int.{pos, negsuc}
use go_digi.Monitor.Evaluation.{is_id}
use go_digi.Http.{pure, continue}
use go_digi.Agents.{
  AgentDb, AgentToken, AgentCheck, Number, no_number, whole, fractional, AgentReply, counted,
  CheckResult, speaks_for, or_500,
}
use go_digi.Agents.Checks.{
  post_results, store_results, result_fits, fits_int, fits_message, check_by, insert_result,
  none_sent,
}

abbrev pub is_counted : AgentReply → Bool
is_counted (counted n) = true
is_counted _ = false

-- every result is of a check that exists, and fits its columns
abbrev pub all_fit : List CheckResult → AgentDb → Bool
all_fit [] db = true
all_fit (r ∷ rs) db = result_fits (check_by r.check_id db) r && all_fit rs db

-- A result changes nothing that the next one is held against.
all_fit-insert_result :
    (r : CheckResult) (rs : List CheckResult) (db : AgentDb)
    → all_fit rs (insert_result r db) ≡ all_fit rs db
all_fit-insert_result r [] db = refl
all_fit-insert_result r (s ∷ rs) db =
    ap (λ b. result_fits (check_by s.check_id db) s && b) (all_fit-insert_result r rs db)

-- the results one after another, and the answer with their number
sent-all_fit :
    (n : ℕ) (rs : List CheckResult) (db : AgentDb)
    → (let sent = store_results rs db in
        is_counted (or_500 (continue sent.0 (λ _. pure (counted n)) sent.1)).0 ≡ all_fit rs db)
sent-all_fit n [] db = refl
sent-all_fit n (r ∷ rs) db = elim (Bool-cases (result_fits (check_by r.check_id db) r)) [
  | inl e ↦ rw e (sent-all_fit n rs (insert_result r db) ∙ all_fit-insert_result r rs db)
  | inr e ↦ rw e refl
]

accepts :
    (asset_id : ℕ) (token : String) (rs : List CheckResult) (db : AgentDb)
    → is_counted (post_results asset_id token rs db).0 ≡ (
        not (asset_id == 0 || is_empty token || none_sent rs)
        && is_some (find (speaks_for token asset_id) db.tokens)
        && all_fit rs db)
unfolding post_results
accepts asset_id token rs db = elim (Bool-cases (asset_id == 0 || is_empty token || none_sent rs)) [
  | inl e ↦ rw e refl
  | inr e ↦ elim (Option-cases (find (speaks_for token asset_id) db.tokens)) [
    | inl n ↦ rw (e, n) refl
    | inr (t, n) ↦ rw (e, n) (sent-all_fit (length rs) rs db)
  ]
]

-- one of the tokens is that text, of that asset and not revoked
abbrev pub HasToken : String → ℕ → List AgentToken → Type 0
HasToken token asset_id [] = ⊥
HasToken token asset_id (t ∷ ts) =
    ((t.token ≡ token) × (t.asset_id ≡ some asset_id) × (t.revoked ≡ false))
    ⊎ HasToken token asset_id ts

abbrev pub HasCheck : ℕ → List AgentCheck → Type 0
HasCheck id [] = ⊥
HasCheck id (c ∷ cs) = (c.id ≡ id) ⊎ HasCheck id cs

abbrev pub IsShort : Option String → Type 0
IsShort none = Unit
IsShort (some m) = text_length m ≤ 500

-- from -2147483648 to 2147483647, or nothing
abbrev pub IsInt : Number → Type 0
IsInt no_number = Unit
IsInt (whole (pos n)) = n ≤ 2147483647
IsInt (whole (negsuc n)) = n ≤ 2147483647
IsInt fractional = ⊥

abbrev pub IsStorable : List AgentCheck → CheckResult → Type 0
IsStorable checks r =
    HasCheck r.check_id checks × text_length r.status ≤ 10 × IsInt r.response_ms × IsShort r.message

is_id_iff : (n : ℕ) (o : Option ℕ) → (is_id n o ≡ true) ↔ (o ≡ some n)
is_id_iff n none = (λ h. cc, λ h. cc)
is_id_iff n (some m) = (λ h. ap some ((==_iff m n).0 h), λ h. ground (arith, ==_iff m n))

speaks_for_iff :
    (token : String) (asset_id : ℕ) (t : AgentToken)
    → (speaks_for token asset_id t ≡ true)
      ↔ ((t.token ≡ token) × (t.asset_id ≡ some asset_id) × (t.revoked ≡ false))
speaks_for_iff token asset_id t =
    let (same, same_back) = eq_iff t.token token in
    let (of, of_back) = is_id_iff asset_id t.asset_id in
    (
      λ h. (same (ground (arith, h)), of (ground (arith, h)), ground (arith, h)),
      λ h. ground (arith, same_back h.0, of_back h.1, h.2),
    )

HasToken-iff :
    (token : String) (asset_id : ℕ) (ts : List AgentToken)
    → (is_some (find (speaks_for token asset_id) ts) ≡ true) ↔ HasToken token asset_id ts
HasToken-iff token asset_id [] = (λ h. cc, λ h. absurd h)
HasToken-iff token asset_id (t ∷ ts) =
    let (on, back) = speaks_for_iff token asset_id t in
    let (more, more_back) = HasToken-iff token asset_id ts in
    elim (Bool-cases (speaks_for token asset_id t)) [
      | inl e ↦ rw e (λ _. inl (on e), λ _. refl)
      | inr e ↦ rw e (
        λ h. inr (more h),
        λ h. elim h [ inl k ↦ absurd (ground (arith, e, back k)) | inr k ↦ more_back k ],
      )
    ]

HasCheck-iff :
    (id : ℕ) (cs : List AgentCheck)
    → (is_some (find (λ (c : AgentCheck). c.id == id) cs) ≡ true) ↔ HasCheck id cs
HasCheck-iff id [] = (λ h. cc, λ h. absurd h)
HasCheck-iff id (c ∷ cs) =
    let (more, more_back) = HasCheck-iff id cs in
    elim (Bool-cases (c.id == id)) [
      | inl e ↦ rw e (λ _. inl ((==_iff c.id id).0 e), λ _. refl)
      | inr e ↦ rw e (
        λ h. inr (more h),
        λ h. elim h [
          | inl k ↦ absurd (ground (arith, e, (==_iff c.id id).1 k))
          | inr k ↦ more_back k
        ],
      )
    ]

fits_message_iff : (m : Option String) → (fits_message m ≡ true) ↔ IsShort m
fits_message_iff none = (λ _. tt, λ _. refl)
fits_message_iff (some m) = ground arith

fits_int_iff : (n : Number) → (fits_int n ≡ true) ↔ IsInt n
fits_int_iff no_number = (λ _. tt, λ _. refl)
fits_int_iff (whole (pos n)) = ground arith
fits_int_iff (whole (negsuc n)) = ground arith
fits_int_iff fractional = (λ h. cc, λ h. absurd h)

result_fits_iff :
    (r : CheckResult) (db : AgentDb)
    → (result_fits (check_by r.check_id db) r ≡ true) ↔ IsStorable db.checks r
result_fits_iff r db =
    let (has, has_back) = HasCheck-iff r.check_id db.checks in
    let (int, int_back) = fits_int_iff r.response_ms in
    let (short, short_back) = fits_message_iff r.message in
    (
      λ h. (
        has (ground (arith, h)),
        ground (arith, h),
        int (ground (arith, h)),
        short (ground (arith, h)),
      ),
      λ h. ground (arith, has_back h.0, h.1, int_back h.2, short_back h.3),
    )

all_fit_iff :
    (rs : List CheckResult) (db : AgentDb) → (all_fit rs db ≡ true) ↔ All (IsStorable db.checks) rs
all_fit_iff [] db = (λ _. tt, λ _. refl)
all_fit_iff (r ∷ rs) db =
    let (fits, fits_back) = result_fits_iff r db in
    let (more, more_back) = all_fit_iff rs db in
    (
      λ h. (fits (ground (arith, h)), more (ground (arith, h))),
      λ h. ground (arith, fits_back h.0, more_back h.1),
    )

-- The report of results is taken exactly if an asset, a token and a result are given, one of the
-- tokens is that text, stands for that asset and is not revoked, and every result is of a check
-- that exists, of whichever asset, with a status of at most 10 and a message of at most 500
-- characters and a response time that is a whole number of 32 bits or none.
pub post_results-accepts :
    (asset_id : ℕ) (token : String) (rs : List CheckResult) (db : AgentDb)
    → (is_counted (post_results asset_id token rs db).0 ≡ true) ↔ (
        (asset_id ≢ 0)
        × (is_empty token ≡ false)
        × (none_sent rs ≡ false)
        × HasToken token asset_id db.tokens
        × All (IsStorable db.checks) rs)
post_results-accepts asset_id token rs db =
    let (has, has_back) = HasToken-iff token asset_id db.tokens in
    let (fit, fit_back) = all_fit_iff rs db in
    let whole_test = accepts asset_id token rs db in
    (
      λ h. (
        λ z. ground (arith, h, whole_test, (==_iff asset_id 0).1 z),
        ground (arith, h, whole_test),
        ground (arith, h, whole_test),
        has (ground (arith, h, whole_test)),
        fit (ground (arith, h, whole_test)),
      ),
      λ h. ground (
        arith,
        whole_test,
        (λ (z : (asset_id == 0) ≡ true). h.0 ((==_iff asset_id 0).0 z)),
        h.1,
        h.2,
        has_back h.3,
        fit_back h.4,
      ),
    )
