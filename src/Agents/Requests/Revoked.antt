-- ===== src/Agents/Requests/Revoked.antt =====
-- What an agent may do with a token that was revoked: nothing, whatever was served since.
use go_digi.Prelude.{
  ℕ, String, Bool, true, false, ◌≡◌, refl, arith, inl, inr, Option, none, some, List, [], ◌∷◌, ◌++◌,
  str_eq, eq_iff, ◌==◌, ◌||◌, find, update_where, All, All-append, All-update_where, All-find,
  find-update_where, Bool-cases, Option-cases, is_some,
}
use mathlib.Core.Option
use go_digi.Prelude.Words.{is_empty}
use go_digi.Agents.{
  AgentToken, AgentDb, AgentReply, refused, CheckResult, token_row, speaks_for, revoked_row,
}
use go_digi.Agents.Registration.{RegisterBody, PullBody, register, pull_register, heartbeat, bind}
use go_digi.Agents.Checks.{post_results, none_sent}
use go_digi.Agents.Requests.{AgentRequest, serve, serve_all}
use go_digi.Agents.Requests.Tokens.{Step, unchanged, added, withdrawn, bound, serve-Leads}

abbrev has_text : String → AgentToken → Bool
has_text token u = str_eq u.token token

-- there is a row of the token, and every row of it is revoked
pub record IsRevoked (token : String) (ts : List AgentToken) : Type 0 where
  pub is_known : is_some (find (λ (u : AgentToken). str_eq u.token token) ts) ≡ true
  pub all_revoked : All (λ (u : AgentToken). str_eq u.token token ≡ true → u.revoked ≡ true) ts

is_some-map {ℓ} :
    {A : Type ℓ} (f : A → A) (o : Option A) → is_some o ≡ true → is_some (Option.map f o) ≡ true
is_some-map f none h = h
is_some-map f (some a) h = refl

find-append {ℓ} :
    {A : Type ℓ} (p : A → Bool) (xs ys : List A)
    → is_some (find p xs) ≡ true
    → is_some (find p (xs ++ ys)) ≡ true
find-append p [] ys h = cc
find-append p (x ∷ xs) ys h = ground (arith, find-append p xs ys)

-- an UPDATE that changes no text and revokes no less
update-IsRevoked :
    (token : String) (q : AgentToken → Bool) (f : AgentToken → AgentToken) (ts : List AgentToken)
    → ((u : AgentToken) → str_eq (f u).token token ≡ str_eq u.token token)
    → ((u : AgentToken) → u.revoked ≡ true → (f u).revoked ≡ true)
    → IsRevoked token ts
    → IsRevoked token (update_where q f ts)
update-IsRevoked token q f ts same keeps h = record {
  is_known = rw (find-update_where (has_text token) q f ts same) (is_some-map _ _ h.is_known);
  all_revoked = All-update_where _ q f ts (λ u _ k e. keeps u (k (rw (same u) at e))) h.all_revoked;
}

Step-IsRevoked :
    {ts us : List AgentToken} {n m : ℕ} (token : String)
    → Step ts n us m
    → IsRevoked token ts
    → IsRevoked token us
Step-IsRevoked token unchanged h = h
Step-IsRevoked {ts} token (added t e fresh) h = record {
  is_known = find-append (has_text token) ts (t ∷ []) h.is_known;
  all_revoked = All-append _ ts (t ∷ []) h.all_revoked (
    λ e.
        let same : t.token ≡ token = (eq_iff t.token token).0 e in
        let known : is_some (find (has_text t.token) ts) ≡ true = rw same h.is_known in
        absurd (ground (arith, fresh, known)),
    tt,
  );
}
Step-IsRevoked {ts} token (withdrawn id) h =
    update-IsRevoked token _ revoked_row ts (λ u. refl) (λ u k. refl) h
Step-IsRevoked {ts} token (bound _ t asset_id _ _) h =
    update-IsRevoked token _ (bind asset_id) ts (λ u. refl) (λ u k. k) h

-- an answer that refuses, with a database that is as before
abbrev pub Refuses : AgentDb → AgentReply × AgentDb → Type 0
Refuses db (refused status message, db') = db' ≡ db
Refuses db _ = ⊥

-- every route of the agents refuses the token
pub record IsShut (is_inet : String → Bool) (token : String) (db : AgentDb) : Type 0 where
  pub push : (body : RegisterBody) → body.token ≡ token → Refuses db (register is_inet body db)
  pub pull : (body : PullBody) → body.token ≡ token → Refuses db (pull_register is_inet body db)
  pub beat : (asset_id : ℕ) → Refuses db (heartbeat asset_id token db)
  pub report :
      (asset_id : ℕ) (results : List CheckResult)
      → Refuses db (post_results asset_id token results db)

-- the row that the registrations find
revoked_found :
    (token : String) (db : AgentDb)
    → IsRevoked token db.tokens
    → (t : AgentToken) × (token_row token db ≡ some t) × (t.revoked ≡ true)
revoked_found token db h = elim (Option-cases (token_row token db)) [
  | inl e ↦ absurd (ground (arith, e, h.is_known))
  | inr (t, e) ↦
      let (revoked, same) = All-find _ (has_text token) db.tokens h.all_revoked e in
      (t, e, revoked same)
]

-- no row is found for the other routes
none_speaks :
    (token : String) (asset_id : ℕ) (ts : List AgentToken)
    → All (λ (u : AgentToken). str_eq u.token token ≡ true → u.revoked ≡ true) ts
    → find (speaks_for token asset_id) ts ≡ none
none_speaks token asset_id [] h = refl
none_speaks token asset_id (u ∷ us) (h, hs) = elim (Bool-cases (speaks_for token asset_id u)) [
  | inl e ↦
      let text : str_eq u.token token ≡ true = ground (arith, e) in
      let live : u.revoked ≡ false = ground (arith, e) in absurd (ground (arith, h text, live))
  | inr e ↦ rw e (none_speaks token asset_id us hs)
]

module _ (is_inet : String → Bool) (token : String) (db : AgentDb)
    (h : IsRevoked token db.tokens) where
  push_refused : (body : RegisterBody) → body.token ≡ token → Refuses db (register is_inet body db)
  unfolding register
  push_refused body same =
      let (t, found_it, revoked) = revoked_found token db h in
      let row : token_row body.token db ≡ some t = rw same found_it in
      elim (Bool-cases (is_empty body.token || is_empty body.hostname)) [
        | inl e ↦ rw e refl
        | inr e ↦ rw (e, row, revoked) refl
      ]

  pull_refused : (body : PullBody) → body.token ≡ token → Refuses db (pull_register is_inet body db)
  unfolding pull_register
  pull_refused body same =
      let (t, found_it, revoked) = revoked_found token db h in
      let row : token_row body.token db ≡ some t = rw same found_it in
      elim (Bool-cases
        (is_empty body.token || is_empty body.hostname || is_empty body.ip || body.port == 0)) [
          | inl e ↦ rw e refl
          | inr e ↦ rw (e, row, revoked) refl
        ]

  beat_refused : (asset_id : ℕ) → Refuses db (heartbeat asset_id token db)
  unfolding heartbeat
  beat_refused asset_id = elim (Bool-cases (asset_id == 0 || is_empty token)) [
    | inl e ↦ rw e refl
    | inr e ↦ rw (e, none_speaks token asset_id db.tokens h.all_revoked) refl
  ]

  report_refused :
      (asset_id : ℕ) (results : List CheckResult)
      → Refuses db (post_results asset_id token results db)
  unfolding post_results
  report_refused asset_id results =
      elim (Bool-cases (asset_id == 0 || is_empty token || none_sent results)) [
        | inl e ↦ rw e refl
        | inr e ↦ rw (e, none_speaks token asset_id db.tokens h.all_revoked) refl
      ]

  IsRevoked-IsShut : IsShut is_inet token db
  IsRevoked-IsShut = record {
    push = push_refused;
    pull = pull_refused;
    beat = beat_refused;
    report = report_refused;
  }

module _ (is_inet : String → Bool) where
  -- When every row of a token is revoked and there is one, then after any requests of
  -- administrators and agents both registrations, the heartbeat and the report of results with
  -- that token are refused and change nothing.
  pub serve_all-IsShut :
      (requests : List AgentRequest) (token : String) (db : AgentDb)
      → IsRevoked token db.tokens
      → IsShut is_inet token (serve_all is_inet requests db)
  unfolding serve_all
  serve_all-IsShut [] token db h = IsRevoked-IsShut is_inet token db h
  serve_all-IsShut (r ∷ rs) token db h =
      serve_all-IsShut rs token (serve is_inet r db)
        (Step-IsRevoked token (serve-Leads is_inet r db) h)
