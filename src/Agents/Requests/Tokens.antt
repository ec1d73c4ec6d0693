-- ===== src/Agents/Requests/Tokens.antt =====
-- What one request of the agents' routes does to the table of tokens, as a relation.
use go_digi.Prelude.{
  length, ℕ, suc, String, Bool, true, false, ◌≡◌, ◌⊎◌, refl, arith, ltb, inl, inr, Option, none,
  some, List, [], ◌∷◌, ◌++◌, str_eq, ◌==◌, ◌||◌, find, update_where, Bool-cases, Option-cases,
}
use go_digi.Prelude.Words.{is_empty}
use go_digi.Http.{Exit, next, reply, throw, Any, Hands-Any, continue, continue-keeps, pure, run}
use go_digi.Accounts.{AuthUser, admin, hierarchy, require_role, require_auth}
use go_digi.Agents.{
  AgentToken, AgentHandler, CheckResult, Machine, AgentDb, AgentReply, counted, refused,
  revoke_given, or_500, token_row, revoked_row, create_token, revoke_token, admin_here, token_fits,
  speaks_for,
}
use go_digi.Agents.Registration.{
  RegisterBody, PullBody, bind, asset_given, asset_for, register, register_as, pull_as,
  answer_registered, answer_polled, register_body, pull_register, pull_body, heartbeat,
  heartbeat_body, machine_of, pulled_of, not_revoked, unless_revoked,
}
use go_digi.Agents.Checks.{
  insert_result, results_body, none_sent, post_results, store_results, result_fits, check_by,
}
use go_digi.Agents.Requests.{AgentRequest, create, revoke, push, pull, beat, report, serve}

-- from the tokens and the next id to those after the request
pub data Step (ts : List AgentToken) (n : ℕ) : List AgentToken → ℕ → Type 0 where
  unchanged : Step ts n ts n
  added :
      (t : AgentToken)
      → t.id ≡ n
      → find (λ (u : AgentToken). str_eq u.token t.token) ts ≡ none
      → Step ts n (ts ++ t ∷ []) (suc n)
  withdrawn : (id : ℕ) → Step ts n (update_where (λ (u : AgentToken). u.id == id) revoked_row ts) n
  bound :
      (token : String) (t : AgentToken) (asset_id : ℕ)
      → find (λ (u : AgentToken). str_eq u.token token) ts ≡ some t
      → asset_given t.asset_id ≡ none
      → Step ts n (update_where (λ (u : AgentToken). u.id == t.id) (bind asset_id) ts) n

-- the step of a handler that began in `db`
abbrev pub Leads : AgentDb → AgentDb → Type 0
Leads db db' = Step db.tokens db.next_token db'.tokens db'.next_token

or_500-Leads :
    (db : AgentDb) (r : Exit AgentReply AgentReply × AgentDb) → Leads db r.1 → Leads db (or_500 r).1
or_500-Leads db (next r, db') h = h
or_500-Leads db (reply r, db') h = h
or_500-Leads db (throw e, db') h = h

asset_for-Leads :
    (fits : Bool) (set : Machine → Machine) (new : Machine) (token : String) (t : AgentToken)
    (o : Option ℕ) (db : AgentDb)
    → token_row token db ≡ some t
    → asset_given t.asset_id ≡ o
    → Leads db (asset_for fits set new t o db).1
asset_for-Leads true set new token t (some id) db h k = unchanged
asset_for-Leads false set new token t (some id) db h k = unchanged
asset_for-Leads true set new token t none db h k = bound token t db.next_machine h k
asset_for-Leads false set new token t none db h k = unchanged

unless_revoked-keeps :
    (P : AgentDb → Type 0) (b : Bool) (t : AgentToken) (f : AgentToken → AgentHandler AgentReply)
    (db : AgentDb)
    → P db
    → P (f t db).1
    → P
        ((λ (x : Exit AgentReply AgentToken × AgentDb). continue x.0 f x.1)
          (unless_revoked b t db)).1
unless_revoked-keeps P true t f db h k = h
unless_revoked-keeps P false t f db h k = k

not_revoked-keeps :
    (P : AgentDb → Type 0) (o : Option AgentToken) (f : AgentToken → AgentHandler AgentReply)
    (db : AgentDb)
    → P db
    → ((t : AgentToken) → o ≡ some t → P (f t db).1)
    → P ((λ (x : Exit AgentReply AgentToken × AgentDb). continue x.0 f x.1) (not_revoked o db)).1
not_revoked-keeps P none f db h k = h
not_revoked-keeps P (some t) f db h k = unless_revoked-keeps P t.revoked t f db h (k t refl)

module _ (is_inet : String → Bool) where
  -- what stands behind the finding of the asset writes no token
  asset_for-then :
      (fits : Bool) (set : Machine → Machine) (new : Machine) (token : String) (t : AgentToken)
      (f : ℕ → AgentHandler AgentReply) (db : AgentDb)
      → token_row token db ≡ some t
      → ((a : ℕ) (s : AgentDb) → Leads db s → Leads db (f a s).1)
      → Leads db
          ((λ (x : Exit AgentReply ℕ × AgentDb). continue x.0 f x.1)
            (asset_for fits set new t (asset_given t.asset_id) db)).1
  asset_for-then fits set new token t f db n k =
      let made = asset_for fits set new t (asset_given t.asset_id) db in
      let h = asset_for-Leads fits set new token t (asset_given t.asset_id) db n refl in
      continue-keeps (Leads db) Any made.0 f made.1 h (Hands-Any made.0) λ a _. k a made.1 h

  register-Leads : (body : RegisterBody) (db : AgentDb) → Leads db (register is_inet body db).1
  unfolding register
  register-Leads body db =
      or_500-Leads db (register_body is_inet body db)
        (elim (Bool-cases (is_empty body.token || is_empty body.hostname)) [
          | inl e ↦ rw e unchanged
          | inr e ↦ rw e (
              not_revoked-keeps (Leads db) (token_row body.token db)
                (register_as is_inet (machine_of is_inet body)) db unchanged
                λ t n.
                  asset_for-then _ _ (machine_of is_inet body) body.token t answer_registered db n
                    λ a s h. h)
        ])

  pull_register-Leads :
      (body : PullBody) (db : AgentDb) → Leads db (pull_register is_inet body db).1
  unfolding pull_register
  pull_register-Leads body db =
      or_500-Leads db (pull_body is_inet body db)
        (elim (Bool-cases
          (is_empty body.token || is_empty body.hostname || is_empty body.ip || body.port == 0)) [
            | inl e ↦ rw e unchanged
            | inr e ↦ rw e (
                not_revoked-keeps (Leads db) (token_row body.token db)
                  (pull_as is_inet (pulled_of is_inet body)) db unchanged
                  λ t n.
                    asset_for-then _ _ (record (pulled_of is_inet body) { agent_version = none })
                      body.token t answer_polled db n λ a s h. h)
          ])

heartbeat-Leads :
    (asset_id : ℕ) (token : String) (db : AgentDb) → Leads db (heartbeat asset_id token db).1
unfolding heartbeat
heartbeat-Leads asset_id token db =
    or_500-Leads db (heartbeat_body asset_id token db)
      (elim (Bool-cases (asset_id == 0 || is_empty token)) [
        | inl e ↦ rw e unchanged
        | inr e ↦ elim (Option-cases (find (speaks_for token asset_id) db.tokens)) [
          | inl n ↦ rw (e, n) unchanged
          | inr (t, n) ↦ rw (e, n) unchanged
        ]
      ])

store_results-Leads :
    (rs : List CheckResult) (d db : AgentDb) → Leads d db → Leads d (store_results rs db).1
store_results-Leads [] d db h = h
store_results-Leads (r ∷ rs) d db h = elim (Bool-cases (result_fits (check_by r.check_id db) r)) [
  | inl e ↦ rw e (store_results-Leads rs d (insert_result r db) h)
  | inr e ↦ rw e h
]

post_results-Leads :
    (asset_id : ℕ) (token : String) (rs : List CheckResult) (db : AgentDb)
    → Leads db (post_results asset_id token rs db).1
unfolding post_results
post_results-Leads asset_id token rs db =
    or_500-Leads db (results_body asset_id token rs db)
      (elim (Bool-cases (asset_id == 0 || is_empty token || none_sent rs)) [
        | inl e ↦ rw e unchanged
        | inr e ↦ elim (Option-cases (find (speaks_for token asset_id) db.tokens)) [
          | inl n ↦ rw (e, n) unchanged
          | inr (t, n) ↦
              let sent = store_results rs db in
              let h = store_results-Leads rs db db unchanged in
              rw (e, n)
                (continue-keeps (Leads db) Any sent.0 (λ _. pure (counted (length rs))) sent.1 h
                  (Hands-Any sent.0) λ _ _. h)
        ]
      ])

admin_here-cases :
    (session : Option AuthUser) (db : AgentDb)
    → (admin_here session db ≡ (reply (refused 401 "Unauthorized"), db))
      ⊎ ((u : AuthUser) × (admin_here session db ≡ (next u, db)))
unfolding admin_here require_role require_auth
admin_here-cases none db = inl refl
admin_here-cases (some u) db = elim (Bool-cases (ltb (hierarchy u.role) (hierarchy admin))) [
  | inl e ↦ inl (rw e refl)
  | inr e ↦ inr (u, rw e refl)
]

fits-fresh :
    (token : String) (label : Option String) (asset_id : Option ℕ) (db : AgentDb)
    → token_fits token label asset_id db ≡ true
    → token_row token db ≡ none
fits-fresh token label asset_id db h = elim (Option-cases (token_row token db)) [
  | inl e ↦ e
  | inr (t, e) ↦ absurd (ground (arith, h, e))
]

create_token-Leads :
    (token : String) (session : Option AuthUser) (label : Option String) (asset_id : Option ℕ)
    (db : AgentDb)
    → Leads db (run (create_token token session label asset_id) db).1
unfolding create_token
create_token-Leads token session label asset_id db = elim (admin_here-cases session db) [
  | inl e ↦ rw e unchanged
  | inr (u, e) ↦ elim (Bool-cases (token_fits token label asset_id db)) [
    | inl f ↦ rw (e, f) (added _ refl (fits-fresh token label asset_id db f))
    | inr f ↦ rw (e, f) unchanged
  ]
]

revoke_given-Leads : (id : Option (Option ℕ)) (db : AgentDb) → Leads db (revoke_given id db).1
revoke_given-Leads none db = unchanged
revoke_given-Leads (some none) db = unchanged
revoke_given-Leads (some (some id)) db = withdrawn id

revoke_token-Leads :
    (session : Option AuthUser) (id : Option (Option ℕ)) (db : AgentDb)
    → Leads db (run (revoke_token session id) db).1
unfolding revoke_token
revoke_token-Leads session id db = elim (admin_here-cases session db) [
  | inl e ↦ rw e unchanged
  | inr (u, e) ↦ rw e (revoke_given-Leads id db)
]

module _ (is_inet : String → Bool) where
  -- Every request makes one step on the tokens.
  pub serve-Leads : (r : AgentRequest) (db : AgentDb) → Leads db (serve is_inet r db)
  unfolding serve
  serve-Leads (create token session label asset_id) db =
      create_token-Leads token session label asset_id db
  serve-Leads (revoke session id) db = revoke_token-Leads session id db
  serve-Leads (push body) db = register-Leads is_inet body db
  serve-Leads (pull body) db = pull_register-Leads is_inet body db
  serve-Leads (beat asset_id token) db = heartbeat-Leads asset_id token db
  serve-Leads (report asset_id token results) db = post_results-Leads asset_id token results db
