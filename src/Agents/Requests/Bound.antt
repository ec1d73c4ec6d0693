-- ===== src/Agents/Requests/Bound.antt =====
-- The asset that a token stands for: once there is one it stays, whatever is served.
use go_digi.Prelude.Words.{is_empty}
use go_digi.Prelude.{
  ℕ, suc, ◌<◌, String, Bool, true, false, ◌≡◌, sym, ◌∙◌, refl, ap, arith, inl, inr, none, some,
  List, [], ◌∷◌, ◌++◌, str_eq, ◌==◌, ==_iff, ◌||◌, touch, find, update_where, All, All-append,
  All-update_where, All-find, All-map, Pairwise, Pairwise-insert, Pairwise-update_where,
  find-update_where, Bool-cases, if◌then◌else◌,
}
use go_digi.Http.{Exit, continue}
use go_digi.Agents.{
  Machine, AgentHandler, or_500, AgentToken, AgentDb, AgentReply, registered, polled, token_row,
  revoked_row,
}
use go_digi.Agents.Registration.{
  RegisterBody, PullBody, unless_revoked, register, pull_register, register_as, pull_as,
  machine_fits, machine_of, pulled_of, bind, asset_given,
}
use go_digi.Agents.Requests.{AgentRequest, serve, serve_all}
use go_digi.Agents.Requests.Tokens.{Step, unchanged, added, withdrawn, bound, serve-Leads}

abbrev OtherId : AgentToken → AgentToken → Type 0
OtherId t u = ¬ (t.id ≡ u.id)

-- ids are unique, and below the next one
pub record IsOrderly (ts : List AgentToken) (n : ℕ) : Type 0 where
  pub distinct : Pairwise (λ (t u : AgentToken). ¬ (t.id ≡ u.id)) ts
  pub below : All (λ (t : AgentToken). t.id < n) ts

-- the row of the token stands for the asset
abbrev pub IsBound : String → ℕ → List AgentToken → Type 0
IsBound token a ts =
    (t : AgentToken) × (find (λ (u : AgentToken). str_eq u.token token) ts ≡ some t)
    × (asset_given t.asset_id ≡ some a)

update-IsOrderly :
    (q : AgentToken → Bool) (f : AgentToken → AgentToken) (ts : List AgentToken) (n : ℕ)
    → ((t : AgentToken) → (f t).id ≡ t.id)
    → IsOrderly ts n
    → IsOrderly (update_where q f ts) n
update-IsOrderly q f ts n same h = record {
  distinct =
      Pairwise-update_where OtherId (λ t. t.id < n) q f
        (λ t u _ _ k e. k (sym (touch_id t) ∙ e ∙ touch_id u)) ts h.below h.distinct;
  below = All-update_where _ q f ts (λ t _ k. rw (same t) k) h.below;
}
  where
    touch_id : (t : AgentToken) → (touch q f t).id ≡ t.id
    touch_id t = ground (arith, same t)

Step-IsOrderly :
    {ts us : List AgentToken} {n m : ℕ} → Step ts n us m → IsOrderly ts n → IsOrderly us m
Step-IsOrderly unchanged h = h
Step-IsOrderly {ts} {n} (added t e _) h = record {
  distinct =
      Pairwise-insert OtherId ts t h.distinct (
        All-map (λ (u : AgentToken). u.id < n) (λ u. OtherId u t) ts (λ u k s. omega arith)
          h.below);
  below =
      All-append _ ts (t ∷ [])
        (All-map (λ (u : AgentToken). u.id < n) (λ u. u.id < suc n) ts (λ u k. omega arith) h.below)
        (omega arith, tt);
}
Step-IsOrderly {ts} {n} (withdrawn id) h = update-IsOrderly _ revoked_row ts n (λ t. refl) h
Step-IsOrderly {ts} {n} (bound _ t a _ _) h = update-IsOrderly _ (bind a) ts n (λ t. refl) h

-- two rows of one id are one row
find_same :
    (p q : AgentToken → Bool) (ts : List AgentToken) {t u : AgentToken}
    → Pairwise OtherId ts
    → find p ts ≡ some t
    → find q ts ≡ some u
    → t.id ≡ u.id
    → t ≡ u
find_same p q [] d h k e = cc
find_same p q (x ∷ xs) {t} {u} (d, ds) h k e = elim (Bool-cases (p x)) [
  | inl y ↦
      let at_t : x ≡ t = ground (arith, h, y) in
      elim (Bool-cases (q x)) [
        | inl z ↦ let at_u : x ≡ u = ground (arith, k, z) in sym at_t ∙ at_u
        | inr z ↦
            let rest : find q xs ≡ some u = ground (arith, k, z) in
            let other = (All-find (OtherId x) q xs d rest).0 in
            absurd (other (ap (λ (v : AgentToken). v.id) at_t ∙ e))
      ]
  | inr y ↦ elim (Bool-cases (q x)) [
    | inl z ↦
        let at_u : x ≡ u = ground (arith, k, z) in
        let rest : find p xs ≡ some t = ground (arith, h, y) in
        let other = (All-find (OtherId x) p xs d rest).0 in
        absurd (other (ap (λ (v : AgentToken). v.id) at_u ∙ sym e))
    | inr z ↦ find_same p q xs ds (ground (arith, h, y)) (ground (arith, k, z)) e
  ]
]

find-append_same {ℓ} :
    {A : Type ℓ} (p : A → Bool) (xs ys : List A) {x : A}
    → find p xs ≡ some x
    → find p (xs ++ ys) ≡ some x
find-append_same p [] ys h = cc
find-append_same p (x ∷ xs) ys h = elim (Bool-cases (p x)) [
  | inl e ↦ rw e (rw e at h)
  | inr e ↦ rw e (find-append_same p xs ys (rw e at h))
]

Step-IsBound :
    {ts us : List AgentToken} {n m : ℕ} (token : String) (a : ℕ)
    → Step ts n us m
    → IsOrderly ts n
    → IsBound token a ts
    → IsBound token a us
Step-IsBound token a unchanged o h = h
Step-IsBound {ts} token a (added new _ _) o (t, k, b) = (t, find-append_same _ ts _ k, b)
Step-IsBound {ts} token a (withdrawn id) o (t, k, b) = (
  touch (λ (u : AgentToken). u.id == id) revoked_row t,
  rw (find-update_where (λ (u : AgentToken). str_eq u.token token) _ revoked_row ts (λ u. refl))
      (rw k refl),
  kept_asset (t.id == id),
)
  where
    kept_asset : (c : Bool) → asset_given (if c then revoked_row t else t).asset_id ≡ some a
    kept_asset true = b
    kept_asset false = b
Step-IsBound {ts} token a (bound other new asset_id k' none_given) o (t, k, b) =
    elim (Bool-cases (t.id == new.id)) [
      | inl e ↦
          let one = find_same _ _ ts o.distinct k k' ((==_iff t.id new.id).0 e) in
          let free : asset_given t.asset_id ≡ none = rw one none_given in
          absurd (ground (arith, free, b))
      | inr e ↦ (
        t,
        rw
            (find-update_where (λ (u : AgentToken). str_eq u.token token) _ (bind asset_id) ts
              (λ u. refl))
            (rw (k, e) refl),
        b,
      )
    ]

-- an answer that names an asset names this one
abbrev pub Names : ℕ → AgentReply × AgentDb → Type 0
Names a (registered b _, db) = b ≡ a
Names a (polled b, db) = b ≡ a
Names a _ = Unit

pub record KeepsAsset (is_inet : String → Bool) (token : String) (a : ℕ) (db : AgentDb)
    : Type 0 where
  pub push : (body : RegisterBody) → body.token ≡ token → Names a (register is_inet body db)
  pub pull : (body : PullBody) → body.token ≡ token → Names a (pull_register is_inet body db)

unless_revoked-Names :
    (a : ℕ) (c : Bool) (t : AgentToken) (f : AgentToken → AgentHandler AgentReply) (db : AgentDb)
    → Names a (or_500 (f t db))
    → Names a (
        or_500 (
          (λ (x : Exit AgentReply AgentToken × AgentDb). continue x.0 f x.1)
            (unless_revoked c t db)))
unless_revoked-Names a true t f db h = tt
unless_revoked-Names a false t f db h = h

module _ (is_inet : String → Bool) (a : ℕ) (db : AgentDb) where
  register_as-Names :
      (new : Machine) (t : AgentToken)
      → asset_given t.asset_id ≡ some a
      → Names a (or_500 (register_as is_inet new t db))
  register_as-Names new t b = elim (Bool-cases (machine_fits is_inet new)) [
    | inl e ↦ rw (b, e) refl
    | inr e ↦ rw (b, e) tt
  ]

  pull_as-Names :
      (new : Machine) (t : AgentToken)
      → asset_given t.asset_id ≡ some a
      → Names a (or_500 (pull_as is_inet new t db))
  pull_as-Names new t b = elim (Bool-cases (machine_fits is_inet new)) [
    | inl e ↦ rw (b, e) refl
    | inr e ↦ rw (b, e) tt
  ]

  IsBound-KeepsAsset : (token : String) → IsBound token a db.tokens → KeepsAsset is_inet token a db
  unfolding register pull_register
  IsBound-KeepsAsset token (t, k, b) = record {
    push = λ body same.
        let row : token_row body.token db ≡ some t = rw same k in
        elim (Bool-cases (is_empty body.token || is_empty body.hostname)) [
          | inl e ↦ rw e tt
          | inr e ↦
              let f = register_as is_inet (machine_of is_inet body) in
              rw (e, row)
                (unless_revoked-Names a t.revoked t f db
                  (register_as-Names (machine_of is_inet body) t b))
        ];
    pull = λ body same.
        let row : token_row body.token db ≡ some t = rw same k in
        elim (Bool-cases
          (is_empty body.token || is_empty body.hostname || is_empty body.ip || body.port == 0)) [
            | inl e ↦ rw e tt
            | inr e ↦
                let f = pull_as is_inet (pulled_of is_inet body) in
                rw (e, row)
                  (unless_revoked-Names a t.revoked t f db
                    (pull_as-Names (pulled_of is_inet body) t b))
          ];
  }

module _ (is_inet : String → Bool) where
  -- Once a token stands for an asset, then after any requests of administrators and agents both
  -- registrations with it, where they answer with an asset, answer with that one, provided the
  -- ids of the tokens are unique and below the next.
  pub serve_all-KeepsAsset :
      (requests : List AgentRequest) (token : String) (a : ℕ) (db : AgentDb)
      → IsOrderly db.tokens db.next_token
      → IsBound token a db.tokens
      → KeepsAsset is_inet token a (serve_all is_inet requests db)
  unfolding serve_all
  serve_all-KeepsAsset [] token a db o h = IsBound-KeepsAsset is_inet a db token h
  serve_all-KeepsAsset (r ∷ rs) token a db o h =
      let step = serve-Leads is_inet r db in
      serve_all-KeepsAsset rs token a (serve is_inet r db) (Step-IsOrderly step o)
        (Step-IsBound token a step o h)
