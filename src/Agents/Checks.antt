-- ===== src/Agents/Checks.antt =====
-- web/src/app/api/agent/service-checks/route.ts: an agent asks for the checks of its asset and
-- sends their results.
pub mod Accepted
use go_digi.Prelude.{
  ℕ, String, Bool, true, false, ◌&&◌, ◌||◌, Option, none, some, List, [], ◌∷◌, ◌++◌, ◌==◌, leb,
  find, is_some, select, length, if◌then◌else◌,
}
use go_digi.Prelude.Int.{pos, negsuc}
use go_digi.Prelude.Text.{text_length}
use go_digi.Prelude.Words.{is_empty}
use go_digi.Http.{Handler, gets, modify, pure, raise, reject_if, ◌>>=◌, ◌>>◌}
use go_digi.Agents.{
  AgentCheck, Number, no_number, whole, fractional, CheckResult, AgentDb, AgentReply, counted,
  refused, AgentHandler, or_500, authorized,
}

abbrev pub check_by : ℕ → AgentDb → Option AgentCheck
check_by id db = find (λ c. c.id == id) db.checks

abbrev fits_message : Option String → Bool
fits_message none = true
fits_message (some m) = leb (text_length m) 500

-- INT: a fraction is refused, and so is what does not fit 32 bits
abbrev fits_int : Number → Bool
fits_int no_number = true
fits_int (whole (pos n)) = leb n 2147483647
fits_int (whole (negsuc n)) = leb n 2147483647
fits_int fractional = false

-- the reference to the check, and the types of the columns
abbrev pub result_fits : Option AgentCheck → CheckResult → Bool
result_fits check r =
    is_some check
    && leb (text_length r.status) 10
    && fits_int r.response_ms
    && fits_message r.message

abbrev pub insert_result : CheckResult → AgentDb → AgentDb
insert_result r db = record db { results = db.results ++ r ∷ [] }

abbrev pub store_if : Bool → CheckResult → AgentHandler (Unit {0})
store_if true r = modify (insert_result r)
store_if false r = raise "value not allowed"

abbrev pub store_result : CheckResult → AgentHandler (Unit {0})
store_result r = do check ← gets (check_by r.check_id); store_if (result_fits check r) r

abbrev pub store_results : List CheckResult → AgentHandler (Unit {0})
store_results [] = pure tt
store_results (r ∷ rs) = do store_result r; store_results rs

abbrev pub none_sent : List CheckResult → Bool
none_sent [] = true
none_sent (r ∷ rs) = false

abbrev pub results_body : ℕ → String → List CheckResult → AgentHandler AgentReply
results_body asset_id token results = do
  reject_if (asset_id == 0 || is_empty token || none_sent results)
      (refused 400 "asset_id, token, results required")
  authorized token asset_id
  store_results results
  pure (counted (length results))

-- POST
unfoldable pub post_results : ℕ → String → List CheckResult → AgentDb → AgentReply × AgentDb
post_results asset_id token results db = or_500 (results_body asset_id token results db)
