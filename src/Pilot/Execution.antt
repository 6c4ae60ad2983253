-- ===== src/Pilot/Execution.antt =====
-- src/evalops/pilot/execution.py: the request budget and the store of the state. A record is its
-- status and its serialised text; `takes` says whether the device takes the write.
use Prim.Native.String.{◌++◌ as append}
use evalops_lab.Common.{
  ℕ, ◌+◌, String, Bool, false, not, ◌&&◌, Option, none, some, Result, ok, raise, ◌>>◌, raise_if,
  Dict, lookup, insert, leb, ltb, ◌==◌, string_eq, nat_eq, if◌then◌else◌,
}

-- PilotRequestLimitError, the ValueErrors, and an OSError of a write.
pub data PilotError : Type 0 where
  request_limit bad_maximum immutable_result os_error : PilotError

pub record RequestBudget : Type 0 where
  pub max_requests : Option ℕ
  pub requests_used : ℕ

-- `RequestBudget.__init__`
unfoldable pub new_budget : Option ℕ → Result PilotError RequestBudget
new_budget none = ok (record { max_requests = none; requests_used = 0 })
new_budget (some m) = do
  raise_if (ltb m 1) bad_maximum
  ok (record { max_requests = some m; requests_used = 0 })

abbrev pub is_used_up : RequestBudget → Bool
is_used_up b = elim b.max_requests [ none ↦ false | some m ↦ leb m b.requests_used ]

unfoldable pub reserve : RequestBudget → Result PilotError (Unit {0}) × RequestBudget
reserve b =
    if is_used_up b
    then (raise request_limit, b)
    else (ok tt, record b { requests_used = b.requests_used + 1 })

pub record PilotRunRecord : Type 0 where
  pub provider : String
  pub example_id : String
  pub status : String
  pub serialized : String

-- The records in memory, and those of the file.
pub record PilotStateStore : Type 0 where
  pub records : Dict String PilotRunRecord
  pub saved : Dict String PilotRunRecord

-- `_key`
unfoldable pub state_key : String → String → String
state_key provider example_id = append provider (append ":" example_id)

unfoldable pub is_successful : String → String → PilotStateStore → Bool
unfolding state_key
is_successful provider example_id s = elim (lookup (state_key provider example_id) s.records) [
  | none ↦ false
  | some r ↦ r.status == "SUCCESS"
]

-- `upsert` with `_write_atomic`.
unfoldable pub upsert :
    Bool → PilotRunRecord → PilotStateStore → Result PilotError (Unit {0}) × PilotStateStore
unfolding is_successful state_key
upsert takes r s =
    let key = state_key r.provider r.example_id in
    let changed : Bool = elim (lookup key s.records) [
      | none ↦ false
      | some old ↦ not (old.serialized == r.serialized)
    ] in
    let records = insert key r s.records in
    if is_successful r.provider r.example_id s
    then (if r.status == "SUCCESS" && changed then (raise immutable_result, s) else (ok tt, s))
    else if takes
    then (ok tt, record { records = records; saved = records })
    else (raise os_error, record s { records = records })
