-- ===== src/Trading/Lifecycle.antt =====
-- services/execution-gateway/internal/trading/lifecycle.go and lifecycle_refresh.go: what the rows
-- of the build orders say about a trade.
pub mod Refreshed
use complete_dashboard.Prelude.{
  ℕ, ◌+◌, ◌≤◌, ◌<◌, ◌≡◌, ◌≢◌, refl, eq_iff, ◌↔◌, ◌⊎◌, inl, inr, ◌&&◌, ◌||◌, String, Bool, true,
  false, not, List, [], ◌∷◌, arith, leb, ltb, if◌then◌else◌, ◌==◌, str_eq, to_upper, trim_space,
  All, length,
}
use mathlib.Core.Bool.{false≢true}
use complete_dashboard.Prelude.Int.{ℤ, pos, ltb_ℤ, leb_ℤ}

abbrev pub trade_status_pending_fill : String
trade_status_pending_fill = "PENDING_FILL"

abbrev pub trade_status_failed : String
trade_status_failed = "FAILED"

abbrev pub trade_status_active : String
trade_status_active = "ACTIVE"

pub record BuildPendingFillError : Type 0 where
  pub intent_id : String
  pub broker_order_id : String
  pub status : String
  pub filled_qty : ℤ
  pub pending_qty : ℤ

unfoldable pub new_build_pending_fill_error :
    String → String → String → ℤ → ℤ → BuildPendingFillError
new_build_pending_fill_error intent_id broker_order_id status filled_qty pending_qty = record {
  intent_id = intent_id;
  broker_order_id = trim_space broker_order_id;
  status = to_upper (trim_space status);
  filled_qty = filled_qty;
  pending_qty = pending_qty;
}

-- What a build may return as an error.
pub data BuildError : Type 0 where
  pending_fill : BuildPendingFillError → BuildError
  invalid_build_quantity : ℤ → ℤ → BuildError
  chunk_failed : ℕ → BuildError

unfoldable pub is_build_pending_fill : BuildError → Bool
is_build_pending_fill (pending_fill e) = true
is_build_pending_fill (invalid_build_quantity token quantity) = false
is_build_pending_fill (chunk_failed n) = false

unfoldable pub build_failure_status_from_error : BuildError → String
unfolding is_build_pending_fill
build_failure_status_from_error e =
    if is_build_pending_fill e then trade_status_pending_fill else trade_status_failed

-- The counts are int64 in the source; COUNT(*) is never negative.
pub record BuildOrderLifecycleCounts : Type 0 where
  pub total : ℕ
  pub filled : ℕ
  pub pending : ℕ
  pub terminal_fail : ℕ
  pub unknown : ℕ

unfoldable pub derive_trade_status_from_build_counts : BuildOrderLifecycleCounts → String
derive_trade_status_from_build_counts c =
    if leb c.total 0
    then trade_status_failed
    else if c.filled == c.total
    then trade_status_active
    else if ltb 0 c.pending
    then trade_status_pending_fill
    else if ltb 0 c.filled && ltb c.filled c.total
    then trade_status_pending_fill
    else if c.terminal_fail == c.total
    then trade_status_failed
    else if ltb 0 c.unknown
    then trade_status_pending_fill
    else trade_status_failed

-- A build order as the query's CTE reads it.
pub record BuildRow : Type 0 where
  pub status : String
  pub filled_qty : ℤ
  pub quantity : ℤ

abbrev pub is_filled_status : String → Bool
is_filled_status s = str_eq s "FILLED" || str_eq s "SUCCESS"

abbrev pub is_open_status : String → Bool
is_open_status s = str_eq s "OPEN" || str_eq s "SUBMITTED" || str_eq s "PARTIALLY_FILLED"

abbrev pub is_dead_status : String → Bool
is_dead_status s = str_eq s "REJECTED" || str_eq s "CANCELLED" || str_eq s "CANCELED"

-- The FILTER conditions of the four counts.
unfoldable pub counts_filled : BuildRow → Bool
counts_filled r =
    is_filled_status r.status && leb_ℤ r.quantity r.filled_qty && ltb_ℤ (pos 0) r.quantity

unfoldable pub counts_pending : BuildRow → Bool
counts_pending r = is_open_status r.status && ltb_ℤ r.filled_qty r.quantity

unfoldable pub counts_dead : BuildRow → Bool
counts_dead r = is_dead_status r.status

unfoldable pub counts_unknown : BuildRow → Bool
counts_unknown r =
    not (is_filled_status r.status || is_open_status r.status || is_dead_status r.status)

-- COUNT(*) FILTER (WHERE …)
unfoldable pub count_where : (BuildRow → Bool) → List BuildRow → ℕ
count_where test [] = 0
count_where test (r ∷ rows) = (if test r then 1 else 0) + count_where test rows

unfoldable pub lifecycle_counts : List BuildRow → BuildOrderLifecycleCounts
lifecycle_counts rows = record {
  total = length rows;
  filled = count_where counts_filled rows;
  pending = count_where counts_pending rows;
  terminal_fail = count_where counts_dead rows;
  unknown = count_where counts_unknown rows;
}

unfoldable pub refreshed_status : List BuildRow → String
refreshed_status rows = derive_trade_status_from_build_counts (lifecycle_counts rows)
