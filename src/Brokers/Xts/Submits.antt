-- ===== src/Brokers/Xts/Submits.antt =====
-- An XTS order is never reported as filled, so no build against XTS succeeds.
use complete_dashboard.Prelude.{
  text_or, ℕ, ◌<◌, ◌≡◌, refl, String, Bool, true, false, not, Option, none, some, List, Result, err,
  ok, ◌>>◌, Yields, Yields-bind, str_eq, ◌+s◌, to_upper, trim_space, arith, sum_by,
}
use complete_dashboard.Prelude.Int.{ℤ, not_pos}
use mathlib.Core.Path.{subst}
use complete_dashboard.Prelude.Int.{pos}
use complete_dashboard.Prelude.Float.{Float64}
use complete_dashboard.Prelude.Json.{JsonText}
use complete_dashboard.Chunker.{ExecOrder}
use complete_dashboard.Chunker.Totals.{quantity_of}
use complete_dashboard.Trading.Models.{StoredTrade, OrderIntent, ExecutionResult}
use complete_dashboard.Trading.Lifecycle.{BuildError}
use complete_dashboard.Trading.Build.{
  World, Gateway, send, after_send, record_intent, record_execution, execute_build,
}
use complete_dashboard.Trading.Build.Fills.{
  FillsWhole, IsWholeFill, filled_by, filled_in, BuildFills, execute_build-BuildFills,
}
use complete_dashboard.Trading.Build.Keeps.{execute_build-keeps}
use complete_dashboard.Brokers.Xts.{
  XtsExecutor, XtsError, XtsPayload, XtsReply, require, xts_payload, check_reply, answer_of,
  execute_order_intent,
}

require_then :
    {A : Type 0} (P : A → Type 0) (b : Bool) (e : XtsError) (r : Result XtsError A)
    → (b ≡ true → Yields P r)
    → Yields P (require b e >> r)
require_then P true e r h = h refl
require_then P false e r h = tt

module _ (fl : Float64) where
  -- A payload that asks the broker for what the intent says, with all that it needs.
  pub record IsXtsOrder (intent : OrderIntent fl.F) (p : XtsPayload fl.F) : Type 0 where
    pub same_token : p.exchange_instrument_id ≡ intent.token
    pub same_quantity : p.order_quantity ≡ intent.quantity
    pub token_pos : not (not_pos p.exchange_instrument_id) ≡ true
    pub quantity_pos : not (not_pos p.order_quantity) ≡ true
    pub has_side : not (str_eq p.order_side "") ≡ true
    pub has_client : not (str_eq p.client_id "") ≡ true

  -- A payload is made only for an intent with a positive token and quantity, and it carries these
  -- with a side and a client that are not blank.
  pub xts_payload-IsXtsOrder :
      (e : XtsExecutor) (now : ℕ) (intent : OrderIntent fl.F)
      → Yields (IsXtsOrder intent) (xts_payload fl e now intent)
  unfolding xts_payload
  xts_payload-IsXtsOrder e now intent =
      let P = IsXtsOrder intent in
      let client = text_or (trim_space intent.account_id) (trim_space e.client_id) in
      let side = to_upper (trim_space intent.side) in
      require_then P (not (str_eq (trim_space e.base_url) "")) _ _ (λ _.
        require_then P (not (str_eq (trim_space e.token) "")) _ _ (λ _.
          require_then P (not (str_eq client "")) _ _ (λ has_client.
            require_then P (not (str_eq side "")) _ _ (λ has_side.
              require_then P (not (not_pos intent.quantity)) _ _ (λ quantity_pos.
                require_then P (not (not_pos intent.token)) _ _ (λ token_pos. record {
                  same_token = refl;
                  same_quantity = refl;
                  token_pos = token_pos;
                  quantity_pos = quantity_pos;
                  has_side = has_side;
                  has_client = has_client;
                }))))))

module _ (fl : Float64) (json : JsonText fl.F) (marshal_payload : XtsPayload fl.F → String)
    (post : String → String → XtsPayload fl.F → Option (XtsReply fl.F)) (e : XtsExecutor) where
  abbrev IsSubmitted : ExecutionResult fl.F → Type 0
  IsSubmitted res = (res.status ≡ "SUBMITTED") × (res.filled_qty ≡ pos 0)

  anything : {A : Type 0} (r : Result XtsError A) → Yields (λ a. Unit {0}) r
  anything (err x) = tt
  anything (ok a) = tt

  execute_order_intent-IsSubmitted :
      (now : ℕ) (intent : OrderIntent fl.F)
      → Yields IsSubmitted (execute_order_intent fl json marshal_payload post e now intent)
  unfolding execute_order_intent
  execute_order_intent-IsSubmitted now intent =
      Yields-bind _ IsSubmitted (xts_payload fl e now intent) _ (anything _) (λ p _.
        Yields-bind _ IsSubmitted
          (answer_of fl json marshal_payload post
            (post (e.base_url +s "/interactive/orders") e.token p))
          _ (anything _)
          (λ reply _.
            Yields-bind _ IsSubmitted (check_reply fl json reply) _ (anything _)
              (λ u _. (refl, refl))))

  abbrev result_or_none : Result XtsError (ExecutionResult fl.F) → Option (ExecutionResult fl.F)
  result_or_none (err x) = none
  result_or_none (ok res) = some res

  -- The executor as the broker of a build; the time is that of the world's clock.
  abbrev pub with_xts : World fl.F → World fl.F
  with_xts world = record world {
    broker = λ calls intent.
        result_or_none
          (execute_order_intent fl json marshal_payload post e (world.clock calls) intent);
  }

  unfilled :
      (keep : ℤ → ℕ) (intent : OrderIntent fl.F) (r : Result XtsError (ExecutionResult fl.F))
      → Yields IsSubmitted r
      → filled_by keep (record { intent = intent; reply = result_or_none r }) ≡ 0
  unfilled keep intent (err x) h = refl
  unfilled keep intent (ok res) h = rw (h.1) (omega arith)

  answered_whole :
      (intent : OrderIntent fl.F) (r : Result XtsError (ExecutionResult fl.F))
      → Yields IsSubmitted r
      → (res : ExecutionResult fl.F) → result_or_none r ≡ some res
      → IsWholeFill intent res
  answered_whole intent (err x) h res e = cc
  answered_whole intent (ok res') h res e =
      let same : res' ≡ res = cc in subst (IsWholeFill intent) same (rw (h.0) (h.1))

  with_xts-FillsWhole : (world : World fl.F) → FillsWhole (with_xts world)
  with_xts-FillsWhole world calls intent res replied =
      answered_whole intent
        (execute_order_intent fl json marshal_payload post e (world.clock calls) intent)
        (execute_order_intent-IsSubmitted (world.clock calls) intent) res replied

  fails :
      (world : World fl.F) (keep : ℤ → ℕ) (trade : StoredTrade fl.F) (whole : FillsWhole world)
      (ordered before : ℕ) (r : Result BuildError (Unit {0}) × Gateway fl.F)
      → BuildFills fl world keep trade whole ordered before r
      → filled_in keep r.1 ≡ before
      → 0 < ordered
      → (b : BuildError) × (r.0 ≡ err b)
  fails world keep trade whole ordered before (ok u, gw) h k lt = absurd (omega (arith, h, k, lt))
  fails world keep trade whole ordered before (err b, gw) h k lt = (b, refl)

  sends_unfilled :
      (world : World fl.F) (keep : ℤ → ℕ) (n : ℕ) (gw : Gateway fl.F) (intent : OrderIntent fl.F)
      → filled_in keep gw ≡ n
      → filled_in keep (after_send fl (with_xts world) gw intent) ≡ n
  unfolding after_send send
  sends_unfilled world keep n gw intent h =
      let now = world.clock gw.calls in
      omega (
        arith,
        h,
        unfilled keep intent (execute_order_intent fl json marshal_payload post e now intent)
            (execute_order_intent-IsSubmitted now intent),
      )

  -- No build of orders with a positive total quantity succeeds against XTS, whatever XTS answers.
  pub execute_build-with_xts :
      (world : World fl.F) (keep : ℤ → ℕ) (trade : StoredTrade fl.F)
      (chunks : List (List (ExecOrder fl.F))) (gw : Gateway fl.F)
      → 0 < sum_by (sum_by (quantity_of keep)) chunks
      → (b : BuildError) × ((execute_build fl (with_xts world) trade chunks gw).0 ≡ err b)
  unfolding record_intent record_execution
  execute_build-with_xts world keep trade chunks gw h =
      let w = with_xts world in
      let n = filled_in keep gw in
      fails w keep trade (with_xts-FillsWhole world) (sum_by (sum_by (quantity_of keep)) chunks) n
        (execute_build fl w trade chunks gw)
        (execute_build-BuildFills fl w keep trade (with_xts-FillsWhole world) chunks gw)
        (execute_build-keeps fl w trade (λ g. filled_in keep g ≡ n) (λ g i k. k)
          (λ g i k. sends_unfilled world keep n g i k) (λ g id res k. k) chunks gw refl)
        h
