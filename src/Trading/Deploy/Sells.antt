-- ===== src/Trading/Deploy/Sells.antt =====
-- What `DeployStraddle` sells.
use mathlib.Core.Path.{subst}
use complete_dashboard.Prelude.{
  neither, ℕ, ◌+◌, ◌*◌, ◌^◌, ◌≤◌, ◌<◌, ◌≡◌, All, ◌∙◌, ◌+s◌, refl, sym, Bool, true, false, ◌||◌,
  String, List, [], ◌∷◌, Result, ok, err, ◌>>◌, first_step, ok_inj, arith, sum_by, str_eq, not,
}
use complete_dashboard.Prelude.Int.{ℤ, pos, negsuc, pos_part, ◌*ℤ◌, not_pos, ltb_ℤ, eqb_ℤ}
use complete_dashboard.Prelude.Float.{Float64}
use complete_dashboard.Chunker.{LegData, ExecOrder, ChunkError, generate_chunked_orders}
use complete_dashboard.Chunker.Conserves.{IsValidCall}
use complete_dashboard.Chunker.Guards.{IsChecked, generate_chunked_orders-IsChecked}
use complete_dashboard.Chunker.Totals.{quantity_of, generate_chunked_orders-keeps_quantity}
use complete_dashboard.Trading.Models.{
  OptionChainSnapshot, StoredTrade, DeployStraddleRequest, DeployStraddleResponse,
}
use complete_dashboard.Trading.Lifecycle.{BuildError}
use complete_dashboard.Trading.Symbols.{max_order_qty_for_symbol}
use complete_dashboard.Trading.Build.{World, Gateway, execute_build}
use complete_dashboard.Trading.Build.Fills.{
  FillsWhole, filled_in, execute_build-BuildFills, BuildFills,
}
use complete_dashboard.Trading.Deploy.Plan.{
  size_legs, PlanError, Rows, plan_rows, Services, DeployPlan, plan_straddle, new_trade, some_or,
  refuse_if, normalize_request, choose_rows, choose_lot_size,
}
use complete_dashboard.Trading.Deploy.{
  DeployError, put_trade, build_legs, straddle_chunks, finish_build, run_build, run_plan,
  deploy_straddle,
}

-- What the plan's last guards establish.
record IsPlanned {F : Type 0} (p : DeployPlan F) : Type 0 where
  ce_qty_eq : p.trade.ce_qty ≡ p.ce_lots *ℤ p.trade.lot_size
  pe_qty_eq : p.trade.pe_qty ≡ p.pe_lots *ℤ p.trade.lot_size
  ce_qty_pos : not_pos p.trade.ce_qty ≡ false
  pe_qty_pos : not_pos p.trade.pe_qty ≡ false
  lot_pos : not_pos p.trade.lot_size ≡ false

not_refused :
    {A : Type 0} (b : Bool) (e : PlanError) (r : Result PlanError A) {a : A}
    → (refuse_if b e >> r) ≡ ok a
    → (b ≡ false) × (r ≡ ok a)
not_refused true e r h = cc
not_refused false e r h = (refl, h)

module _ (fl : Float64) where
  plan_rows-IsPlanned :
      (services : Services fl.F) (now : ℕ) (req : DeployStraddleRequest)
      (chain : OptionChainSnapshot fl.F) (rows : Rows fl.F) {p : DeployPlan fl.F}
      → plan_rows fl services now req chain rows ≡ ok p
      → IsPlanned p
  unfolding plan_rows new_trade
  plan_rows-IsPlanned services now req chain rows h =
      let lot_size = choose_lot_size services req chain in
      let trade =
        new_trade fl services now req chain rows (size_legs fl req rows lot_size) lot_size in
      let (_, h1) =
        not_refused (eqb_ℤ trade.ce_token (pos 0) || eqb_ℤ trade.pe_token (pos 0)) _ _ h in
      let (_, h2) =
        not_refused (fl.fle trade.ce_ltp (fl.lit 0 0) || fl.fle trade.pe_ltp (fl.lit 0 0)) _ _ h1 in
      let (lot, h3) = not_refused (not_pos lot_size) _ _ h2 in
      let (_, h4) = not_refused (not_pos req.lots) _ _ h3 in
      let (_, h5) = not_refused (ltb_ℤ (pos 1) req.lots) _ _ h4 in
      let (qty, h6) = not_refused (not_pos trade.ce_qty || not_pos trade.pe_qty) _ _ h5 in
      subst IsPlanned (ok_inj h6) (record {
        ce_qty_eq = refl;
        pe_qty_eq = refl;
        ce_qty_pos = (neither (not_pos trade.ce_qty) (not_pos trade.pe_qty) qty).0;
        pe_qty_pos = (neither (not_pos trade.ce_qty) (not_pos trade.pe_qty) qty).1;
        lot_pos = lot;
      })

  plan_straddle-IsPlanned :
      (services : Services fl.F) (now : ℕ) (request : DeployStraddleRequest) {p : DeployPlan fl.F}
      → plan_straddle fl services now request ≡ ok p
      → IsPlanned p
  unfolding plan_straddle
  plan_straddle-IsPlanned services now request h =
      let req = normalize_request services.default_client_id request in
      let (_, h1) = not_refused (str_eq req.symbol "") _ _ h in
      let (_, h2) =
        not_refused (not (services.has_executor req.user_id req.broker_name req.account_id)) _ _
          h1 in
      let (chain, _, h3) =
        first_step (some_or (services.get_option_chain req.symbol req.target_expiry) _) _ h2 in
      let (rows, _, h4) = first_step (choose_rows fl req chain) _ h3 in
      plan_rows-IsPlanned services now req chain rows h4

-- The quantity planned, each token with a weight.
abbrev pub planned_quantity : {F : Type 0} → (ℤ → ℕ) → StoredTrade F → ℕ
planned_quantity keep trade =
    keep trade.ce_token * pos_part trade.ce_qty + keep trade.pe_token * pos_part trade.pe_qty

-- The leg of one option type.
abbrev sold_leg : {F : Type 0} → DeployPlan F → String → ℤ → ℤ → F → LegData F
sold_leg p option_type token lots price = record {
  token = token;
  symbol = p.trade.symbol;
  option_type = option_type;
  action = "SELL";
  total_lots = lots;
  lot_size = p.trade.lot_size;
  expected_price = price;
  exchange_segment = p.trade.exchange_segment;
}

lots_pos : (n size : ℤ) → not_pos size ≡ false → not_pos (n *ℤ size) ≡ false → not_pos n ≡ false
unfolding ◌*ℤ◌
lots_pos (pos n) (pos s) h k = grind arith
lots_pos (negsuc n) (pos s) h k = grind arith
lots_pos n (negsuc s) h k = absurd (grind arith)

parts_mul : (n size : ℤ) → not_pos size ≡ false → pos_part (n *ℤ size) ≡ pos_part n * pos_part size
unfolding ◌*ℤ◌
parts_mul (pos n) (pos s) h = grind arith
parts_mul (negsuc n) (pos s) h = grind arith
parts_mul n (negsuc s) h = absurd (grind arith)

module _ (fl : Float64) (world : World fl.F) (p : DeployPlan fl.F) (planned : IsPlanned p) where
  abbrev ce : LegData fl.F
  ce = sold_leg p "CE" p.trade.ce_token p.ce_lots p.trade.ce_ltp

  abbrev pe : LegData fl.F
  pe = sold_leg p "PE" p.trade.pe_token p.pe_lots p.trade.pe_ltp

  build_legs-both : build_legs fl world p ≡ ce ∷ pe ∷ []
  unfolding build_legs
  build_legs-both =
      let lot = planned.lot_pos in
      rw
        (
          lots_pos p.ce_lots p.trade.lot_size lot (rw (sym planned.ce_qty_eq) planned.ce_qty_pos),
          lots_pos p.pe_lots p.trade.lot_size lot (rw (sym planned.pe_qty_eq) planned.pe_qty_pos),
        )
        refl

  legs_valid :
      pos_part p.trade.lot_size < 2 ^ 63
      → (not_pos (pos (max_order_qty_for_symbol p.trade.symbol)) ≡ false)
        × All IsChecked (ce ∷ pe ∷ [])
      → IsValidCall ce (pe ∷ []) (pos (max_order_qty_for_symbol p.trade.symbol))
  unfolding max_order_qty_for_symbol
  legs_valid small (max_ok, (ce_ok, (pe_ok, _))) = record {
    max_pos = max_ok;
    max_fits = ground arith;
    lot_fits = small;
    first_lot_pos = planned.lot_pos;
    legs_valid =
        ((ce_ok.0, ce_ok.1, ce_ok.2, omega arith), ((pe_ok.0, pe_ok.1, pe_ok.2, omega arith), tt));
  }

  straddle_chunks-keeps :
      (now : ℕ) {chunks : List (List (ExecOrder fl.F))} (keep : ℤ → ℕ)
      → pos_part p.trade.lot_size < 2 ^ 63
      → straddle_chunks fl world p now ≡ ok chunks
      → sum_by (sum_by (quantity_of keep)) chunks ≡ planned_quantity keep p.trade
  unfolding straddle_chunks
  straddle_chunks-keeps now {chunks} keep small h =
      let limit = pos (max_order_qty_for_symbol p.trade.symbol) in
      let prefix = "BUI_" +s p.trade.trade_uid in
      let per_call = p.trade.config.order_lots_per_call in
      let returned : generate_chunked_orders fl (world.unix_micro now) prefix (ce ∷ pe ∷ [])
            p.trade.lots limit per_call
          ≡ ok chunks =
        rw (sym build_legs-both) h in
      let valid = legs_valid small (
        generate_chunked_orders-IsChecked fl (world.unix_micro now) prefix p.trade.lots limit
          per_call ce (pe ∷ []) returned) in
      let (made, again, weighs) =
        generate_chunked_orders-keeps_quantity fl (world.unix_micro now) prefix ce (pe ∷ [])
          p.trade.lots limit per_call valid keep in
      let same = ok_inj (sym returned ∙ again) in
      let ce_eq : pos_part p.trade.ce_qty ≡ pos_part p.ce_lots * pos_part p.trade.lot_size =
        rw planned.ce_qty_eq (parts_mul p.ce_lots p.trade.lot_size planned.lot_pos) in
      let pe_eq : pos_part p.trade.pe_qty ≡ pos_part p.pe_lots * pos_part p.trade.lot_size =
        rw planned.pe_qty_eq (parts_mul p.pe_lots p.trade.lot_size planned.lot_pos) in
      rw (same, ce_eq, pe_eq) (omega (arith, weighs))

-- What a deployment has sold: all that was planned where it succeeds, and no more where it fails.
abbrev pub Sold :
    {F : Type 0}
    → (ℤ → ℕ)
    → ℕ
    → ℕ
    → Result DeployError (DeployStraddleResponse F) × Gateway F
    → Type 0
Sold keep planned before (ok resp, gw) = filled_in keep gw ≡ before + planned
Sold keep planned before (err e, gw) = filled_in keep gw ≤ before + planned

module _ (fl : Float64) (world : World fl.F) (keep : ℤ → ℕ) (whole : FillsWhole world) where
  finish_build-Sold :
      (trade : StoredTrade fl.F) (ordered before : ℕ)
      (r : Result BuildError (Unit {0}) × Gateway fl.F)
      → BuildFills fl world keep trade whole ordered before r
      → Sold keep ordered before (finish_build fl world trade r)
  unfolding finish_build put_trade
  finish_build-Sold trade ordered before (ok u, gw) h = h
  finish_build-Sold trade ordered before (err e, gw) h = h

  run_build-Sold :
      (trade : StoredTrade fl.F) (planned : ℕ) (gw : Gateway fl.F)
      (r : Result ChunkError (List (List (ExecOrder fl.F))))
      → ((chunks : List (List (ExecOrder fl.F)))
          → r ≡ ok chunks
          → sum_by (sum_by (quantity_of keep)) chunks ≡ planned)
      → Sold keep planned (filled_in keep gw) (run_build fl world trade gw r)
  unfolding run_build
  run_build-Sold trade planned gw (err e) h = omega arith
  run_build-Sold trade planned gw (ok chunks) h = rw (sym (h chunks refl)) (
      finish_build-Sold trade _ _ (execute_build fl world trade chunks gw)
        (execute_build-BuildFills fl world keep trade whole chunks gw))

  -- Against any broker that fills an order whole where it answers a fill, and otherwise not at all,
  -- and where the plan of a deployment is made and its lot size is an `int`: a deployment that
  -- returns a response has filled exactly the planned quantity of both options, token by token, and
  -- one that fails no more than that.
  pub deploy_straddle-Sold :
      (services : Services fl.F) (req : DeployStraddleRequest) (gw : Gateway fl.F)
      (p : DeployPlan fl.F)
      → plan_straddle fl services (world.clock gw.calls) req ≡ ok p
      → pos_part p.trade.lot_size < 2 ^ 63
      → Sold keep
          (planned_quantity keep p.trade)
          (filled_in keep gw)
          (deploy_straddle fl world services req gw)
  unfolding deploy_straddle put_trade run_plan run_build
  deploy_straddle-Sold services req gw p made small =
      let planned = plan_straddle-IsPlanned fl services (world.clock gw.calls) req made in
      rw made (
        run_build-Sold p.trade (planned_quantity keep p.trade) (put_trade fl world gw p.trade)
          (straddle_chunks fl world p (world.clock gw.calls))
          (λ chunks e.
            straddle_chunks-keeps fl world p planned (world.clock gw.calls) keep small e))
