-- ===== src/Trading/Hedge/Ends.antt =====
-- What `ManualHedgeBrokerOrder` sends.
use complete_dashboard.Prelude.{
  ℕ, ◌+◌, ◌≡◌, refl, sym, ap, ◌∙◌, Bool, true, false, Bool-cases, inl, inr, String, Option, none,
  some, List, [], ◌∷◌, ◌++◌, append_assoc, Result, ok, err, arith, if◌then◌else◌, All, All-append,
  length, length-append,
}
use complete_dashboard.Prelude.Float.{Float64}
use complete_dashboard.Trading.Models.{StoredTrade, OrderIntent, ExecutionResult}
use complete_dashboard.Trading.Store.{load_trade}
use complete_dashboard.Trading.Build.{
  World, Gateway, Call, send, after_send, record_intent, record_intents, record_execution,
}
use complete_dashboard.Trading.Hedge.{
  HedgeError, hedge_failed, HedgeOutcome, ManualHedgeBrokerRequest, plan_broker_hedge,
  manual_hedge_broker_execution_enabled,
}
use complete_dashboard.Trading.Hedge.Broker.{
  send_hedge, run_broker_hedge, broker_hedge_loaded, manual_hedge_broker_order,
}
use complete_dashboard.Prelude.Int.{not_pos}
use complete_dashboard.Trading.Hedge.Placeable.{
  IsPlaceable, BothPlaceable, plan_broker_hedge-BothPlaceable,
}
use complete_dashboard.Prelude.{Yields, ◌>>=◌, ◌>>◌, to_upper, trim_space, str_eq, ◌||◌}
use complete_dashboard.Trading.Hedge.{
  fail_when, default_manual_hedge_qty, default_manual_hedge_sides, hedge_sides,
  normalize_manual_hedge_side,
}

abbrev broken_calls : Option HedgeError → ℕ
broken_calls none = 0
broken_calls (some (hedge_failed leg)) = 1
broken_calls (some e) = 0

-- The calls that an outcome tells of: none in a dry run, else one for each result and one for a
-- call that the broker answered with an error.
abbrev pub told : {F : Type 0} → HedgeOutcome F → ℕ
told out = if out.dry_run then 0 else length out.results + broken_calls out.error

-- The calls made since `gw`: all for placeable orders, and as many as the outcome tells of.
abbrev pub HedgeEnds : {F : Type 0} → Gateway F → HedgeOutcome F × Gateway F → Type 0
HedgeEnds {F} gw (out, gw') =
    (made : List (Call F)) × (gw'.calls ≡ made ++ gw.calls)
    × All (λ c. IsPlaceable c.intent) made
    × (length made ≡ told out)

-- An error that no broker call has caused.
abbrev Unsent : {A : Type 0} → Result HedgeError A → Type 0
Unsent (err e) = broken_calls (some e) ≡ 0
Unsent (ok a) = Unit

Unsent-bind :
    {A B : Type 0} (m : Result HedgeError A) (f : A → Result HedgeError B)
    → Unsent m
    → ((a : A) → Unsent (f a))
    → Unsent (m >>= f)
Unsent-bind (err e) f h k = h
Unsent-bind (ok a) f h k = k a

fail_when-Unsent :
    {B : Type 0} (b : Bool) (e : HedgeError) (r : Result HedgeError B)
    → broken_calls (some e) ≡ 0
    → Unsent r
    → Unsent (fail_when b e >> r)
fail_when-Unsent true e r h k = h
fail_when-Unsent false e r h k = k

default_manual_hedge_sides-Unsent :
    (direction : String) → Unsent (default_manual_hedge_sides direction)
unfolding default_manual_hedge_sides
default_manual_hedge_sides-Unsent direction =
    let d = to_upper (trim_space direction) in
    elim (Bool-cases (str_eq d "NEGATIVE_DELTA" || str_eq d "NEGATIVE" || str_eq d "SHORT_DELTA")) [
      | inl b ↦ rw b tt
      | inr b ↦
          elim (Bool-cases
            (str_eq d "POSITIVE_DELTA" || str_eq d "POSITIVE" || str_eq d "LONG_DELTA")) [
              | inl c ↦ rw (b, c) tt
              | inr c ↦ rw (b, c) refl
            ]
    ]

hedge_sides-Unsent : {F : Type 0} (req : ManualHedgeBrokerRequest F) → Unsent (hedge_sides req)
unfolding hedge_sides
hedge_sides-Unsent req =
    let ce = normalize_manual_hedge_side req.ce_side in
    let pe = normalize_manual_hedge_side req.pe_side in
    elim (Bool-cases (str_eq ce "" || str_eq pe "")) [
      | inl b ↦ rw b (
          Unsent-bind (default_manual_hedge_sides req.direction) _
            (default_manual_hedge_sides-Unsent req.direction) (λ s. tt))
      | inr b ↦ rw b tt
    ]

plan_broker_hedge-Unsent :
    (fl : Float64) (tr : StoredTrade fl.F) (uid stamp : String)
    (req : ManualHedgeBrokerRequest fl.F)
    → Unsent (plan_broker_hedge fl tr uid stamp req)
unfolding plan_broker_hedge
plan_broker_hedge-Unsent fl tr uid stamp req =
    let ce = default_manual_hedge_qty tr "CE" req.ce_quantity in
    let pe = default_manual_hedge_qty tr "PE" req.pe_quantity in
    Unsent-bind (hedge_sides req) _ (hedge_sides-Unsent req) (λ s.
      fail_when-Unsent (not_pos ce || not_pos pe) _ _ refl
        (fail_when-Unsent (not_pos tr.ce_token || not_pos tr.pe_token) _ _ refl tt))

module _ (fl : Float64) (world : World fl.F) where
  record_intents-calls :
      (gw : Gateway fl.F) (uid : String) (is : List (OrderIntent fl.F))
      → (record_intents fl world gw uid is).calls ≡ gw.calls
  unfolding record_intent
  record_intents-calls gw uid [] = refl
  record_intents-calls gw uid (i ∷ is) =
      record_intents-calls (record_intent fl world gw uid i) uid is

  abbrev SendEnds : ℕ → Gateway fl.F → HedgeOutcome fl.F × Gateway fl.F → Type 0
  SendEnds before gw (out, gw') =
      (made : List (Call fl.F)) × (gw'.calls ≡ made ++ gw.calls)
      × All (λ c. IsPlaceable c.intent) made
      × (length made + before ≡ told out)

  one_more :
      (before : ℕ) (gw : Gateway fl.F) (c : Call fl.F) (r : HedgeOutcome fl.F × Gateway fl.F)
      (next : Gateway fl.F)
      → next.calls ≡ c ∷ gw.calls
      → IsPlaceable c.intent
      → SendEnds (before + 1) next r
      → SendEnds before gw r
  one_more before gw c r next e p (made, calls, ok_made, counted) = (
    made ++ c ∷ [],
    calls ∙ ap (λ l. made ++ l) e ∙ sym (append_assoc made (c ∷ []) gw.calls),
    All-append (λ c. IsPlaceable c.intent) made (c ∷ []) ok_made (p, tt),
    omega (arith, length-append made (c ∷ []), counted),
  )

  send_one :
      (i : OrderIntent fl.F) (is : List (OrderIntent fl.F)) (results : List (ExecutionResult fl.F))
      (gw : Gateway fl.F) (o : Option (ExecutionResult fl.F))
      → send fl world gw i ≡ o
      → IsPlaceable i
      → ((results' : List (ExecutionResult fl.F)) (gw' : Gateway fl.F)
          → SendEnds (length results') gw' (send_hedge fl world is results' gw'))
      → SendEnds (length results) gw (send_hedge fl world (i ∷ is) results gw)
  unfolding send_hedge after_send record_execution
  send_one i is results gw none e p h =
      let c : Call fl.F = record { intent = i; reply = send fl world gw i } in
      rw (send_hedge, e) (c ∷ [], refl, (p, tt), omega arith)
  send_one i is results gw (some res) e p h =
      let c : Call fl.F = record { intent = i; reply = send fl world gw i } in
      let next = record_execution fl world (after_send fl world gw i) i.intent_id res in
      let counted : length (results ++ res ∷ []) ≡ length results + 1 =
        omega (arith, length-append results (res ∷ [])) in
      rw (send_hedge, e)
        (one_more (length results) gw c (send_hedge fl world is (results ++ res ∷ []) next) next
          refl p (rw (sym counted) (h (results ++ res ∷ []) next)))

  pub send_hedge-SendEnds :
      (is : List (OrderIntent fl.F)) (results : List (ExecutionResult fl.F)) (gw : Gateway fl.F)
      → All IsPlaceable is
      → SendEnds (length results) gw (send_hedge fl world is results gw)
  unfolding send_hedge
  send_hedge-SendEnds [] results gw h = ([], refl, tt, omega arith)
  send_hedge-SendEnds (i ∷ is) results gw h =
      send_one i is results gw (send fl world gw i) refl h.0
        (λ results' gw'. send_hedge-SendEnds is results' gw' h.1)

  from_recorded :
      (gw gw' : Gateway fl.F) (r : HedgeOutcome fl.F × Gateway fl.F)
      → gw'.calls ≡ gw.calls
      → SendEnds 0 gw' r
      → HedgeEnds gw r
  from_recorded gw gw' r e (made, calls, ok_made, counted) =
      (made, calls ∙ ap (λ l. made ++ l) e, ok_made, omega (arith, counted))

  run-HedgeEnds :
      (enabled : Bool) (has_executor : StoredTrade fl.F → Bool) (tr : StoredTrade fl.F)
      (uid : String) (gw : Gateway fl.F) (plan : Result HedgeError (List (OrderIntent fl.F)))
      → Yields BothPlaceable plan
      → Unsent plan
      → HedgeEnds gw (run_broker_hedge fl world enabled has_executor tr uid gw plan)
  unfolding run_broker_hedge
  run-HedgeEnds enabled has_executor tr uid gw (ok is) p q =
      let gw' = record_intents fl world gw uid is in
      let same = record_intents-calls gw uid is in
      elim (Bool-cases (manual_hedge_broker_execution_enabled enabled tr)) [
        | inl live ↦ elim (Bool-cases (has_executor tr)) [
          | inl found ↦
              rw (run_broker_hedge, live, found)
                (from_recorded gw gw' (send_hedge fl world is [] gw') same
                  (send_hedge-SendEnds is [] gw' p.1))
          | inr missing ↦ rw (run_broker_hedge, live, missing) ([], same, tt, refl)
        ]
        | inr dry ↦ rw (run_broker_hedge, dry) ([], same, tt, refl)
      ]
  run-HedgeEnds enabled has_executor tr uid gw (err e) p q = ([], refl, tt, omega (arith, q))

  loaded-HedgeEnds :
      (format_stamp : ℕ → String) (enabled : Bool) (has_executor : StoredTrade fl.F → Bool)
      (uid : String) (req : ManualHedgeBrokerRequest fl.F) (gw : Gateway fl.F)
      (o : Option (StoredTrade fl.F))
      → HedgeEnds gw (broker_hedge_loaded fl world format_stamp enabled has_executor uid req gw o)
  unfolding broker_hedge_loaded
  loaded-HedgeEnds format_stamp enabled has_executor uid req gw none = ([], refl, tt, refl)
  loaded-HedgeEnds format_stamp enabled has_executor uid req gw (some tr) =
      run-HedgeEnds enabled has_executor tr uid gw _
        (plan_broker_hedge-BothPlaceable fl tr uid (format_stamp (world.clock gw.calls)) req)
        (plan_broker_hedge-Unsent fl tr uid (format_stamp (world.clock gw.calls)) req)

  -- A hedge by hand calls the broker only for orders that it can take: BUY or SELL, for a positive
  -- quantity and token. It makes no call in a dry run, and otherwise one for each result that it
  -- returns and one more where it returns the error of a failed call.
  pub manual_hedge_broker_order-HedgeEnds :
      (format_stamp : ℕ → String) (enabled : Bool) (has_executor : StoredTrade fl.F → Bool)
      (uid : String) (req : ManualHedgeBrokerRequest fl.F) (gw : Gateway fl.F)
      → HedgeEnds gw
          (manual_hedge_broker_order fl world format_stamp enabled has_executor uid req gw)
  unfolding manual_hedge_broker_order
  manual_hedge_broker_order-HedgeEnds format_stamp enabled has_executor uid req gw =
      let (loaded, store) = load_trade world.read_trade gw.store uid in
      loaded-HedgeEnds format_stamp enabled has_executor uid req (record gw { store = store })
        loaded
