-- ===== src/Trading/SquareOff/Closes.antt =====
-- When a square-off may close its trade.
use complete_dashboard.Prelude.{
  ℕ, ◌+◌, ◌*◌, ◌≤◌, ◌≡◌, refl, ap, ◌&&◌, Bool, true, false, String, Option, none, some, List, [],
  ◌∷◌, arith, sum_by, if◌then◌else◌, Result, ok, err,
}
use complete_dashboard.Prelude.Int.{ℤ, pos_part}
use complete_dashboard.Prelude.Float.{Float64}
use complete_dashboard.Trading.Models.{OrderIntent, ExecutionResult}
use complete_dashboard.Trading.Build.{World, Gateway, is_fill, send, after_send, record_execution}
use complete_dashboard.Trading.Build.Fills.{filled_in, filled_by, FillsWhole, whole_fill-filled_by}
use complete_dashboard.Trading.SquareOff.{SqfError, RawIntents}
use complete_dashboard.Trading.SquareOff.Act.{send_sqf}

abbrev pub intent_quantity : {F : Type 0} → (ℤ → ℕ) → OrderIntent F → ℕ
intent_quantity keep i = keep i.token * pos_part i.quantity

module _ (fl : Float64) (world : World fl.F) (raw : RawIntents fl.F) (format_stamp : ℕ → String)
    (keep : ℤ → ℕ) (whole : FillsWhole world) where
  -- `all_filled` on return only if it was set before and everything was filled.
  abbrev pub Closes : Bool → ℕ → ℕ → Result SqfError Bool × Gateway fl.F → Type 0
  Closes b asked before (ok true, gw) = (b ≡ true) × (filled_in keep gw ≡ before + asked)
  Closes b asked before (ok false, gw) = filled_in keep gw ≤ before + asked
  Closes b asked before (err e, gw) = filled_in keep gw ≤ before + asked

  more-Closes :
      (b f : Bool) (n asked before now : ℕ) (r : Result SqfError Bool × Gateway fl.F)
      → now ≡ (if f then n else 0) + before
      → Closes (b && f) asked now r
      → Closes b (n + asked) before r
  more-Closes true true n asked before now (ok true, gw) h k = (refl, omega (arith, h, k.1))
  more-Closes true false n asked before now (ok true, gw) h k = absurd (cc)
  more-Closes false f n asked before now (ok true, gw) h k = absurd (cc)
  more-Closes b true n asked before now (ok false, gw) h k = omega (arith, h, k)
  more-Closes b false n asked before now (ok false, gw) h k = omega (arith, h, k)
  more-Closes b true n asked before now (err e, gw) h k = omega (arith, h, k)
  more-Closes b false n asked before now (err e, gw) h k = omega (arith, h, k)

  send_one :
      (i : OrderIntent fl.F) (intents : List (OrderIntent fl.F)) (b : Bool) (gw : Gateway fl.F)
      (o : Option (ExecutionResult fl.F))
      → send fl world gw i ≡ o
      → ((b' : Bool) (gw' : Gateway fl.F)
          → Closes b'
              (sum_by (intent_quantity keep) intents)
              (filled_in keep gw')
              (send_sqf fl world raw format_stamp intents b' gw'))
      → Closes b
          (sum_by (intent_quantity keep) (i ∷ intents))
          (filled_in keep gw)
          (send_sqf fl world raw format_stamp (i ∷ intents) b gw)
  unfolding send_sqf after_send record_execution
  send_one i intents b gw none e h =
      let nothing : filled_by keep (record { intent = i; reply = send fl world gw i }) ≡ 0 =
        rw e refl in
      rw (send_sqf, e) (omega (arith, nothing))
  send_one i intents b gw (some res) e h =
      let fills = is_fill res.status in
      let sent = record_execution fl world (after_send fl world gw i) i.intent_id res in
      rw (send_sqf, e)
        (more-Closes b fills (intent_quantity keep i) _ _ (filled_in keep sent)
          (send_sqf fl world raw format_stamp intents (b && fills) sent)
          (rw e (
            ap (λ n. n + filled_in keep gw)
              (whole_fill-filled_by keep i res (whole gw.calls i res (unfold send in e)))))
          (h (b && fills) sent))

  send_from :
      (intents : List (OrderIntent fl.F)) (b : Bool) (gw : Gateway fl.F)
      → Closes b
          (sum_by (intent_quantity keep) intents)
          (filled_in keep gw)
          (send_sqf fl world raw format_stamp intents b gw)
  unfolding send_sqf
  send_from [] true gw = (refl, omega arith)
  send_from [] false gw = omega arith
  send_from (i ∷ intents) b gw =
      send_one i intents b gw (send fl world gw i) refl (send_from intents)

  -- Against any broker that fills an order whole where it answers a fill, and otherwise not at all:
  -- where the closing orders count as all filled, the quantity that the broker reported as filled
  -- has grown by all that the intents ask for, token by token; in every other outcome it has grown
  -- by no more than that.
  pub send_sqf-Closes :
      (intents : List (OrderIntent fl.F)) (gw : Gateway fl.F)
      → Closes true
          (sum_by (intent_quantity keep) intents)
          (filled_in keep gw)
          (send_sqf fl world raw format_stamp intents true gw)
  send_sqf-Closes intents gw = send_from intents true gw
