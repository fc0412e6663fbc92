-- ===== src/Greeks/Repeats.antt =====
-- What repeated updates of a token do to the Greeks of its trade.
use complete_dashboard.Prelude.{ℕ, zero, suc, ◌≡◌, refl, ap, ◌∙◌, String, [], ◌∷◌, find-put-same}
use complete_dashboard.Prelude.Int.{ℤ}
use complete_dashboard.Prelude.Float.{Float64}
use complete_dashboard.Greeks.{
  TradeLeg, WsMonitor, legs_of, get_greeks, greeks_or, contribution, contribute, contribute_all,
  update_leg_greeks,
}

module _ (fl : Float64) (now : ℕ) (token : ℤ) (delta gamma theta vega : fl.F) where
  -- `n` updates with the same Greeks.
  abbrev pub updates : ℕ → WsMonitor fl.F → WsMonitor fl.F
  updates zero m = m
  updates (suc n) m = updates n (update_leg_greeks fl now token delta gamma theta vega m)

  -- x + c + … + c
  abbrev pub added : ℕ → fl.F → fl.F → fl.F
  added zero c x = x
  added (suc n) c x = added n c (fl.add x c)

  abbrev pub delta_of : WsMonitor fl.F → String → fl.F
  delta_of m uid = (greeks_or fl (get_greeks m uid)).net_delta

  update-delta :
      (m : WsMonitor fl.F) (leg : TradeLeg)
      → legs_of m.token_to_legs token ≡ leg ∷ []
      → delta_of (update_leg_greeks fl now token delta gamma theta vega m) leg.trade_uid
        ≡ fl.add (delta_of m leg.trade_uid) (contribution fl leg delta)
  unfolding update_leg_greeks contribute_all contribute get_greeks
  update-delta m leg e =
      rw e (ap (λ o. (greeks_or fl o).net_delta) (find-put-same m.trade_greeks leg.trade_uid _))

  -- Where a token has one leg, `n` updates that repeat the same Greeks add the leg's share `n` times
  -- to the net delta of its trade: an update does not take the place of the one before.
  pub updates-added :
      (n : ℕ) (m : WsMonitor fl.F) (leg : TradeLeg)
      → legs_of m.token_to_legs token ≡ leg ∷ []
      → delta_of (updates n m) leg.trade_uid
        ≡ added n (contribution fl leg delta) (delta_of m leg.trade_uid)
  unfolding update_leg_greeks
  updates-added zero m leg e = refl
  updates-added (suc n) m leg e =
      updates-added n (update_leg_greeks fl now token delta gamma theta vega m) leg e
      ∙ ap (added n (contribution fl leg delta)) (update-delta m leg e)
