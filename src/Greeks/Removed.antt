-- ===== src/Greeks/Removed.antt =====
-- What is left of a trade that the monitor has removed.
use complete_dashboard.Prelude.{
  ℕ, ◌≡◌, refl, ◌∙◌, String, false, Bool-cases, inl, inr, none, List, [], ◌∷◌, GoMap, find,
  find-put-other, find-delete, arith, str_eq, eq_iff, All, All-append,
}
use complete_dashboard.Prelude.Int.{ℤ, eqb_ℤ}
use complete_dashboard.Prelude.Float.{Float64}
use complete_dashboard.Greeks.{
  TradeGreeks, TradeLeg, TokenLegs, WsMonitor, legs_of, add_leg, add_legs, other_legs, drop_trade,
  register_trade, remove_trade, get_greeks, contribute, contribute_all, update_leg_greeks,
  MonitorCall, registered, removed, updated, monitor_step, monitor_run,
}

-- A leg of another trade.
abbrev pub IsOther : String → TradeLeg → Type 0
IsOther uid leg = str_eq leg.trade_uid uid ≡ false

abbrev HasOthers : String → List TokenLegs → Type 0
HasOthers uid m = All (λ e. All (IsOther uid) e.legs) m

legs_of-others :
    (uid : String) (m : List TokenLegs) (token : ℤ)
    → HasOthers uid m
    → All (IsOther uid) (legs_of m token)
unfolding legs_of
legs_of-others uid [] token h = tt
legs_of-others uid (e ∷ m) token h = elim (Bool-cases (eqb_ℤ e.token token)) [
  | inl b ↦ rw b h.0
  | inr b ↦ rw b (legs_of-others uid m token h.1)
]

add_leg-others :
    (uid : String) (leg : TradeLeg) (m : List TokenLegs)
    → IsOther uid leg
    → HasOthers uid m
    → HasOthers uid (add_leg leg m)
unfolding add_leg
add_leg-others uid leg [] k h = ((k, tt), tt)
add_leg-others uid leg (e ∷ m) k h = elim (Bool-cases (eqb_ℤ e.token leg.token)) [
  | inl b ↦ rw b (All-append (IsOther uid) e.legs (leg ∷ []) h.0 (k, tt), h.1)
  | inr b ↦ rw b (h.0, add_leg-others uid leg m k h.1)
]

add_legs-others :
    (uid : String) (legs : List TradeLeg) (m : List TokenLegs)
    → All (IsOther uid) legs
    → HasOthers uid m
    → HasOthers uid (add_legs legs m)
unfolding add_legs
add_legs-others uid [] m k h = h
add_legs-others uid (leg ∷ legs) m k h =
    add_legs-others uid legs (add_leg leg m) k.1 (add_leg-others uid leg m k.0 h)

-- The legs that a removal keeps are some of those before.
other_legs-All :
    (P : TradeLeg → Type 0) (uid : String) (legs : List TradeLeg)
    → All P legs
    → All P (other_legs uid legs)
unfolding other_legs
other_legs-All P uid [] h = tt
other_legs-All P uid (leg ∷ legs) h = elim (Bool-cases (str_eq leg.trade_uid uid)) [
  | inl b ↦ rw b (other_legs-All P uid legs h.1)
  | inr b ↦ rw b (h.0, other_legs-All P uid legs h.1)
]

other_legs-others : (uid : String) (legs : List TradeLeg) → All (IsOther uid) (other_legs uid legs)
unfolding other_legs
other_legs-others uid [] = tt
other_legs-others uid (leg ∷ legs) = elim (Bool-cases (str_eq leg.trade_uid uid)) [
  | inl b ↦ rw b (other_legs-others uid legs)
  | inr b ↦ rw b (b, other_legs-others uid legs)
]

drop_entry :
    (uid uid' : String) (e : TokenLegs) (m : List TokenLegs) (left : List TradeLeg)
    → other_legs uid' e.legs ≡ left
    → All (IsOther uid) left
    → HasOthers uid (drop_trade uid' m)
    → HasOthers uid (drop_trade uid' (e ∷ m))
unfolding drop_trade
drop_entry uid uid' e m [] q k h = rw (drop_trade, q) h
drop_entry uid uid' e m (leg ∷ legs) q k h = rw (drop_trade, q) (k, h)

drop_trade-others : (uid : String) (m : List TokenLegs) → HasOthers uid (drop_trade uid m)
unfolding drop_trade
drop_trade-others uid [] = tt
drop_trade-others uid (e ∷ m) =
    drop_entry uid uid e m (other_legs uid e.legs) refl (other_legs-others uid e.legs)
      (drop_trade-others uid m)

drop_trade-keeps_others :
    (uid uid' : String) (m : List TokenLegs) → HasOthers uid m → HasOthers uid (drop_trade uid' m)
unfolding drop_trade
drop_trade-keeps_others uid uid' [] h = tt
drop_trade-keeps_others uid uid' (e ∷ m) h =
    drop_entry uid uid' e m (other_legs uid' e.legs) refl
      (other_legs-All (IsOther uid) uid' e.legs h.0) (drop_trade-keeps_others uid uid' m h.1)

module _ (fl : Float64) where
  contribute_all-others :
      (uid : String) (now : ℕ) (delta gamma theta vega : fl.F) (legs : List TradeLeg)
      (m : GoMap (TradeGreeks fl.F))
      → All (IsOther uid) legs
      → find (contribute_all fl now delta gamma theta vega legs m) uid ≡ find m uid
  unfolding contribute_all contribute
  contribute_all-others uid now delta gamma theta vega [] m h = refl
  contribute_all-others uid now delta gamma theta vega (leg ∷ legs) m h =
      (let m' = contribute fl now delta gamma theta vega m leg in
        contribute_all-others uid now delta gamma theta vega legs m' h.1
        ∙ find-put-other m leg.trade_uid uid _ h.0)

  -- Nothing of the trade is left.
  pub record IsRemoved (uid : String) (m : WsMonitor fl.F) : Type 0 where
    pub no_legs : HasOthers uid m.token_to_legs
    pub no_greeks : get_greeks m uid ≡ none

  -- A call that registers no leg of the trade.
  abbrev pub Spares : String → MonitorCall fl.F → Type 0
  Spares uid (registered legs) = All (IsOther uid) legs
  Spares uid (removed uid') = Unit
  Spares uid (updated now token delta gamma theta vega) = Unit

  remove_trade-IsRemoved : (uid : String) (m : WsMonitor fl.F) → IsRemoved uid (remove_trade uid m)
  unfolding remove_trade get_greeks
  remove_trade-IsRemoved uid m = record {
    no_legs = drop_trade-others uid m.token_to_legs;
    no_greeks = ground (arith, find-delete m.trade_greeks uid uid, eq_iff uid uid);
  }

  step-IsRemoved :
      (uid : String) (m : WsMonitor fl.F) (c : MonitorCall fl.F)
      → Spares uid c
      → IsRemoved uid m
      → IsRemoved uid (monitor_step fl m c)
  unfolding register_trade remove_trade update_leg_greeks get_greeks
  step-IsRemoved uid m (registered legs) k h = record {
    no_legs = add_legs-others uid legs m.token_to_legs k h.no_legs;
    no_greeks = h.no_greeks;
  }
  step-IsRemoved uid m (removed uid') k h = record {
    no_legs = drop_trade-keeps_others uid uid' m.token_to_legs h.no_legs;
    no_greeks = ground (arith, find-delete m.trade_greeks uid' uid, h.no_greeks);
  }
  step-IsRemoved uid m (updated now token delta gamma theta vega) k h = record {
    no_legs = h.no_legs;
    no_greeks =
        contribute_all-others uid now delta gamma theta vega (legs_of m.token_to_legs token)
          m.trade_greeks (legs_of-others uid m.token_to_legs token h.no_legs)
        ∙ h.no_greeks;
  }

  run-IsRemoved :
      (uid : String) (m : WsMonitor fl.F) (calls : List (MonitorCall fl.F))
      → All (Spares uid) calls
      → IsRemoved uid m
      → IsRemoved uid (monitor_run fl m calls)
  run-IsRemoved uid m [] k h = h
  run-IsRemoved uid m (c ∷ calls) k h =
      run-IsRemoved uid (monitor_step fl m c) calls k.1 (step-IsRemoved uid m c k.0 h)

  -- A removed trade has no legs and no Greeks, and no later call that registers no leg of it brings
  -- any back: neither updates of any token nor registrations and removals of other trades.
  pub remove_trade-IsRemoved_always :
      (uid : String) (m : WsMonitor fl.F) (calls : List (MonitorCall fl.F))
      → All (Spares uid) calls
      → IsRemoved uid (monitor_run fl (remove_trade uid m) calls)
  remove_trade-IsRemoved_always uid m calls k =
      run-IsRemoved uid (remove_trade uid m) calls k (remove_trade-IsRemoved uid m)
