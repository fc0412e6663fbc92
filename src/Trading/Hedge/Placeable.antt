-- ===== src/Trading/Hedge/Placeable.antt =====
-- The sides and the intents of a hedge by hand.
use complete_dashboard.Prelude.{
  neither, ◌≡◌, refl, ◌⊎◌, inl, inr, ◌||◌, Bool, true, false, Bool-cases, String, some, List,
  Result, ok, ◌>>◌, Yields, Yields-bind, ◌≢◌, arith, str_eq, eq_iff, to_upper, trim_space,
  if◌then◌else◌, All, length,
}
use mathlib.Core.Bool.{false≢true}
use complete_dashboard.Prelude.Int.{not_pos}
use complete_dashboard.Prelude.Float.{Float64}
use complete_dashboard.Trading.Models.{StoredTrade, OrderIntent}
use complete_dashboard.Trading.Hedge.{
  HedgeError, Sides, ManualHedgeBrokerRequest, fail_when, normalize_manual_hedge_side,
  default_manual_hedge_sides, hedge_sides, default_manual_hedge_qty, hedge_sides_from_net_delta,
  broker_hedge_intent, plan_broker_hedge,
}

abbrev pub IsSide : String → Type 0
IsSide s = (s ≡ "BUY") ⊎ (s ≡ "SELL")

-- An order that a broker can take.
pub record IsPlaceable {F : Type 0} (i : OrderIntent F) : Type 0 where
  pub side_known : IsSide i.side
  pub quantity_pos : not_pos i.quantity ≡ false
  pub token_pos : not_pos i.token ≡ false

abbrev AreSides : Sides → Type 0
AreSides s = IsSide s.ce_side × IsSide s.pe_side

normalize-cases :
    (side : String)
    → (normalize_manual_hedge_side side ≡ "") ⊎ IsSide (normalize_manual_hedge_side side)
unfolding normalize_manual_hedge_side
normalize-cases side =
    let s = to_upper (trim_space side) in
    elim (Bool-cases (str_eq s "BUY" || str_eq s "B")) [
      | inl b ↦ rw b (inr (inl refl))
      | inr b ↦ elim (Bool-cases (str_eq s "SELL" || str_eq s "S")) [
        | inl c ↦ rw (b, c) (inr (inr refl))
        | inr c ↦ rw (b, c) (inl refl)
      ]
    ]

default-AreSides : (direction : String) → Yields AreSides (default_manual_hedge_sides direction)
unfolding default_manual_hedge_sides
default-AreSides direction =
    let d = to_upper (trim_space direction) in
    elim (Bool-cases (str_eq d "NEGATIVE_DELTA" || str_eq d "NEGATIVE" || str_eq d "SHORT_DELTA")) [
      | inl b ↦ rw b (inl refl, inr refl)
      | inr b ↦
          elim (Bool-cases
            (str_eq d "POSITIVE_DELTA" || str_eq d "POSITIVE" || str_eq d "LONG_DELTA")) [
              | inl c ↦ rw (b, c) (inr refl, inl refl)
              | inr c ↦ rw (b, c) tt
            ]
    ]

chosen : (s d : String) → (s ≡ "") ⊎ IsSide s → IsSide d → IsSide (if str_eq s "" then d else s)
chosen s d (inl e) h = rw e h
chosen s d (inr (inl e)) h = rw e (inl refl)
chosen s d (inr (inr e)) h = rw e (inr refl)

named : (s : String) → (s ≡ "") ⊎ IsSide s → str_eq s "" ≡ false → IsSide s
named s (inl e) h = ground (arith, eq_iff s "")
named s (inr k) h = k

hedge_sides-AreSides :
    {F : Type 0} (req : ManualHedgeBrokerRequest F) → Yields AreSides (hedge_sides req)
unfolding hedge_sides
hedge_sides-AreSides req =
    let ce = normalize_manual_hedge_side req.ce_side in
    let pe = normalize_manual_hedge_side req.pe_side in
    let ce_ok = normalize-cases req.ce_side in
    let pe_ok = normalize-cases req.pe_side in
    elim (Bool-cases (str_eq ce "" || str_eq pe "")) [
      | inl b ↦ rw b (
          Yields-bind AreSides AreSides (default_manual_hedge_sides req.direction) _
            (default-AreSides req.direction)
            (λ s h. (chosen ce s.ce_side ce_ok h.0, chosen pe s.pe_side pe_ok h.1)))
      | inr b ↦
          (let (c, p) = neither (str_eq ce "") (str_eq pe "") b in
            rw b (named ce ce_ok c, named pe pe_ok p))
    ]

pass_when :
    {A : Type 0} (P : A → Type 0) (b : Bool) (e : HedgeError) (r : Result HedgeError A)
    → (b ≡ false → Yields P r)
    → Yields P (fail_when b e >> r)
pass_when P true e r h = tt
pass_when P false e r h = h refl

-- Both intents of a plan can be placed.
abbrev pub BothPlaceable : {F : Type 0} → List (OrderIntent F) → Type 0
BothPlaceable intents = (length intents ≡ 2) × All IsPlaceable intents

pub plan_broker_hedge-BothPlaceable :
    (fl : Float64) (tr : StoredTrade fl.F) (uid stamp : String)
    (req : ManualHedgeBrokerRequest fl.F)
    → Yields BothPlaceable (plan_broker_hedge fl tr uid stamp req)
unfolding plan_broker_hedge broker_hedge_intent
plan_broker_hedge-BothPlaceable fl tr uid stamp req =
    let ce = default_manual_hedge_qty tr "CE" req.ce_quantity in
    let pe = default_manual_hedge_qty tr "PE" req.pe_quantity in
    Yields-bind AreSides BothPlaceable (hedge_sides req) _ (hedge_sides-AreSides req) (λ s h.
      pass_when BothPlaceable (not_pos ce || not_pos pe) _ _ (λ q.
        pass_when BothPlaceable (not_pos tr.ce_token || not_pos tr.pe_token) _ _ (λ t.
          let (ce_q, pe_q) = neither (not_pos ce) (not_pos pe) q in
          let (ce_t, pe_t) = neither (not_pos tr.ce_token) (not_pos tr.pe_token) t in
          (
            omega arith,
            (
              record { side_known = h.0; quantity_pos = ce_q; token_pos = ce_t },
              (record { side_known = h.1; quantity_pos = pe_q; token_pos = pe_t }, tt),
            ),
          ))))

abbrev sides_against : Bool → Sides
sides_against true = record { ce_side = "BUY"; pe_side = "SELL" }
sides_against false = record { ce_side = "SELL"; pe_side = "BUY" }

abbrev pub direction_of : Bool → String
direction_of true = "negative_delta"
direction_of false = "positive_delta"

hedge_sides-unnamed :
    {F : Type 0} (negative : Bool) (req : ManualHedgeBrokerRequest F)
    → req.direction ≡ direction_of negative
    → req.ce_side ≡ ""
    → req.pe_side ≡ ""
    → hedge_sides req ≡ ok (sides_against negative)
unfolding hedge_sides normalize_manual_hedge_side default_manual_hedge_sides to_upper trim_space
hedge_sides-unnamed true req d c p = rw (hedge_sides, d, c, p) refl
hedge_sides-unnamed false req d c p = rw (hedge_sides, d, c, p) refl

opposite : (negative : Bool) → (sides_against negative).ce_side ≢ (sides_against negative).pe_side
opposite true h = false≢true ((eq_iff "BUY" "SELL").1 h)
opposite false h = false≢true ((eq_iff "SELL" "BUY").1 h)

from_net_delta :
    (fl : Float64) (net_delta : fl.F) (s : Sides)
    → hedge_sides_from_net_delta fl net_delta ≡ some s
    → s ≡ sides_against (fl.flt net_delta (fl.lit 0 0))
unfolding hedge_sides_from_net_delta
from_net_delta fl net_delta s h = ground (arith, h)

-- Where a delta calls for a hedge, the two legs go opposite ways, and a request by hand that gives
-- the sign of that delta as its direction and names no sides gets the same sides.
pub hedge_sides-from_net_delta :
    (fl : Float64) (net_delta : fl.F) (req : ManualHedgeBrokerRequest fl.F) (s : Sides)
    → hedge_sides_from_net_delta fl net_delta ≡ some s
    → req.direction ≡ direction_of (fl.flt net_delta (fl.lit 0 0))
    → req.ce_side ≡ ""
    → req.pe_side ≡ ""
    → (hedge_sides req ≡ ok s) × (s.ce_side ≢ s.pe_side)
hedge_sides-from_net_delta fl net_delta req s h d c p =
    let negative = fl.flt net_delta (fl.lit 0 0) in
    rw (from_net_delta fl net_delta s h) (hedge_sides-unnamed negative req d c p, opposite negative)
