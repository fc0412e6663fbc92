-- ===== src/Trading/Summary.antt =====
-- services/execution-gateway/internal/trading/execution_summary.go: the class of an order's status
-- and the phase that its ids stand for.
pub mod Requests
pub mod Response
use complete_dashboard.Prelude.{
  ◌≡◌, ◌⊎◌, inl, inr, refl, ◌||◌, true, Bool-cases, String, str_eq, ◌+s◌, to_upper, trim_space,
  contains, has_prefix, arith, if◌then◌else◌,
}
use Prim.Native.Char.{Char}
use Prim.Native.String.{[], ◌∷◌}

unfoldable pub infer_order_phase : String → String → String
infer_order_phase intent_id order_uid =
    let s = to_upper (intent_id +s "_" +s order_uid) in
    if contains s "HEDGE" || contains s "_HCE" || contains s "_HPE"
    then "HEDGE"
    else if contains s "SQF" || contains s "SQUARE" || contains s "_SCE" || contains s "_SPE"
    then "SQUAREOFF"
    else if contains s "PSQF" || contains s "PARTIAL"
    then "PARTIAL_SQUAREOFF"
    else if contains s "BUI" || contains s "BUILD"
    then "BUILD"
    else "UNKNOWN"

unfoldable pub classify_order_lifecycle : String → String
classify_order_lifecycle status =
    let s = to_upper (trim_space status) in
    if str_eq s "FILLED" || str_eq s "SUCCESS"
    then "FILLED_OK"
    else if str_eq s "OPEN" || str_eq s "SUBMITTED" || str_eq s "PARTIALLY_FILLED"
    then "NOT_FILLED_YET"
    else if str_eq s "REJECTED" || str_eq s "CANCELLED" || str_eq s "CANCELED"
    then "TERMINAL_FAIL"
    else "UNKNOWN"

prefix_contained : (s t : String) → has_prefix s t ≡ true → contains s t ≡ true
unfolding contains
prefix_contained [] t h = h
prefix_contained (c ∷ s) t h = ground (arith, h)

tail_prefix : (c : Char) (s : String) → has_prefix (c ∷ s) "PSQF" ≡ true → has_prefix s "SQF" ≡ true
unfolding has_prefix
tail_prefix c s h = ground (arith, h)

contains_psqf : (s : String) → contains s "PSQF" ≡ true → contains s "SQF" ≡ true
unfolding contains
contains_psqf [] h = ground (arith, h)
contains_psqf (c ∷ s) h =
    ground (arith, h, tail_prefix c s, prefix_contained s "SQF", contains_psqf s)

-- Ids that name a partial square-off by PSQF are taken for a hedge or for a whole square-off: the
-- case for PSQF is never reached through it.
infer_order_phase_psqf :
    (intent_id order_uid : String)
    → contains (to_upper (intent_id +s "_" +s order_uid)) "PSQF" ≡ true
    → (infer_order_phase intent_id order_uid ≡ "HEDGE")
      ⊎ (infer_order_phase intent_id order_uid ≡ "SQUAREOFF")
unfolding infer_order_phase
infer_order_phase_psqf intent_id order_uid h =
    let s = to_upper (intent_id +s "_" +s order_uid) in
    elim (Bool-cases (contains s "HEDGE" || contains s "_HCE" || contains s "_HPE")) [
      | inl hedge ↦ rw hedge (inl refl)
      | inr other ↦ rw (other, contains_psqf s h) (inr refl)
    ]
