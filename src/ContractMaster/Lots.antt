-- ===== src/ContractMaster/Lots.antt =====
-- services/contract-master/internal/parser/master_parser.go: the table of lot sizes.
use complete_dashboard.Prelude.{
  ℕ, String, Option, none, some, List, [], ◌∷◌, GoMap, find, put, ◌+s◌, to_upper, trim_space,
  if◌then◌else◌,
}
use complete_dashboard.Prelude.Int.{ℤ, pos, not_pos}
use complete_dashboard.Prelude.Float.{Float64}
use complete_dashboard.ContractMaster.Cells.{Contract, Strings}

module _ (fl : Float64) (go : Strings fl.F) where
  unfoldable pub lot_key : String → String → ℕ → String → String
  lot_key exchange symbol expiry instrument_type =
      to_upper (trim_space exchange)
      +s "|"
      +s to_upper (trim_space symbol)
      +s "|"
      +s go.format_day expiry
      +s "|"
      +s to_upper (trim_space instrument_type)

  abbrev pub add_lot : GoMap ℤ → Contract fl.F → GoMap ℤ
  add_lot out r =
      if not_pos r.lot_size
      then out
      else put (put out (lot_key r.exchange r.symbol r.expiry_date "") r.lot_size)
          (lot_key r.exchange r.symbol r.expiry_date r.instrument_type) r.lot_size

  unfoldable pub add_lots : GoMap ℤ → List (Contract fl.F) → GoMap ℤ
  add_lots out [] = out
  add_lots out (r ∷ rows) = add_lots (add_lot out r) rows

  unfoldable pub build_lot_size_lookup : List (Contract fl.F) → GoMap ℤ
  unfolding add_lots
  build_lot_size_lookup rows = add_lots [] rows

  abbrev pub positive : Option ℤ → Option ℤ
  positive none = none
  positive (some n) = if not_pos n then none else some n

  abbrev pub or_zero : Option ℤ → ℤ
  or_zero none = pos 0
  or_zero (some n) = n

  unfoldable pub lookup_lot_size : GoMap ℤ → String → String → ℕ → String → ℤ
  unfolding lot_key
  lookup_lot_size lots exchange symbol expiry instrument_type =
      elim (positive (find lots (lot_key exchange symbol expiry instrument_type))) [
        | some n ↦ n
        | none ↦ or_zero (positive (find lots (lot_key exchange symbol expiry "")))
      ]
