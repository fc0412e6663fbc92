-- ===== src/Trading/Summary/Response/Counts.antt =====
-- The counts and the groups of `ExecutionSummary`.
use complete_dashboard.Prelude.{
  ℕ, suc, ◌+◌, ◌≡◌, sym, refl, String, true, false, Bool-cases, inl, inr, some, List, [], ◌∷◌, ◌++◌,
  append-nil, append_assoc, GoMap, arith, find, put, find-put, str_eq, eq_iff, trim_space, Result,
  ok, if◌then◌else◌,
}
use complete_dashboard.Prelude.Float.{Float64}
use complete_dashboard.Prelude.Json.{JsonText}
use complete_dashboard.Trading.Store.{Database, OrderRow}
use complete_dashboard.Trading.Summary.Response.{
  ExecutionOrderSummary, ExecutionSummaryResponse, SummaryState, summarise, summarise_order,
  summarise_rows, execution_summary, listed_at, count_at, no_orders,
}
use complete_dashboard.Trading.SquareOffPlan.{trade_row_of, HttpError}

-- m[l]++, read at a key
counted :
    (m : GoMap ℕ) (l k : String)
    → count_at (find (put m l (suc (count_at (find m l)))) k)
      ≡ count_at (find m k) + (if str_eq l k then 1 else 0)
counted m l k = ground (arith, find-put m l k (suc (count_at (find m l))), eq_iff l k)

-- m[l] = append(m[l], o), read at a key
appended :
    {A : Type 0} (m : GoMap (List A)) (l k : String) (o : A)
    → listed_at (find (put m l (listed_at (find m l) ++ o ∷ [])) k)
      ≡ (if str_eq l k then listed_at (find m k) ++ o ∷ [] else listed_at (find m k))
appended m l k o = ground (arith, find-put m l k (listed_at (find m l) ++ o ∷ []), eq_iff l k)

module _ {F : Type 0} where
  -- How many orders have a lifecycle.
  abbrev pub how_many : String → List (ExecutionOrderSummary F) → ℕ
  how_many k [] = 0
  how_many k (o ∷ orders) = (if str_eq o.lifecycle k then 1 else 0) + how_many k orders

  -- The orders of a phase.
  abbrev pub of_phase : String → List (ExecutionOrderSummary F) → List (ExecutionOrderSummary F)
  of_phase k [] = []
  of_phase k (o ∷ orders) = if str_eq o.phase k then o ∷ of_phase k orders else of_phase k orders

  how_many-append :
      (k : String) (os bs : List (ExecutionOrderSummary F))
      → how_many k (os ++ bs) ≡ how_many k os + how_many k bs
  how_many-append k [] bs = omega arith
  how_many-append k (a ∷ os) bs = omega (arith, how_many-append k os bs)

  of_phase-append :
      (k : String) (os bs : List (ExecutionOrderSummary F))
      → of_phase k (os ++ bs) ≡ of_phase k os ++ of_phase k bs
  of_phase-append k [] bs = refl
  of_phase-append k (a ∷ os) bs = ground (arith, of_phase-append k os bs)

  phase_of_one :
      (os : List (ExecutionOrderSummary F)) (k : String) (o : ExecutionOrderSummary F)
      → (if str_eq o.phase k then of_phase k os ++ o ∷ [] else of_phase k os)
        ≡ of_phase k (os ++ o ∷ [])
  phase_of_one os k o = elim (Bool-cases (str_eq o.phase k)) [
    | inl e ↦ rw (of_phase-append k os (o ∷ []), e) refl
    | inr e ↦ rw (of_phase-append k os (o ∷ []), e) (sym (append-nil (of_phase k os)))
  ]

module _ (fl : Float64) (json : JsonText fl.F) where
  -- What the lists and maps tell of orders: the list is the orders, each lifecycle counts its orders,
  -- and each phase lists its orders.
  abbrev Tells :
      List (ExecutionOrderSummary fl.F)
      → List (ExecutionOrderSummary fl.F)
      → GoMap ℕ
      → GoMap (List (ExecutionOrderSummary fl.F))
      → Type 0
  Tells os listed counts grouped =
      (listed ≡ os)
      × ((k : String) → count_at (find counts k) ≡ how_many k os)
      × ((k : String) → listed_at (find grouped k) ≡ of_phase k os)

  abbrev Holds : List (ExecutionOrderSummary fl.F) → SummaryState fl json → Type 0
  Holds os st = Tells os st.orders st.counts st.grouped

  summarise-Holds :
      (os : List (ExecutionOrderSummary fl.F)) (st : SummaryState fl json)
      (o : ExecutionOrderSummary fl.F)
      → Holds os st
      → Holds (os ++ o ∷ []) (summarise fl json st o)
  unfolding summarise
  summarise-Holds os st o (a, b, c) = (
    rw a refl,
    λ k. omega (arith, counted st.counts o.lifecycle k, b k, how_many-append k os (o ∷ [])),
    λ k. rw (appended st.grouped o.phase k o, c k) (phase_of_one os k o),
  )

  -- The summaries of the rows of a trade, in their order.
  abbrev pub summaries_of :
      String → String → List (OrderRow fl.F) → List (ExecutionOrderSummary fl.F)
  summaries_of uid symbol [] = []
  summaries_of uid symbol (r ∷ rows) =
      let rest = summaries_of uid symbol rows in
      if str_eq r.trade_uid uid then summarise_order fl json symbol r ∷ rest else rest

  summarise_rows-Holds :
      (uid symbol : String) (rows : List (OrderRow fl.F)) (os : List (ExecutionOrderSummary fl.F))
      (st : SummaryState fl json)
      → Holds os st
      → Holds (os ++ summaries_of uid symbol rows) (summarise_rows fl json uid symbol rows st)
  unfolding summarise_rows
  summarise_rows-Holds uid symbol [] os st h = rw (append-nil os) h
  summarise_rows-Holds uid symbol (r ∷ rows) os st h = elim (Bool-cases (str_eq r.trade_uid uid)) [
    | inl e ↦
        (let o = summarise_order fl json symbol r in
          rw (e, sym (append_assoc os (o ∷ []) (summaries_of uid symbol rows)))
            (summarise_rows-Holds uid symbol rows (os ++ o ∷ []) (summarise fl json st o)
              (summarise-Holds os st o h)))
    | inr e ↦ rw e (summarise_rows-Holds uid symbol rows os st h)
  ]

  -- A response that tells of orders: its list is the orders, each lifecycle has the count of its
  -- orders, and each phase the list of its orders.
  pub record IsSummaryOf (os : List (ExecutionOrderSummary fl.F))
      (resp : ExecutionSummaryResponse fl.F) : Type 0 where
    pub all_listed : resp.orders ≡ os
    pub each_counted : (k : String) → count_at (find resp.counts k) ≡ how_many k os
    pub each_grouped : (k : String) → listed_at (find resp.grouped_orders k) ≡ of_phase k os

  abbrev pub Answers :
      List (ExecutionOrderSummary fl.F) → Result HttpError (ExecutionSummaryResponse fl.F) → Type 0
  Answers os r = (resp : ExecutionSummaryResponse fl.F) × (r ≡ ok resp) × IsSummaryOf os resp

  -- A request for the summary of a named trade is answered with the summaries of the rows of the
  -- trade, each once and in their order; the count at each lifecycle is the number of the orders with
  -- that lifecycle, and the group at each phase is the list of the orders of that phase, in order.
  pub execution_summary-Answers :
      (query : String) (db : Database fl.F)
      → str_eq (trim_space query) "" ≡ false
      → Answers
          (summaries_of (trim_space query) (trade_row_of fl db (trim_space query)).symbol db.orders)
          (execution_summary fl json true query (some db))
  unfolding execution_summary find
  execution_summary-Answers query db e =
      let uid = trim_space query in
      let (a, b, c) =
        summarise_rows-Holds uid (trade_row_of fl db uid).symbol db.orders [] (no_orders fl json)
          (refl, (λ k. refl), (λ k. refl)) in
      rw (execution_summary, e)
        (_, refl, record { all_listed = a; each_counted = b; each_grouped = c })
