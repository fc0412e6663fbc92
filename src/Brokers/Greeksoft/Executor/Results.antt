-- ===== src/Brokers/Greeksoft/Executor/Results.antt =====
-- What the executor answers.
use complete_dashboard.Prelude.{
  ◌≡◌, refl, sym, ap, ◌∙◌, inl, inr, String, Bool, true, false, not, ◌&&◌, ◌||◌, Bool-cases, some,
  arith, str_eq, trim_space, eq_iff, if◌then◌else◌, List,
}
use mathlib.Core.Bool.{false≢true}
use mathlib.Core.Path.{subst}
use complete_dashboard.Prelude.{Option, none}
use complete_dashboard.Prelude.Int.{ℤ, pos, leb_ℤ, eqb_ℤ, not_pos}
use complete_dashboard.Prelude.Float.{Float64}
use complete_dashboard.Prelude.Json.{JsonText}
use complete_dashboard.Trading.Models.{OrderIntent, ExecutionResult}
use complete_dashboard.Trading.Build.{is_fill}
use complete_dashboard.Brokers.Greeksoft.Book.{
  Matched, Execution, normalize_greeksoft_order_status, extract_greeksoft_execution_fields,
}
use complete_dashboard.Brokers.Greeksoft.Tokens.{TokenEntry, map_order_intent}
use complete_dashboard.Brokers.Greeksoft.Executor.{
  Client, Placed, Waited, matched, no_order_id, cancelled, book_failed, not_in_book,
  confirmed_status, confirm_order, unconfirmed, after_wait, after_place, execute_order_intent,
}

refused_no_fill :
    (s : String) → (str_eq s "REJECTED" || str_eq s "CANCELLED") ≡ true → is_fill s ≡ false
refused_no_fill s h = elim (Bool-cases (str_eq s "REJECTED")) [
  | inl b ↦ rw ((eq_iff s "REJECTED").0 b) refl
  | inr b ↦ rw ((eq_iff s "CANCELLED").0 (ground (arith, h, b))) refl
]

both : (a b : Bool) → (a && b) ≡ true → (a ≡ true) × (b ≡ true)
both true b h = (refl, h)
both false b h = absurd (cc)

module _ (fl : Float64) (json : JsonText fl.F) (client : Client fl.F) where
  -- A result for the intent. Where it counts as a fill and tells of a positive quantity, that is at
  -- least what the intent asks for, with nothing pending.
  pub record IsHonest (intent : OrderIntent fl.F) (res : ExecutionResult fl.F) : Type 0 where
    pub answers : res.intent_id ≡ intent.intent_id
    pub whole_fill :
        is_fill res.status ≡ true
        → not_pos res.filled_qty ≡ false
        → (leb_ℤ intent.quantity res.filled_qty ≡ true) × (eqb_ℤ res.pending_qty (pos 0) ≡ true)
    pub no_id : res.broker_order_id ≡ "" → is_fill res.status ≡ false

  confirmed_status-whole :
      (quantity : ℤ) (status : String) (ex : Execution fl.F)
      → is_fill (confirmed_status fl json client quantity status ex) ≡ true
      → not_pos ex.filled_qty ≡ false
      → (leb_ℤ quantity ex.filled_qty ≡ true) × (eqb_ℤ ex.pending_qty (pos 0) ≡ true)
  unfolding confirmed_status
  confirmed_status-whole quantity status ex h k =
      let done = eqb_ℤ ex.pending_qty (pos 0) in
      let enough = not (not_pos quantity) && leb_ℤ quantity ex.filled_qty in
      elim (Bool-cases (str_eq status "REJECTED" || str_eq status "CANCELLED")) [
        | inl b ↦
            (let same : confirmed_status fl json client quantity status ex ≡ status =
                rw (confirmed_status, k, b) refl in
              let refused = refused_no_fill status b in
              absurd (false≢true (sym refused ∙ ap is_fill (sym same) ∙ h)))
        | inr b ↦ elim (Bool-cases (done && enough)) [
          | inl c ↦
              (let (d, e) = both done enough c in
                ((both (not (not_pos quantity)) (leb_ℤ quantity ex.filled_qty) e).1, d))
          | inr c ↦
              (let partly : confirmed_status fl json client quantity status ex
                    ≡ "PARTIALLY_FILLED" =
                  rw (confirmed_status, k, b, c) refl in
                absurd (false≢true (ap is_fill (sym partly) ∙ h)))
        ]
      ]

  confirm_order-IsHonest :
      (intent : OrderIntent fl.F) (order_id : String) (placed : Placed) (r : Matched)
      → str_eq order_id "" ≡ false
      → IsHonest intent (confirm_order fl json client intent order_id placed r)
  unfolding confirm_order
  confirm_order-IsHonest intent order_id placed r e =
      let raw = if str_eq (trim_space r.raw) "" then placed.raw_response else r.raw in
      let ex = extract_greeksoft_execution_fields fl json raw in
      let status = normalize_greeksoft_order_status r.status in
      record {
        answers = refl;
        whole_fill = confirmed_status-whole intent.quantity status ex;
        no_id = λ n. absurd (false≢true (sym e ∙ (eq_iff order_id "").1 n));
      }

  unconfirmed-IsHonest :
      (intent : OrderIntent fl.F) (order_id : String) (placed : Placed)
      → str_eq order_id "" ≡ false
      → IsHonest intent (unconfirmed fl json client intent order_id placed)
  unconfirmed-IsHonest intent order_id placed e = record {
    answers = refl;
    whole_fill = λ h k. absurd (false≢true (sym k));
    no_id = λ n. absurd (false≢true (sym e ∙ (eq_iff order_id "").1 n));
  }

  after_wait-IsHonest :
      (intent : OrderIntent fl.F) (order_id : String) (placed : Placed) (w : Waited)
      → str_eq order_id "" ≡ false
      → IsHonest intent (after_wait fl json client intent order_id placed w)
  unfolding after_wait
  after_wait-IsHonest intent order_id placed (matched r) e =
      elim (Bool-cases (str_eq (trim_space r.status) "")) [
        | inl b ↦ rw b (unconfirmed-IsHonest intent order_id placed e)
        | inr b ↦ rw b (confirm_order-IsHonest intent order_id placed r e)
      ]
  after_wait-IsHonest intent order_id placed no_order_id e =
      unconfirmed-IsHonest intent order_id placed e
  after_wait-IsHonest intent order_id placed cancelled e =
      unconfirmed-IsHonest intent order_id placed e
  after_wait-IsHonest intent order_id placed book_failed e =
      unconfirmed-IsHonest intent order_id placed e
  after_wait-IsHonest intent order_id placed not_in_book e =
      unconfirmed-IsHonest intent order_id placed e

  after_place-IsHonest :
      (intent : OrderIntent fl.F) (placed : Placed)
      → IsHonest intent (after_place fl json client intent placed)
  unfolding after_place
  after_place-IsHonest intent placed =
      let order_id = trim_space placed.order_id in
      elim (Bool-cases (str_eq order_id "")) [
        | inl b ↦ rw b (record {
          answers = refl;
          whole_fill = λ h k. absurd (false≢true (sym k));
          no_id = λ n. refl;
        })
        | inr b ↦ rw b (after_wait-IsHonest intent order_id placed _ b)
      ]

  executed-IsHonest :
      (tokens : List TokenEntry) (intent : OrderIntent fl.F) (res : ExecutionResult fl.F)
      (reply : Option Placed)
      → client.place_order (map_order_intent fl tokens intent) ≡ reply
      → execute_order_intent fl json client tokens intent ≡ some res
      → IsHonest intent res
  unfolding execute_order_intent
  executed-IsHonest tokens intent res none e k =
      let nothing : execute_order_intent fl json client tokens intent ≡ none =
        rw (execute_order_intent, e) refl in
      absurd (cc)
  executed-IsHonest tokens intent res (some placed) e k =
      let given : execute_order_intent fl json client tokens intent
          ≡ some (after_place fl json client intent placed) =
        rw (execute_order_intent, e) refl in
      let same : after_place fl json client intent placed ≡ res = cc in
      subst (IsHonest intent) same (after_place-IsHonest intent placed)

  no_id_no_fill :
      (status id : String)
      → (id ≡ "" → is_fill status ≡ false)
      → is_fill status ≡ true
      → str_eq id "" ≡ false
  no_id_no_fill status id h k = elim (Bool-cases (str_eq id "")) [
    | inl b ↦ absurd (false≢true (sym (h ((eq_iff id "").0 b)) ∙ k))
    | inr b ↦ b
  ]

  -- Whatever the broker and its order book say: an answer that counts as a fill and tells of a
  -- positive filled quantity is for the intent and has an order id, and it tells of at least the
  -- quantity of the intent, with nothing pending.
  pub execute_order_intent-whole_fill :
      (tokens : List TokenEntry) (intent : OrderIntent fl.F) (res : ExecutionResult fl.F)
      → execute_order_intent fl json client tokens intent ≡ some res
      → is_fill res.status ≡ true
      → not_pos res.filled_qty ≡ false
      → (res.intent_id ≡ intent.intent_id)
        × (str_eq res.broker_order_id "" ≡ false)
        × (leb_ℤ intent.quantity res.filled_qty ≡ true)
        × (eqb_ℤ res.pending_qty (pos 0) ≡ true)
  execute_order_intent-whole_fill tokens intent res e fills some_filled =
      let h =
        executed-IsHonest tokens intent res (client.place_order (map_order_intent fl tokens intent))
          refl e in
      let (enough, done) = h.whole_fill fills some_filled in
      (h.answers, no_id_no_fill res.status res.broker_order_id h.no_id fills, enough, done)
