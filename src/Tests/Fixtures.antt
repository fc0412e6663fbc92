-- ===== src/Tests/Fixtures.antt =====
-- The trade, the simulated broker and the quote of the runs.
use complete_dashboard.Prelude.{◌+◌, ◌/◌, true, none, some, [], ◌∷◌, length}
use complete_dashboard.Prelude.Int.{ℤ, pos}
use complete_dashboard.Prelude.Json.{
  Json, str, num, obj, arr, item, last, Members, member, end, JsonText,
}
use complete_dashboard.Chunker.{ExecOrder}
use complete_dashboard.Trading.SquareOff.{FilledOrder, RawIntents}
use complete_dashboard.Trading.Models.{
  OptionChainRow, StoredTrade, OrderIntent, ExecutionResult, MonitorConfig,
}
use complete_dashboard.Trading.Store.{new_memory_store}
use complete_dashboard.Trading.Build.{World, Gateway}

abbrev pub config : MonitorConfig ℤ
config = record {
  buy_buffer = pos 2;
  sell_buffer = pos 2;
  sl_points_per_lot = pos 0;
  hedge_threshold_delta = pos 0;
  straddle_stop_price = pos 0;
  order_lots_per_call = pos 1;
  poll_interval_sec = pos 1;
}

abbrev pub straddle : StoredTrade ℤ
straddle = record {
  trade_uid = "TRD_U001_XTS_ACC_NIFTY_25DEC2025_K_T";
  user_id = "U001";
  broker_name = "XTS";
  account_id = "ACC";
  symbol = "NIFTY";
  expiry = "25-Dec-2025";
  strike = pos 25000;
  product_type = "MIS";
  exchange_segment = "NSEFO";
  ce_token = pos 101;
  pe_token = pos 102;
  ce_qty = pos 75;
  pe_qty = pos 75;
  ce_ltp = pos 120;
  pe_ltp = pos 118;
  net_delta = pos 0;
  status = "BUILDING";
  trade_mode = "XTS";
  underlying = pos 25010;
  lot_size = pos 75;
  lots = pos 1;
  created_at = 1700;
  last_update_time = 1700;
  config = config;
}

-- Fills every order.
abbrev pub fill : OrderIntent ℤ → ExecutionResult ℤ
fill i = record {
  intent_id = i.intent_id;
  broker_order_id = "SIM-1";
  status = "FILLED";
  filled_qty = i.quantity;
  pending_qty = pos 0;
  fill_price = i.expected_price;
  event_reason = "";
  latency_ms = pos 0;
  raw_request = "";
  raw_response = "";
}

abbrev pub sim : World ℤ
sim = record {
  marshal_trade = λ t. t.trade_uid;
  marshal_intent = λ i. i.intent_id;
  read_trade = λ s. straddle;
  unix_micro = λ n. n / 1000;
  clock = λ calls. 1700 + length calls;
  broker = λ calls i. some (fill i);
}

abbrev pub idle : Gateway ℤ
idle = record { store = record { mem = new_memory_store; db = none }; calls = [] }

abbrev pub row : OptionChainRow ℤ
row = record {
  strike = pos 25000;
  ce_token = pos 101;
  pe_token = pos 102;
  ce_ltp = pos 120;
  pe_ltp = pos 118;
  ce_delta = pos 0;
  pe_delta = pos 0;
  ce_gamma = pos 0;
  pe_gamma = pos 0;
  ce_theta = pos 0;
  pe_theta = pos 0;
  ce_vega = pos 0;
  pe_vega = pos 0;
  ce_iv = pos 0;
  pe_iv = pos 0;
  is_atm = true;
  ce_symbol = "";
  pe_symbol = "";
}

abbrev pub sold_call : FilledOrder ℤ
sold_call = record {
  side = "SELL";
  filled_qty = pos 75;
  avg_fill_price = pos 120;
  symbol = "NIFTY";
  leg_type = "CE";
  token = pos 101;
}

abbrev pub bought_put : FilledOrder ℤ
bought_put = record {
  side = "BUY";
  filled_qty = pos 50;
  avg_fill_price = pos 118;
  symbol = "NIFTY";
  leg_type = "PE";
  token = pos 102;
}

abbrev pub closing : OrderIntent ℤ
closing = record {
  intent_id = "NIFT";
  trade_uid = straddle.trade_uid;
  token = pos 101;
  symbol = "NIFTY";
  exchange_segment = "NSEFO";
  side = "BUY";
  quantity = pos 75;
  order_type = "LIMIT";
  limit_price = some (pos 120);
  product_type = "MIS";
  leg_type = "CE";
  phase = "SQF";
  order_uid = "NIFT_1";
  broker_name = "SIM";
  account_id = "ACC";
  expected_price = pos 120;
}

abbrev pub order : ExecOrder ℤ
order = record {
  uid = "BUI_1";
  token = pos 101;
  symbol = "NIFTY";
  option_type = "CE";
  action = "SELL";
  quantity = pos 75;
  expected_price = pos 120;
  limit_price = pos 0;
  exchange_segment = "NSEFO";
}

abbrev pub raw : RawIntents ℤ
raw = record { read_symbol = λ s. "NIFTY"; read_leg_type = λ s. "CE"; read_token = λ s. pos 101 }

-- A gateway that holds the straddle in memory.
abbrev pub holding : Gateway ℤ
holding = record {
  store = record {
    mem = record {
      trades = record { key = straddle.trade_uid; value = straddle } ∷ [];
      intents = [];
      snapshots = [];
      runtimes = [];
    };
    db = none;
  };
  calls = [];
}

-- The JSON of an order of the broker's book, filled with 75.
abbrev pub filled_order : Members ℤ
filled_order =
    member "gorderid" (str "7")
      (member "OrderStatus" (str "TRADED") (member "tradedqty" (num (pos 75)) end))

-- Reads every text as that order.
abbrev pub json : JsonText ℤ
json = record {
  unmarshal = λ s. some (obj filled_order);
  marshal_object = λ m. "{}";
  print_value = λ v. "TRADED";
  print_whole = λ x. "7";
  scan_float = λ s. pos 0;
  parse_float = λ s. none;
}

abbrev pub book : Json ℤ
book = obj (member "orders" (arr (item (obj filled_order) last)) end)

-- A decoder whose every message is one chain.
abbrev pub message_text : JsonText ℤ
message_text = record {
  unmarshal = λ s. some (
      obj
        (member "symbol" (str "nifty") (member "expiry" (str s) (member "chain" (arr last) end))));
  marshal_object = λ m. "";
  print_value = λ v. "";
  print_whole = λ x. "";
  scan_float = λ s. pos 0;
  parse_float = λ s. none;
}
