-- ===== src/Client/Panels.antt =====
-- What answers change on qt_client/src/pages/logs_page.cpp and dashboard_page.cpp. The summary of an
-- answer is read by Qt's JSON parser, and is an argument.
use frog_quant.Client.{Call, get_orders, get_events, get_health, get_runtime, get_effective_config}
use frog_quant.Prelude.{
  ◌+◌, ◌%◌, ◌==◌, ℕ, ◌-◌, ◌≤◌, Bool, not, ◌||◌, List, [], ◌∷◌, ◌++◌, Text, bytes, show_nat,
  if◌then◌else◌, text_eq, length, drop, arith, length-drop,
}

-- A row: the time, the route with the code, and the summary.
pub record Row : Type 0 where
  pub time : Text
  pub route : Text
  pub summary : Text

unfoldable pub append_table_row : (time route : Text) → ℕ → (summary : Text) → List Row → List Row
unfolding show_nat
append_table_row time route code summary table =
    let row : Row = record {
      time = time;
      route = route ++ (bytes " [" ++ (show_nat code ++ bytes "]"));
      summary = summary;
    } in
    let rows = table ++ row ∷ [] in drop (length rows - 50) rows

last_rows-bounded : (rows : List Row) → length (drop (length rows - 50) rows) ≤ 50
last_rows-bounded rows = omega (arith, length-drop (length rows - 50) rows)

-- At most fifty rows are kept.
append_table_row-bounded :
    (time route : Text) (code : ℕ) (summary : Text) (table : List Row)
    → length (append_table_row time route code summary table) ≤ 50
unfolding append_table_row
append_table_row-bounded time route code summary table = last_rows-bounded (
    table
    ++ record {
      time = time;
      route = route ++ (bytes " [" ++ (show_nat code ++ bytes "]"));
      summary = summary;
    }
      ∷ [])

-- The two tables of the page.
pub record Logs : Type 0 where
  pub orders : List Row
  pub events : List Row

-- An answer with its summary, at a time; those on other routes are passed over.
unfoldable pub on_response : (time route : Text) → ℕ → (summary : Text) → Logs → Logs
unfolding text_eq append_table_row
on_response time route code summary s =
    if text_eq route (bytes "/orders")
    then record s { orders = append_table_row time route code summary s.orders }
    else if text_eq route (bytes "/events")
    then record s { events = append_table_row time route code summary s.events }
    else s

-- Tables that are kept to fifty rows stay so.
on_response-bounded :
    (time route : Text) (code : ℕ) (summary : Text) (s : Logs)
    → length s.orders ≤ 50
    → length s.events ≤ 50
    → let s' = on_response time route code summary s in
      (length s'.orders ≤ 50) × (length s'.events ≤ 50)
unfolding on_response
on_response-bounded time route code summary s h k = ground (
  arith,
  append_table_row-bounded time route code summary s.orders,
  append_table_row-bounded time route code summary s.events,
)

module _ {F : Type 0} where
  -- The timer of the page.
  unfoldable pub refresh_logs : List (Call F)
  unfolding get_orders get_events
  refresh_logs = get_orders ∷ get_events ∷ []

  -- The timer of the dashboard, and its counter.
  unfoldable pub refresh_dashboard : ℕ → List (Call F) × ℕ
  unfolding get_health get_runtime get_effective_config
  refresh_dashboard n =
      let k = n + 1 in
      (get_health ∷ get_runtime ∷ (if k % 5 == 0 then get_effective_config ∷ [] else []), k)

-- The line of the connection's state on the dashboard.
pub record Status : Type 0 where
  pub connected : Bool
  pub latency_ms : ℕ
  pub banner : Bool

-- Answers on other routes are passed over.
unfoldable pub on_metric : (route : Text) → (latency_ms : ℕ) → (ok : Bool) → Status → Status
unfolding text_eq
on_metric route latency_ms ok s =
    if text_eq route (bytes "/health")
      || (text_eq route (bytes "/strategy/grid/runtime")
          || text_eq route (bytes "/config/effective"))
    then record { connected = ok; latency_ms = latency_ms; banner = not ok }
    else s
