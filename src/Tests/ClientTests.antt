-- ===== src/Tests/ClientTests.antt =====
-- The pages of the client at an answer that a parser of one text reads.
use frog_quant.Prelude.{◌≡◌, refl, some, [], ◌∷◌, Text, bytes, show_nat, text_eq}
use frog_quant.Double.Fixed.{Fixed, fixed_double, print}
use frog_quant.Client.{is_ok}
use frog_quant.Client.Answers.{
  Json, object, array, number, string, item, no_items, Fields, field, no_fields, QtReader,
  as_object, value, count,
}
use frog_quant.Client.Pages.{summary, on_strategy_response, double_text}
use frog_quant.Client.Dashboard.{
  Dashboard, groups, config_of, add_groups, add_group, add_value, add_fields, add_field, add_node,
  on_dashboard_response,
}
use frog_quant.Client.Dashboard.Views.{rows_of, nodes_of, on_dashboard_response-views}
use frog_quant.Tests.Inputs.{usd}

-- Parses any text to the configuration below.
abbrev limits : Fields Fixed
limits = field (bytes "max_position_ratio") (number (usd 1)) no_fields

abbrev root : Fields Fixed
root =
    field (bytes "execution") (object (field (bytes "dry_run") (string (bytes "true")) no_fields))
      (field (bytes "risk") (object limits) no_fields)

abbrev text_of : Json Fixed → Text
unfolding print
text_of (number x) = print x
text_of (string s) = s
text_of _ = []

abbrev reader : Json Fixed → QtReader Fixed
unfolding print text_of
reader v = record { from_json = λ s. some v; variant_text = text_of; number_string = print }

abbrev blank : Dashboard
blank = record {
  health = [];
  runtime = [];
  effective = [];
  last_config_raw = [];
  config = record { tree = []; table = [] };
}

on_dashboard_response-views_example :
    let nodes = nodes_of (reader (object root)) (bytes "risk") root groups in
    (on_dashboard_response
      (reader (object root))
      (bytes "risk")
      (bytes "/config/effective")
      200
      (bytes "{}")
      blank).config
    ≡ record { tree = nodes; table = rows_of nodes }
unfolding reader as_object
on_dashboard_response-views_example =
    on_dashboard_response-views (reader (object root)) (bytes "risk") 200 (bytes "{}") blank root
      refl

one_row :
    (on_dashboard_response
      (reader (object root))
      (bytes "risk")
      (bytes "/config/effective")
      200
      (bytes "{}")
      blank).config.table
    ≡ record { group = bytes "risk"; key = bytes "max_position_ratio"; text = bytes "1000000" } ∷ []
unfolding reader on_dashboard_response config_of add_groups add_group add_value add_fields add_field
    add_node groups as_object value text_eq print text_of
one_row = refl

orders : Json Fixed
orders = object (
    field (bytes "items")
      (array (
        item
          (object (
            field (bytes "internal_id") (number (usd 1))
              (field (bytes "status") (string (bytes "Accepted")) no_fields)))
          no_items))
      no_fields)

orders_summary :
    summary (reader orders) (bytes "{}")
    ≡ bytes "items=1, first_internal_id=1000000, status=Accepted"
unfolding summary reader orders as_object value count show_nat print text_of text_eq
orders_summary = refl

limits_shown :
    (on_strategy_response (reader (object limits)) (bytes "/risk/config") 200 [] (record {
      result = [];
      risk_notional = bytes "12";
      risk_position_ratio = bytes "0.5";
      risk_loss_ratio = [];
    })).risk_position_ratio
    ≡ bytes "1000000"
unfolding on_strategy_response reader text_eq is_ok double_text as_object value print text_of
limits_shown = refl
