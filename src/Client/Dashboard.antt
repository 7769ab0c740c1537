-- ===== src/Client/Dashboard.antt =====
-- What the answers of the server change on qt_client/src/pages/dashboard_page.cpp: three texts, and the
-- effective configuration as a tree and as a table.
pub mod Views
use frog_quant.Prelude.{
  ℕ, ◌≡◌, refl, ap, sym, ◌∙◌, Bool, true, false, not, ◌||◌, ◌&&◌, Option, none, some, List, [], ◌∷◌,
  ◌++◌, Text, bytes, if◌then◌else◌, text_eq, arith,
}
use mathlib.Core.List.{append_assoc, append-nil}
use frog_quant.Strings.{is_empty}
use frog_quant.Client.Answers.{
  Json, object, Fields, no_fields, field, QtReader, as_object, value, coded,
}

pub record Leaf : Type 0 where
  pub key : Text
  pub text : Text
  pub highlighted : Bool

pub record Node : Type 0 where
  pub group : Text
  pub highlighted : Bool
  pub leaves : List Leaf

-- A row of the table: group, key and value.
pub record Row : Type 0 where
  pub group : Text
  pub key : Text
  pub text : Text

pub record Config : Type 0 where
  pub tree : List Node
  pub table : List Row

unfoldable pub groups : List Text
groups =
    bytes "engine"
    ∷ bytes "risk"
    ∷ bytes "execution"
    ∷ bytes "logging"
    ∷ bytes "runtime"
    ∷ bytes "strategy"
    ∷ []

module _ {F : Type 0} (qt : QtReader F) where
  -- One field of a group: a leaf, which is the last of its node so far, and a row.
  unfoldable pub add_field : Text → Text → Json F → List Leaf × List Row → List Leaf × List Row
  unfolding text_eq
  add_field g key v (leaves, table) = (
    leaves
        ++ record {
          key = key;
          text = qt.variant_text v;
          highlighted =
              text_eq g (bytes "risk")
              || (text_eq g (bytes "execution") && text_eq key (bytes "dry_run"));
        }
          ∷ [],
    table ++ record { group = g; key = key; text = qt.variant_text v } ∷ [],
  )

  unfoldable pub add_fields : Text → Fields F → List Leaf × List Row → List Leaf × List Row
  unfolding add_field
  add_fields g no_fields st = st
  add_fields g (field key v rest) st = add_fields g rest (add_field g key v st)

  unfoldable pub add_node : Text → List Leaf × List Row → Config → Config
  unfolding text_eq
  add_node g (leaves, table) c = record {
    tree =
        c.tree
        ++ record {
          group = g;
          highlighted = text_eq g (bytes "risk") || text_eq g (bytes "execution");
          leaves = leaves;
        }
          ∷ [];
    table = table;
  }

  unfoldable pub add_value : Text → Option (Json F) → Config → Config
  unfolding add_node add_fields
  add_value g (some (object obj)) c = add_node g (add_fields g obj ([], c.table)) c
  add_value g _ c = c

  -- One turn of the loop over the groups.
  unfoldable pub add_group : (selected : Text) → Fields F → Text → Config → Config
  unfolding text_eq value add_value
  add_group selected root g c =
      if not (text_eq selected (bytes "all")) && not (text_eq selected g)
      then c
      else add_value g (value root g) c

  unfoldable pub add_groups : (selected : Text) → Fields F → List Text → Config → Config
  unfolding add_group
  add_groups selected root [] c = c
  add_groups selected root (g ∷ rest) c =
      add_groups selected root rest (add_group selected root g c)

  unfoldable pub config_of : (selected : Text) → Option (Fields F) → Config
  unfolding add_groups groups
  config_of selected none = record { tree = []; table = [] }
  config_of selected (some root) =
      add_groups selected root groups (record { tree = []; table = [] })

pub record Dashboard : Type 0 where
  pub health : Text
  pub runtime : Text
  pub effective : Text
  pub last_config_raw : Text
  pub config : Config

module _ {F : Type 0} (qt : QtReader F) where
  -- An answer, with the group that is selected.
  unfoldable pub on_dashboard_response :
      (selected route : Text) → ℕ → (body : Text) → Dashboard → Dashboard
  unfolding text_eq coded config_of as_object
  on_dashboard_response selected route code body s =
      if text_eq route (bytes "/health")
      then record s { health = coded code body }
      else if text_eq route (bytes "/strategy/grid/runtime")
      then record s { runtime = coded code body }
      else if text_eq route (bytes "/config/effective")
      then record s {
        effective = coded code body;
        last_config_raw = body;
        config = config_of qt selected (as_object (qt.from_json body));
      }
      else s

-- The button that exports: what is written, and where. `path` is the answer of the file dialog, and
-- `opened` whether the file can be opened.
unfoldable pub export_clicked : (path : Text) → (opened : Bool) → Dashboard → Option (Text × Text)
export_clicked path opened s =
    if is_empty s.last_config_raw
    then none
    else if is_empty path
    then none
    else if opened
    then some (path, s.last_config_raw)
    else none
