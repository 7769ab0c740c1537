-- ===== src/Client/Dashboard/Views.antt =====
-- The tree and the table that qt_client/src/pages/dashboard_page.cpp fills in one loop, described apart.
use mathlib.Core.List.{append_assoc, append-nil}
use frog_quant.Prelude.{
  ℕ, ◌≡◌, refl, ap, sym, ◌∙◌, Bool, true, false, not, ◌||◌, ◌&&◌, Option, none, some, List, [], ◌∷◌,
  ◌++◌, Text, bytes, if◌then◌else◌, text_eq,
}
use frog_quant.Client.Answers.{
  Json, object, null, boolean, number, string, array, Fields, no_fields, field, QtReader, as_object,
  value,
}
use frog_quant.Client.Dashboard.{
  Leaf, Node, Row, Config, Dashboard, groups, add_field, add_fields, add_node, add_value, add_group,
  add_groups, config_of, on_dashboard_response,
}

abbrev pub rows_of_leaves : Text → List Leaf → List Row
rows_of_leaves g [] = []
rows_of_leaves g (l ∷ rest) =
    record { group = g; key = l.key; text = l.text } ∷ rows_of_leaves g rest

-- The rows of a tree: its leaves, node after node.
abbrev pub rows_of : List Node → List Row
rows_of [] = []
rows_of (n ∷ rest) = rows_of_leaves n.group n.leaves ++ rows_of rest

rows_of-append : (xs ys : List Node) → rows_of (xs ++ ys) ≡ rows_of xs ++ rows_of ys
rows_of-append [] ys = refl
rows_of-append (x ∷ xs) ys =
    ap (λ r. rows_of_leaves x.group x.leaves ++ r) (rows_of-append xs ys)
    ∙ sym (append_assoc (rows_of_leaves x.group x.leaves) (rows_of xs) (rows_of ys))

module _ {F : Type 0} (qt : QtReader F) where
  -- A leaf for each field; all of the limits stand out, and whether the exchange is left alone.
  abbrev pub leaves_of : Text → Fields F → List Leaf
  unfolding text_eq
  leaves_of g no_fields = []
  leaves_of g (field key v rest) =
      record {
        key = key;
        text = qt.variant_text v;
        highlighted =
            text_eq g (bytes "risk")
            || (text_eq g (bytes "execution") && text_eq key (bytes "dry_run"));
      }
      ∷ leaves_of g rest

  abbrev pub node_of : Text → Option (Json F) → List Node
  unfolding text_eq
  node_of g (some (object obj)) =
      record {
        group = g;
        highlighted = text_eq g (bytes "risk") || text_eq g (bytes "execution");
        leaves = leaves_of g obj;
      }
      ∷ []
  node_of g _ = []

  -- A node for each group that is selected and that the configuration has as an object.
  abbrev pub nodes_of : Text → Fields F → List Text → List Node
  unfolding text_eq value
  nodes_of selected root [] = []
  nodes_of selected root (g ∷ rest) =
      (if text_eq selected (bytes "all") || text_eq selected g
        then node_of g (value root g)
        else [])
      ++ nodes_of selected root rest

  add_fields_lem :
      (g : Text) (obj : Fields F) (ls : List Leaf) (rows : List Row)
      → add_fields qt g obj (ls, rows)
        ≡ (ls ++ leaves_of g obj, rows ++ rows_of_leaves g (leaves_of g obj))
  unfolding add_fields add_field
  add_fields_lem g no_fields ls rows = rw (append-nil ls, append-nil rows) refl
  add_fields_lem g (field key v rest) ls rows =
      rw
        (
          add_fields_lem g rest _ _,
          append_assoc ls _ (leaves_of g rest),
          append_assoc rows _ (rows_of_leaves g (leaves_of g rest)),
        )
        refl

  -- The configuration with more nodes, and their rows.
  abbrev with_nodes : Config → List Node → Config
  with_nodes c nodes = record { tree = c.tree ++ nodes; table = c.table ++ rows_of nodes }

  with_no_nodes : (c : Config) → c ≡ with_nodes c []
  with_no_nodes c = rw (append-nil c.tree, append-nil c.table) refl

  add_value_lem :
      (g : Text) (v : Option (Json F)) (c : Config)
      → add_value qt g v c ≡ with_nodes c (node_of g v)
  unfolding add_value add_node
  add_value_lem g (some (object obj)) c =
      rw (add_fields_lem g obj [] c.table, append-nil (rows_of_leaves g (leaves_of g obj))) refl
  add_value_lem g (some null) c = with_no_nodes c
  add_value_lem g (some (boolean b)) c = with_no_nodes c
  add_value_lem g (some (number x)) c = with_no_nodes c
  add_value_lem g (some (string s)) c = with_no_nodes c
  add_value_lem g (some (array xs)) c = with_no_nodes c
  add_value_lem g none c = with_no_nodes c

  selected_lem :
      (a b : Bool) (c c' : Config) (nodes : List Node)
      → c' ≡ with_nodes c nodes
      → (if not a && not b then c else c') ≡ with_nodes c (if a || b then nodes else [])
  selected_lem true true c c' nodes h = h
  selected_lem true false c c' nodes h = h
  selected_lem false true c c' nodes h = h
  selected_lem false false c c' nodes h = with_no_nodes c

  with_more_nodes :
      (c : Config) (xs ys : List Node) → with_nodes (with_nodes c xs) ys ≡ with_nodes c (xs ++ ys)
  with_more_nodes c xs ys =
      rw
        (
          append_assoc c.tree xs ys,
          append_assoc c.table (rows_of xs) (rows_of ys),
          rows_of-append xs ys,
        )
        refl

  add_groups_lem :
      (selected : Text) (root : Fields F) (gs : List Text) (c : Config)
      → add_groups qt selected root gs c ≡ with_nodes c (nodes_of selected root gs)
  unfolding add_groups add_group
  add_groups_lem selected root [] c = with_no_nodes c
  add_groups_lem selected root (g ∷ rest) c =
      let v = value root g in
      let nodes : List Node =
        if text_eq selected (bytes "all") || text_eq selected g then node_of g v else [] in
      add_groups_lem selected root rest (add_group qt selected root g c)
      ∙ ap (λ k. with_nodes k (nodes_of selected root rest))
          (selected_lem (text_eq selected (bytes "all")) (text_eq selected g) c (add_value qt g v c)
            (node_of g v) (add_value_lem g v c))
      ∙ with_more_nodes c nodes (nodes_of selected root rest)

  -- An answer with the configuration, whatever was on show before: the tree has a node for each
  -- group, in the fixed order, that is selected and that the answer has as an object, with a leaf for
  -- each of its fields, those of the limits and the one that holds back orders highlighted; and the
  -- table has a row for each leaf, in the same order.
  pub on_dashboard_response-views :
      (selected : Text) (code : ℕ) (body : Text) (s : Dashboard) (root : Fields F)
      → as_object (qt.from_json body) ≡ some root
      → let nodes = nodes_of selected root groups in
        (on_dashboard_response qt selected (bytes "/config/effective") code body s).config
        ≡ record { tree = nodes; table = rows_of nodes }
  unfolding on_dashboard_response config_of
  on_dashboard_response-views selected code body s root h =
      rw h (add_groups_lem selected root groups (record { tree = []; table = [] }))
