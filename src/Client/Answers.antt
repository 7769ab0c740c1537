-- ===== src/Client/Answers.antt =====
-- The bodies of answers, as the pages of the Qt client read them. Qt parses them (`QJsonDocument`) and
-- prints values, so its parser and its printers are parameters.
use frog_quant.Prelude.{
  ℕ, ◌+◌, Bool, Option, none, some, ◌++◌, Text, bytes, show_nat, if◌then◌else◌, text_eq,
}

-- A `QJsonObject` is the list of its fields in the order of their keys.
mutual
  pub data Json (F : Type 0) : Type 0 where
    null : Json F
    boolean : Bool → Json F
    number : F → Json F
    string : Text → Json F
    array : Items F → Json F
    object : Fields F → Json F

  pub data Items (F : Type 0) : Type 0 where
    no_items : Items F
    item : Json F → Items F → Items F

  pub data Fields (F : Type 0) : Type 0 where
    no_fields : Fields F
    field : Text → Json F → Fields F → Fields F

-- `QJsonDocument::fromJson`, `toVariant().toString()` of a value, and `QString::number` of a double,
-- which keeps six digits.
pub record QtReader (F : Type 0) : Type 0 where
  pub from_json : Text → Option (Json F)
  pub variant_text : Json F → Text
  pub number_string : F → Text

module _ {F : Type 0} where
  -- `doc.isObject()`, and `doc.object()`.
  unfoldable pub as_object : Option (Json F) → Option (Fields F)
  as_object (some (object fields)) = some fields
  as_object _ = none

  unfoldable pub value : Fields F → Text → Option (Json F)
  value no_fields key = none
  value (field k v rest) key = if text_eq k key then some v else value rest key

  unfoldable pub count : Items F → ℕ
  count no_items = 0
  count (item v rest) = 1 + count rest

-- `[%1] %2` and `%1 [%2]: %3`.
unfoldable pub coded : ℕ → Text → Text
unfolding show_nat
coded code body = bytes "[" ++ (show_nat code ++ (bytes "] " ++ body))

unfoldable pub routed : Text → ℕ → Text → Text
unfolding show_nat
routed route code body = route ++ (bytes " [" ++ (show_nat code ++ (bytes "]: " ++ body)))
