-- ===== src/Graph/Json.antt =====
-- A JSON value as Python holds it after parsing: the `attrs` of entities and relationships.
-- A number is carried by the text that `str` prints for it.
use sleuthgraph_api.Base.{Bool}
use sleuthgraph_api.Base.Text.{Text}

mutual
  pub data Json : Type 0 where
    null : Json
    boolean : Bool → Json
    number : Text → Json
    str : Text → Json
    arr : Items → Json
    obj : Fields → Json

  pub data Items : Type 0 where
    nil : Items
    cons : Json → Items → Items

  -- A dict's items, in insertion order.
  pub data Fields : Type 0 where
    end : Fields
    field : Text → Json → Fields → Fields
