-- ===== src/Nextboot/Config.antt =====
-- nextboot/nextboot.go: the configuration of an ePoxy client.
use epoxy.Base.{Str, Option, List}
use epoxy.Base.Dict.{Dict}

-- interface{} as encoding/json fills it. A number is the text that fmt prints for it.
mutual
  pub data Value : Type 0 where
    null : Value
    bool_true : Value
    bool_false : Value
    num : Str → Value
    str : Str → Value
    arr : Items → Value
    obj : Fields → Value

  pub data Items : Type 0 where
    nil : Items
    cons : Value → Items → Items

  pub data Fields : Type 0 where
    end : Fields
    field : Str → Value → Fields → Fields

-- An action. A map or list that is absent from the JSON text is empty.
pub record V1 : Type 0 where
  pub chain : Str
  pub vars : Dict Value
  pub files : Dict (Dict Str)
  pub env : Dict Str
  pub commands : List Value

-- `v1` is a pointer: nil is `none`.
pub record Config : Type 0 where
  pub kargs : Dict Str
  pub v1 : Option V1
