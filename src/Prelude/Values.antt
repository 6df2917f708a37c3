-- ===== src/Prelude/Values.antt =====
-- The values of a dynamic language: what `json.loads` returns.
use Prim.Native.Nat.{ℕ}
use mathlib.Core.Bool.{Bool}
use mathlib.Core.List.{List, [], ◌∷◌}
use mathlib.Core.Option.{Option, none, some}
use jenezis.Prelude.Tests.{if◌then◌else◌, ◌==◌}
use jenezis.Prelude.Texts.{Text, Text_eq}

mutual
  pub data Json : Type 0 where
    null : Json
    bool : Bool → Json
    number : ℕ → Json
    str : Text → Json
    arr : Items → Json
    obj : Fields → Json

  pub data Items : Type 0 where
    nil : Items
    cons : Json → Items → Items

  pub data Fields : Type 0 where
    end : Fields
    field : Text → Json → Fields → Fields

-- `d.get(k)` on the fields of an object.
unfoldable pub get_field : Text → Fields → Option Json
get_field k end = none
get_field k (field j v fs) = if k == j then some v else get_field k fs

-- The texts of a list: the loops skip the elements that are no `str`.
unfoldable pub texts : Items → List Text
texts nil = []
texts (cons (str s) xs) = s ∷ texts xs
texts (cons x xs) = texts xs
