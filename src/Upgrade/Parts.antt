-- ===== src/Upgrade/Parts.antt =====
-- `str.partition` at an equals sign.
use Prim.Native.Char.{code}
use Prim.Native.String.{String, [], ◌∷◌}
use see_size.Base.{Option, none, some, if◌then◌else◌, eqb}

-- `item.partition('=')`, where there is a separator.
unfoldable pub partition : String → Option (String × String)
partition [] = none
partition (c ∷ s) =
    let rest = partition s in
    if eqb (code c) b'='
    then some ([], s)
    else elim rest [ none ↦ none | some (a, b) ↦ some (c ∷ a, b) ]
