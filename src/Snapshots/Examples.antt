-- ===== src/Snapshots/Examples.antt =====
-- The listing of one guest (custom_components/hubinet_ops/packages/snapshots.py).
use hubinet_ops_next.Prelude.{◌≡◌, ◌&&◌, List, [], ◌∷◌, Text, codes, text_eq, any}
use hubinet_ops_next.Snapshots.{missing, text, Row, row, named, retained_names, retains}
use hubinet_ops_next.Snapshots.Laws.{any-retained_names}

abbrev kept : Text
kept = codes "hubinet-preupd-1"

abbrev shown : List Row
shown =
    row (text kept) missing
    ∷ row (text (codes "manual")) missing
    ∷ row (text (codes "current")) missing
    ∷ []

any-retained_names_example :
    any (text_eq kept) (retained_names shown) ≡ (any (named kept) shown && retains kept)
any-retained_names_example = any-retained_names kept shown
