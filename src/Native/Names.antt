-- ===== src/Native/Names.antt =====
-- The two checks of a snapshot's name (custom_components/hubinet_ops/snapshots.py and
-- custom_components/hubinet_ops/packages/snapshots.py).
use hubinet_ops_next.Prelude.{◌≡◌, [], ◌∷◌, arith, Text}
use hubinet_ops_next.Snapshots.{name_matches, valid_name}
use hubinet_ops_next.Native.{matches_name, is_eligible}

-- A name is a choice of Restore exactly when the snapshot of an update may have it: the two
-- checks, which the source writes in different ways, accept the same names.
pub is_eligible-valid_name : (s : Text) → is_eligible s ≡ valid_name s
unfolding is_eligible matches_name valid_name name_matches
is_eligible-valid_name [] = ground arith
is_eligible-valid_name (c ∷ []) = ground arith
is_eligible-valid_name (c ∷ d ∷ s) = ground arith
