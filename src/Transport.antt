-- ===== src/Transport.antt =====
-- The replies of the host helper (custom_components/hubinet_ops/packages/transport.py): values of
-- JSON, the envelope of a reply, and how a request fails.
pub mod Request
pub mod Reply
pub mod Update
pub mod Scan
pub mod Health
pub mod Identity
pub mod Evidence
pub mod Verdict
pub mod Scanned
pub mod Examples
use hubinet_ops_next.Prelude.{
  ℕ, suc, Bool, true, false, not, ◌&&◌, ◌||◌, Option, none, some, List, [], ◌∷◌, Text, codes,
  text_eq, ltb, leb, ◌==◌, if◌then◌else◌, length, all, String,
}
use hubinet_ops_next.Prelude.Results.{Answer, returned, raised, unexpected}
use hubinet_ops_next.Native.{ℤ, pos, negsuc}
use hubinet_ops_next.Snapshots.{is_letter}

-- What `json.loads` returns; the parts of an array and the value of a float are never read.
mutual
  pub data Value : Type 0 where
    null float array : Value
    bool : Bool → Value
    int : ℤ → Value
    text : Text → Value
    object : Fields → Value

  pub data Fields : Type 0 where
    empty : Fields
    field : Text → Value → Fields → Fields

-- `mapping.get(key)`, where a missing key is none
unfoldable pub lookup : Text → Fields → Option Value
lookup k empty = none
lookup k (field j v fs) = if text_eq j k then some v else lookup k fs

abbrev pub get : String → Fields → Option Value
get k fs = lookup (codes k) fs

abbrev pub is_text : Text → Option Value → Bool
is_text t (some (text s)) = text_eq s t
is_text t _ = false

abbrev pub is_true : Option Value → Bool
is_true (some (bool b)) = b
is_true _ = false

-- `type(value) is int and value == n`
abbrev pub is_int : ℕ → Option Value → Bool
is_int n (some (int (pos m))) = m == n
is_int n _ = false

-- `type(value) is int and value >= 1`
abbrev pub is_positive : Option Value → Bool
is_positive (some (int (pos m))) = leb 1 m
is_positive _ = false

-- `type(payload.get("protocol_version")) is int and ... == PROTOCOL_VERSION`
abbrev pub has_protocol : Fields → Bool
has_protocol p = is_int 1 (get "protocol_version" p)

abbrev pub has_operation : Text → Fields → Bool
has_operation operation p =
    is_positive (get "helper_version" p) && is_text operation (get "operation" p)

-- A target: its node and its VMID, and what a reply's target says of it.
pub record Target : Type 0 where
  pub node : Text
  pub vmid : ℕ

-- `target_matches`; an empty mapping has no node.
unfoldable pub target_matches : Target → Option Value → Bool
unfolding lookup
target_matches t (some (object fs)) =
    is_text t.node (get "node" fs) && is_int t.vmid (get "vmid" fs)
target_matches t _ = false

abbrev pub is_filled : Option Value → Bool
is_filled (some (object (field k v fs))) = true
is_filled _ = false

-- `isinstance(target, Mapping) and target and not target_matches`
unfoldable pub target_contradicts : Target → Option Value → Bool
unfolding target_matches
target_contradicts t v = is_filled v && not (target_matches t v)

abbrev is_node_char : ℕ → Bool
is_node_char c = is_letter c || (leb b'0' c && leb c b'9') || (c == b'.' || c == b'-')

-- `[A-Za-z0-9][A-Za-z0-9.-]{0,62}`, over the whole text
unfoldable pub is_node : Text → Bool
unfolding is_letter
is_node [] = false
is_node (c ∷ s) =
    (is_letter c || (leb b'0' c && leb c b'9')) && (all is_node_char s && leb (length s) 62)

-- What the three checks of a target have in common.
unfoldable pub valid_target : Target → Bool
unfolding is_node
valid_target t = is_node t.node && (leb 100 t.vmid && leb t.vmid 999999999)

-- How `_async_request` fails.
pub data Failure : Type 0 where
  timeout host_key authentication : Failure
  connection unavailable protocol : Text → Failure

abbrev pub failure_text : Failure → Text
failure_text timeout = codes "package helper timed out"
failure_text host_key = codes "PVE SSH host key did not match"
failure_text authentication = codes "PVE SSH authentication failed"
failure_text (connection s) = s
failure_text (unavailable s) = s
failure_text (protocol s) = s

infixl 5 ◌>>=◌ ◌>>◌
unfoldable pub ◌>>=◌ : {E A B : Type 0} → Answer E A → (A → Answer E B) → Answer E B
returned a >>= next = next a
raised e >>= next = raised e
unexpected >>= next = unexpected

abbrev pub ◌>>◌ : {E A B : Type 0} → Answer E A → Answer E B → Answer E B
m >> next = m >>= λ _. next

-- `if bad: raise error`
unfoldable pub refuse_if : {E : Type 0} → Bool → E → Answer E (Unit {0})
refuse_if false e = returned tt
refuse_if true e = raised e

-- A value that has to be there.
unfoldable pub present : {E A : Type 0} → E → Option A → Answer E A
present e none = raised e
present e (some a) = returned a

abbrev pub text_of : Value → Option Text
text_of (text s) = some s
text_of _ = none

abbrev pub fields_of : Option Value → Option Fields
fields_of (some (object fs)) = some fs
fields_of _ = none
