-- ===== src/Transport/Scan.antt =====
-- The scan request (custom_components/hubinet_ops/packages/transport.py).
use hubinet_ops_next.Prelude.{
  zero, Bool, true, false, not, ◌&&◌, ◌||◌, Option, none, some, [], Text, codes, text_eq,
  if◌then◌else◌, String, take, leb,
}
use hubinet_ops_next.Prelude.Results.{Result, ok, err, Answer, returned, raised}
use hubinet_ops_next.Models.{ScanFailure, ScanError, ScanResult}
use hubinet_ops_next.Parser.Lines.{Tables}
use hubinet_ops_next.Parser.Fault.{parse_error, scan_error, Parsed}
use hubinet_ops_next.Parser.System.{parse_os_release}
use hubinet_ops_next.Parser.Apt.{parse_apt_simulation}
use hubinet_ops_next.Native.{pos}
use hubinet_ops_next.Transport.{
  Value, null, bool, int, text, float, array, object, Fields, empty, get, is_true, has_protocol,
  has_operation, Target, target_matches, target_contradicts, is_node, Failure, timeout, host_key,
  authentication, failure_text, text_of, fields_of, ◌>>=◌, ◌>>◌, refuse_if, present,
}

abbrev fault : ScanFailure → String → ScanError
fault f s = record { failure = f; message = codes s }

-- `PackageScanFailure(word)`
unfoldable pub failure_of : Text → Option ScanFailure
failure_of s =
    if text_eq s (codes "dpkg_unfinished")
    then some ScanFailure.dpkg_unfinished
    else if text_eq s (codes "execution_failed")
    then some ScanFailure.execution_failed
    else if text_eq s (codes "guest_changed_during_scan")
    then some ScanFailure.guest_changed_during_scan
    else if text_eq s (codes "guest_unavailable")
    then some ScanFailure.guest_unavailable
    else if text_eq s (codes "identity_mismatch")
    then some ScanFailure.identity_mismatch
    else if text_eq s (codes "malformed_plan")
    then some ScanFailure.malformed_plan
    else if text_eq s (codes "metadata_refresh_failed")
    then some ScanFailure.metadata_refresh_failed
    else if text_eq s (codes "package_manager_busy")
    then some ScanFailure.package_manager_busy
    else if text_eq s (codes "protocol_mismatch")
    then some ScanFailure.protocol_mismatch
    else if text_eq s (codes "simulation_failed")
    then some ScanFailure.simulation_failed
    else if text_eq s (codes "timeout")
    then some ScanFailure.timeout
    else if text_eq s (codes "unsupported_os")
    then some ScanFailure.unsupported_os
    else none

-- `bool(value)`; whether a float or an array is true is told by its text.
abbrev zero_texts : Text → Bool
zero_texts s = text_eq s (codes "0.0") || (text_eq s (codes "-0.0") || text_eq s (codes "[]"))

module _ (show : Value → Text) where
  truth : Value → Bool
  truth null = false
  truth (bool b) = b
  truth (int (pos zero)) = false
  truth (text []) = false
  truth (object empty) = false
  truth float = not (zero_texts (show float))
  truth array = not (zero_texts (show array))
  truth _ = true

  -- `str(message)[:500] if message else "package scan failed"`
  unfoldable pub shown_message : Option Value → Text
  unfolding truth
  shown_message none = codes "package scan failed"
  shown_message (some v) = if truth v then take 500 (show v) else codes "package scan failed"

  abbrev classification_of : Option Value → Option ScanFailure
  classification_of none = none
  classification_of (some v) = failure_of (show v)

  -- A failure that the helper reports.
  abbrev pub reported : Fields → Answer ScanError Fields
  reported e =
      present (fault ScanFailure.execution_failed "package scan helper returned an unknown failure")
        (classification_of (get "classification" e))
      >>= λ f. raised (record { failure = f; message = shown_message (get "message" e) })

  abbrev pub wrong_identity : ScanError
  wrong_identity =
      fault ScanFailure.identity_mismatch
        "package scan helper returned the wrong node or LXC identity"

  -- The envelope of `_parse_response`.
  unfoldable pub scan_evidence : Target → Fields → Answer ScanError Fields
  unfolding target_matches target_contradicts failure_of shown_message
  scan_evidence t p =
      if not (has_protocol p) || not (has_operation (codes "scan_packages") p)
      then raised
          (fault ScanFailure.protocol_mismatch "package scan helper protocol is incompatible")
      else if is_true (get "ok" p)
      then (if not (target_matches t (get "target" p))
          then raised wrong_identity
          else present
              (fault ScanFailure.execution_failed "package scan helper returned malformed evidence")
              (fields_of (get "evidence" p)))
      else (do
        e ←
            present
              (fault ScanFailure.execution_failed
                "package scan helper returned an unclassified failure")
              (fields_of (get "error" p))
        refuse_if (target_contradicts t (get "target" p)) wrong_identity
        reported e)

  -- `reboot_required`: missing, null or a truth value.
  abbrev reboot_of : Option Value → Answer ScanError (Option Bool)
  reboot_of none = returned none
  reboot_of (some null) = returned none
  reboot_of (some (bool b)) = returned (some b)
  reboot_of (some _) =
      raised (
        fault ScanFailure.execution_failed "package scan helper returned malformed reboot evidence")

  abbrev pub key_of : String → Fields → Answer ScanError Value
  key_of key e =
      present
        (fault ScanFailure.execution_failed "package scan helper returned incomplete evidence")
        (get key e)

  abbrev pub as_text : Value → Answer ScanError Text
  as_text v =
      present (fault ScanFailure.execution_failed "package scan helper returned malformed evidence")
        (text_of v)

  abbrev pub parsed : {A : Type 0} → Parsed A → Answer ScanError A
  parsed (ok a) = returned a
  parsed (err (parse_error f s)) = raised (record { failure = f; message = s })
  parsed (err (scan_error f s)) = raised (record { failure = f; message = s })

  -- What follows the envelope.
  unfoldable pub scan_result : Tables → Fields → Answer ScanError ScanResult
  unfolding parse_os_release parse_apt_simulation
  scan_result tables e = do
    reboot ← reboot_of (get "reboot_required" e)
    os_value ← key_of "os_release" e
    native_value ← key_of "native_architecture" e
    inventory_value ← key_of "installed_inventory" e
    simulation_value ← key_of "simulation" e
    os_text ← as_text os_value
    native ← as_text native_value
    inventory ← as_text inventory_value
    simulation ← as_text simulation_value
    (os_id, os_version) ← parsed (parse_os_release tables os_text)
    plan ← parsed (parse_apt_simulation tables simulation native inventory)
    returned (record {
      os_id = os_id;
      os_version = os_version;
      packages = plan.packages;
      reboot_required = reboot;
      not_upgraded_count = plan.not_upgraded_count;
    })

  -- `_parse_response`
  unfoldable pub parse_response : Tables → Target → Value → Answer ScanError ScanResult
  unfolding scan_evidence scan_result
  parse_response tables t (object p) = scan_evidence t p >>= scan_result tables
  parse_response tables t _ = raised (
      fault ScanFailure.protocol_mismatch
        "package scan helper returned a malformed protocol response")

  -- `_validate_target`
  unfoldable pub validate_target : Target → Answer ScanError (Unit {0})
  unfolding is_node
  validate_target t = do
    refuse_if (not (is_node t.node))
        (fault ScanFailure.execution_failed "Proxmox node identity is invalid for package scanning")
    refuse_if (not (leb 100 t.vmid && leb t.vmid 999999999))
        (fault ScanFailure.execution_failed "Proxmox LXC VMID is invalid for package scanning")

  abbrev pub requested : Result Failure Value → Answer ScanError Value
  requested (ok v) = returned v
  requested (err timeout) = raised (fault ScanFailure.timeout "package scan helper timed out")
  requested (err host_key) =
      raised (fault ScanFailure.execution_failed "package scan SSH host key did not match")
  requested (err authentication) =
      raised (fault ScanFailure.execution_failed "package scan SSH authentication failed")
  requested (err f) =
      raised (record { failure = ScanFailure.execution_failed; message = failure_text f })

  -- `async_scan`, over what its request comes to
  unfoldable pub async_scan : Tables → Target → Result Failure Value → Answer ScanError ScanResult
  unfolding validate_target parse_response
  async_scan tables t r = do validate_target t; v ← requested r; parse_response tables t v
