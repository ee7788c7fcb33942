-- ===== src/Transport/Scanned.antt =====
-- The result of a scan (custom_components/hubinet_ops/packages/transport.py).
use hubinet_ops_next.Prelude.{
  ◌≡◌, refl, ap, ◌∙◌, subst, not, ◌||◌, some, [], arith, Text, codes, All, if_cases,
}
use hubinet_ops_next.Prelude.Results.{Result, ok, err, returned}
use hubinet_ops_next.Models.{ScanResult}
use hubinet_ops_next.Parser.Lines.{Tables}
use hubinet_ops_next.Parser.Order.{IsIncreasing}
use hubinet_ops_next.Parser.Fault.{parse_error, scan_error, Parsed}
use hubinet_ops_next.Parser.Evidence.{Inventory, parse_installed_inventory}
use hubinet_ops_next.Parser.Apt.{pending_id}
use hubinet_ops_next.Parser.Sound.{IsBacked, parse_apt_simulation-IsUpgrade}
use hubinet_ops_next.Transport.{
  Value, object, text, Fields, get, is_true, has_protocol, has_operation, Target, target_matches,
  Failure, text_of, fields_of,
}
use hubinet_ops_next.Transport.Identity.{after, past, present_lem, IsReply}
use hubinet_ops_next.Transport.Evidence.{text_of_lem}
use hubinet_ops_next.Transport.Scan.{
  scan_evidence, scan_result, parse_response, async_scan, reported, parsed, requested,
}

parsed_lem :
    {A : Type 0} (show : Value → Text) (x : Parsed A) (a : A)
    → parsed show x ≡ returned a
    → x ≡ ok a
parsed_lem show (ok b) a h = cc
parsed_lem show (err (parse_error f s)) a h = cc
parsed_lem show (err (scan_error f s)) a h = cc

-- What the packages of a scan rest on: an inventory that the evidence holds.
pub record IsScanned (e : Fields) (x : ScanResult) : Type 0 where
  pub shown : Text
  pub held : get "installed_inventory" e ≡ some (text shown)
  pub inventory : Inventory
  pub parses : parse_installed_inventory shown ≡ ok inventory
  pub finished : inventory.unfinished ≡ []
  pub backed : All (IsBacked inventory.versions) x.packages
  pub increasing : IsIncreasing pending_id x.packages

module _ (show : Value → Text) (tables : Tables) (t : Target) where
  reported_lem : {C : Type 0} (e f : Fields) → reported show e ≡ returned f → C
  reported_lem e f h = after h λ failure found h1. cc

  scan_evidence-IsReply :
      (p e : Fields) → scan_evidence show t p ≡ returned e → IsReply t (codes "scan_packages") p e
  unfolding scan_evidence
  scan_evidence-IsReply p e =
      if_cases (λ r. r ≡ returned e → IsReply t (codes "scan_packages") p e)
        (not (has_protocol p) || not (has_operation (codes "scan_packages") p)) _ _ (λ f h. cc)
        λ f.
          if_cases (λ r. r ≡ returned e → IsReply t (codes "scan_packages") p e)
            (is_true (get "ok" p)) _ _
            (λ g.
              if_cases (λ r. r ≡ returned e → IsReply t (codes "scan_packages") p e)
                (not (target_matches t (get "target" p))) _ _ (λ q h. cc)
                λ q h. record {
                  protocol = ground arith;
                  operates = ground arith;
                  is_ok = g;
                  same_target = ground arith;
                  evidence = present_lem _ (fields_of (get "evidence" p)) e h;
                })
            λ g h. after h λ f found h1. past _ _ _ h1 λ q h2. reported_lem f e h2

  scan_result-IsScanned :
      (e : Fields) (x : ScanResult) → scan_result show tables e ≡ returned x → IsScanned e x
  unfolding scan_result
  scan_result-IsScanned e x h = after h λ reboot h1 h2. after h2 λ os_value h3 h4.
      after h4 λ native_value h5 h6. after h6 λ inventory_value inventory_key h7.
        after h7 λ simulation_value h8 h9. after h9 λ os_text h10 h11. after h11 λ native h12 h13.
          after h13 λ inventory inventory_is h14. after h14 λ simulation h15 h16.
            after h16 λ os h17 h18. after h18 λ plan plan_parsed h19.
              let (inv, parses, finished, rows) =
                parse_apt_simulation-IsUpgrade tables simulation native inventory plan
                  (parsed_lem show _ plan plan_parsed) in
              let same : plan.packages ≡ x.packages = cc in
              record {
                shown = inventory;
                held =
                    present_lem _ (get "installed_inventory" e) inventory_value inventory_key
                    ∙ ap some (
                        text_of_lem inventory_value inventory
                          (present_lem _ (text_of inventory_value) inventory inventory_is));
                inventory = inv;
                parses = parses;
                finished = finished;
                backed = subst (All (IsBacked inv.versions)) same rows.0;
                increasing = subst (IsIncreasing pending_id) same rows.1;
              }

  parse_response-IsScanned :
      (v : Value) (x : ScanResult)
      → parse_response show tables t v ≡ returned x
      → (p : Fields) × (e : Fields) × (v ≡ object p)
        × IsReply t (codes "scan_packages") p e
        × IsScanned e x
  unfolding parse_response
  parse_response-IsScanned (object p) x h = after h λ e envelope h1.
      (p, e, refl, scan_evidence-IsReply p e envelope, scan_result-IsScanned e x h1)
  parse_response-IsScanned (text s) x h = cc
  parse_response-IsScanned Value.null x h = cc
  parse_response-IsScanned Value.float x h = cc
  parse_response-IsScanned Value.array x h = cc
  parse_response-IsScanned (Value.bool b) x h = cc
  parse_response-IsScanned (Value.int n) x h = cc

  requested_lem : (r : Result Failure Value) (v : Value) → requested show r ≡ returned v → r ≡ ok v
  requested_lem (ok w) v h = cc
  requested_lem (err Failure.timeout) v h = cc
  requested_lem (err Failure.host_key) v h = cc
  requested_lem (err Failure.authentication) v h = cc
  requested_lem (err (Failure.connection s)) v h = cc
  requested_lem (err (Failure.unavailable s)) v h = cc
  requested_lem (err (Failure.protocol s)) v h = cc

  -- When a scan returns, a successful reply to it named the very target that was asked for, and its
  -- evidence holds an inventory with no unfinished package in which every pending package is
  -- installed with the version it upgrades from; no package comes twice.
  pub async_scan-IsScanned :
      (r : Result Failure Value) (x : ScanResult)
      → async_scan show tables t r ≡ returned x
      → (p : Fields) × (e : Fields) × (r ≡ ok (object p))
        × IsReply t (codes "scan_packages") p e
        × IsScanned e x
  unfolding async_scan
  async_scan-IsScanned r x h = after h λ valid h1 h2. after h2 λ v got h3.
      let (p, e, is_object, reply, scanned) = parse_response-IsScanned v x h3 in
      (p, e, requested_lem r v got ∙ ap ok is_object, reply, scanned)
