-- ===== src/Transport/Verdict.antt =====
-- The verdict of a Health check (custom_components/hubinet_ops/packages/transport.py).
use hubinet_ops_next.Prelude.{◌≡◌, ◌≢◌, sym, subst, ℕ, ◌≤◌, true, false, none, some, arith}
use hubinet_ops_next.Prelude.Results.{Result, returned}
use hubinet_ops_next.Models.{HealthEvidence, HealthOutcome, HealthReason, DpkgState}
use hubinet_ops_next.Models.Health.{classify_health}
use hubinet_ops_next.Transport.{Value, Fields, Target, Failure}
use hubinet_ops_next.Transport.Identity.{after, past}
use hubinet_ops_next.Transport.Health.{
  contradicts, health_evidence, parse_health_response, async_check_health,
}

-- Health evidence that says one thing: dpkg is seen exactly where the guest executes commands, and
-- its unfinished packages are counted exactly where it was interrupted.
pub record IsConsistent (e : HealthEvidence) : Type 0 where
  pub available : e.guest_exec ≡ true → e.guest_exec_unavailable ≡ false
  pub seen : e.guest_exec ≡ true → e.dpkg ≢ none
  pub unseen : e.guest_exec ≡ false → e.dpkg ≡ none
  pub no_reboot : e.guest_exec ≡ false → e.reboot_required ≡ none
  pub counted :
      e.dpkg ≡ some DpkgState.interrupted
      → (n : ℕ) × (e.unfinished_package_count ≡ some n) × (1 ≤ n)
  pub uncounted : e.dpkg ≢ some DpkgState.interrupted → e.unfinished_package_count ≡ none

contradicts-IsConsistent : (e : HealthEvidence) → contradicts e ≡ false → IsConsistent e
unfolding contradicts
contradicts-IsConsistent e h = record {
  available = λ q. ground arith;
  seen = λ q r. ground arith;
  unseen = λ q. ground arith;
  no_reboot = λ q. ground arith;
  counted = λ q. ground arith;
  uncounted = λ q. ground arith;
}

-- Consistent evidence is never classified as malformed.
classify_health-IsConsistent :
    (e : HealthEvidence)
    → IsConsistent e
    → (classify_health e).reason ≢ some HealthReason.malformed_evidence
unfolding classify_health
classify_health-IsConsistent e c h = ground (arith, c.seen, h)

health_evidence-IsConsistent :
    (fs : Fields) (e : HealthEvidence) → health_evidence fs ≡ returned e → IsConsistent e
unfolding health_evidence
health_evidence-IsConsistent fs e h = after h λ exec h1 h2. after h2 λ exec_unavailable h3 h4.
    after h4 λ dpkg h5 h6. after h6 λ count h7 h8. after h8 λ reboot h9 h10.
      past _ _ _ h10 λ sound h11.
        let found : HealthEvidence = record {
          guest_exec = exec;
          guest_exec_unavailable = exec_unavailable;
          dpkg = dpkg;
          unfinished_package_count = count;
          reboot_required = reboot;
        } in
        let same : found ≡ e = cc in subst IsConsistent same (contradicts-IsConsistent found sound)

parse_health_response-IsConsistent :
    (t : Target) (v : Value) (e : HealthEvidence)
    → parse_health_response t v ≡ returned e
    → IsConsistent e
unfolding parse_health_response
parse_health_response-IsConsistent t (Value.object p) e h =
    after h λ fs envelope h1. health_evidence-IsConsistent fs e h1
parse_health_response-IsConsistent t (Value.text s) e h = cc
parse_health_response-IsConsistent t Value.null e h = cc
parse_health_response-IsConsistent t Value.float e h = cc
parse_health_response-IsConsistent t Value.array e h = cc
parse_health_response-IsConsistent t (Value.bool b) e h = cc
parse_health_response-IsConsistent t (Value.int n) e h = cc

-- When a Health check returns, its verdict is the classification of consistent evidence, and so it
-- is never one for malformed evidence.
pub async_check_health-IsConsistent :
    (t : Target) (r : Result Failure Value) (o : HealthOutcome)
    → async_check_health t r ≡ returned o
    → ((e : HealthEvidence) × IsConsistent e × (o ≡ classify_health e))
      × (o.reason ≢ some HealthReason.malformed_evidence)
unfolding async_check_health
async_check_health-IsConsistent t r o h = past _ _ _ h λ valid h1. after h1 λ v requested h2.
    after h2 λ e evidence h3.
      let consistent = parse_health_response-IsConsistent t v e evidence in
      let same : classify_health e ≡ o = cc in
      (
        (e, consistent, sym same),
        subst (λ (o : HealthOutcome). o.reason ≢ some HealthReason.malformed_evidence) same
            (classify_health-IsConsistent e consistent),
      )
