-- ===== src/EasyUpdate/Follow.antt =====
-- The Autoremove that may follow an Easy Update (custom_components/hubinet_ops/easy_update.py).
use hubinet_ops_next.Prelude.{
  ℕ, ◌≡◌, ◌↔◌, ◌⊎◌, inl, inr, refl, sym, ap, subst, ◌∙◌, Bool, true, false, not, ◌&&◌, ◌||◌, Option,
  none, some, List, [], ◌∷◌, arith, ltb, is_empty, is_none, all, ◌==◌, if◌then◌else◌,
}
use hubinet_ops_next.Prelude.Results.{Result}
use hubinet_ops_next.Dict.{Key, get, member}
use hubinet_ops_next.Models.{
  RemovablePackage, CleanupEvidence, UpdateError, update_running, update_success, check_running,
  scan_running,
}
use hubinet_ops_next.Manager.State.{
  Manager, scan_record, update_record, cleanup_record, health_record,
}
use hubinet_ops_next.Manager.Update.{Attempt, start_autoremove}
use hubinet_ops_next.EasyUpdate.{Target}

abbrev pub is_at : ℕ → Option ℕ → Bool
is_at attempt none = false
is_at attempt (some at) = at == attempt

-- Non-empty evidence that is not older than the attempt.
abbrev pub is_current : ℕ → Option CleanupEvidence → Bool
is_current attempt none = false
is_current attempt (some e) = not (is_empty e.candidates) && not (ltb e.observed_at attempt)

-- Whether Health, Scan or Autoremove of the guest is at work.
unfoldable pub is_busy : Key → Manager → Bool
unfolding health_record scan_record cleanup_record
is_busy k m =
    check_running (health_record k m).check_status
    || (scan_running (scan_record k m).status || update_running (cleanup_record k m).status)

-- `decide`: `none` is to keep waiting.
unfoldable pub decide : ℕ → Key → Target → Manager → Option Bool
unfolding update_record is_busy member
decide attempt k g m =
    if not g.last_update_success
    then some false
    else if not (is_at attempt (update_record k m).last_attempt)
    then some false
    else if update_running (update_record k m).status
    then none
    else if not (update_success (update_record k m).status)
    then some false
    else if not (is_current attempt (get k m.cleanup_evidence)) || member k m.restore_reserved
    then some false
    else if is_busy k m
    then none
    else some (g.is_running && g.snapshot_permission)

-- What the task sees when it wakes, with the time.
pub record Wake : Type 0 where
  pub target : Target
  pub manager : Manager
  pub now : ℕ

-- How the task ends.
pub data Followed : Type 0 where
  time_ended : Followed
  skipped : Manager → Followed
  asked : Wake → Result UpdateError (Attempt (List RemovablePackage)) × Manager → Followed

-- `follow`, over the wakes that come before the observation time has ended
unfoldable pub follow : ℕ → Key → List Wake → Followed
follow attempt k [] = time_ended
follow attempt k (w ∷ ws) =
    let rest = follow attempt k ws in
    elim (decide attempt k w.target w.manager) [
      | none ↦ rest
      | some true ↦ asked w (start_autoremove k true true w.now w.manager)
      | some false ↦ skipped w.manager
    ]

-- What the task asks for before it starts Autoremove.
pub record MayFollow (attempt : ℕ) (k : Key) (g : Target) (m : Manager) : Type 0 where
  pub last_update_success : g.last_update_success ≡ true
  pub same_attempt : is_at attempt (update_record k m).last_attempt ≡ true
  pub success : update_success (update_record k m).status ≡ true
  pub evidence : is_current attempt (get k m.cleanup_evidence) ≡ true
  pub unreserved : member k m.restore_reserved ≡ false
  pub idle : is_busy k m ≡ false
  pub is_running : g.is_running ≡ true
  pub permitted : g.snapshot_permission ≡ true

-- The task starts Autoremove exactly when the update that it follows is the stored one and a
-- success, cleanup evidence is there that is not older, no Restore has the guest, nothing of it is
-- at work, and it runs with the permission for a snapshot.
pub decide_iff :
    (attempt : ℕ) (k : Key) (g : Target) (m : Manager)
    → (decide attempt k g m ≡ some true) ↔ MayFollow attempt k g m
unfolding decide
decide_iff attempt k g m = ground arith

abbrev pub IsAmong : {A : Type 0} → A → List A → Type 0
IsAmong a [] = ⊥
IsAmong a (x ∷ l) = (a ≡ x) ⊎ IsAmong a l

decision : (o : Option Bool) → (o ≡ none) ⊎ (o ≡ some true) ⊎ (o ≡ some false)
decision none = inl refl
decision (some true) = inr (inl refl)
decision (some false) = inr (inr refl)

asked_lem :
    (attempt : ℕ) (k : Key) (v : Wake) (ws : List Wake) (w : Wake)
    (r : Result UpdateError (Attempt (List RemovablePackage)) × Manager)
    → decide attempt k v.target v.manager ≡ some true
    → asked v (start_autoremove k true true v.now v.manager) ≡ asked w r
    → IsAmong w (v ∷ ws)
      × MayFollow attempt k w.target w.manager
      × (r ≡ start_autoremove k true true w.now w.manager)
asked_lem attempt k v ws w r e h =
    let same : v ≡ w = cc in
    let result : start_autoremove k true true v.now v.manager ≡ r = cc in
    (
      inl (sym same),
      subst (λ (w : Wake). MayFollow attempt k w.target w.manager) same
          ((decide_iff attempt k v.target v.manager).0 e),
      sym result ∙ ap (λ (w : Wake). start_autoremove k true true w.now w.manager) same,
    )

-- Whenever the task asks for Autoremove, it does so on the manager of one of its wakes, where all
-- that it asks for held, and what comes is the answer of the start of Autoremove.
pub follow-MayFollow :
    (attempt : ℕ) (k : Key) (ws : List Wake) (w : Wake)
    (r : Result UpdateError (Attempt (List RemovablePackage)) × Manager)
    → follow attempt k ws ≡ asked w r
    → IsAmong w ws
      × MayFollow attempt k w.target w.manager
      × (r ≡ start_autoremove k true true w.now w.manager)
unfolding follow
follow-MayFollow attempt k [] w r = λ h. cc
follow-MayFollow attempt k (v ∷ ws) w r = elim (decision (decide attempt k v.target v.manager)) [
  | inl e ↦
      rw (e, follow)
        λ h. let (among, may, same) = follow-MayFollow attempt k ws w r h in (inr among, may, same)
  | inr (inl e) ↦ rw (e, follow) λ h. asked_lem attempt k v ws w r e h
  | inr (inr e) ↦ rw (e, follow) λ h. cc
]

-- The observation ends with its time exactly when every wake before it had to wait.
pub follow_time_ended :
    (attempt : ℕ) (k : Key) (ws : List Wake)
    → (follow attempt k ws ≡ time_ended)
      ↔ (all (λ (w : Wake). is_none (decide attempt k w.target w.manager)) ws ≡ true)
unfolding follow
follow_time_ended attempt k [] = ground arith
follow_time_ended attempt k (w ∷ ws) = elim (decision (decide attempt k w.target w.manager)) [
  | inl e ↦ rw (e, follow) (follow_time_ended attempt k ws)
  | inr (inl e) ↦ rw (e, follow) (λ h. cc, λ h. ground arith)
  | inr (inr e) ↦ rw (e, follow) (λ h. cc, λ h. ground arith)
]
