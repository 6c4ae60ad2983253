-- ===== src/Pilot/Provenance.antt =====
-- src/evalops/pilot/provenance.py: the versions of a model over the sessions of a pilot. A set is a list without
-- repetitions.
use evalops_lab.Common.{
  ◌≤◌, String, ◌≡◌, refl, Bool, true, false, not, ◌&&◌, ◌||◌, Option, none, some, List, [], ◌∷◌,
  ◌++◌, if_ind, Result, ok, raise, length, member, ◌==◌, ==_iff, string_eq, nat_eq, arith,
  if◌then◌else◌,
}

pub data ModelVersionChangedError : Type 0 where
  version_changed : ModelVersionChangedError

pub record ModelVersionContinuity : Type 0 where
  pub historical_versions : List String
  pub resumed_versions : List String
  pub failed : Bool

-- `ModelVersionContinuity(historical_versions)`
abbrev pub resuming : List String → ModelVersionContinuity
resuming versions = record { historical_versions = versions; resumed_versions = []; failed = false }

pub data ContinuityStatus : Type 0 where
  pass fail unverified : ContinuityStatus

unfoldable pub historical_status : ModelVersionContinuity → String
historical_status c = if length c.historical_versions == 0 then "UNAVAILABLE" else "AVAILABLE"

unfoldable pub continuity_status : ModelVersionContinuity → ContinuityStatus
continuity_status c =
    if c.failed
    then fail
    else if length c.historical_versions == 0 || length c.resumed_versions == 0
    then unverified
    else pass

-- `versions and version not in versions`
abbrev pub differs : String → List String → Bool
differs version versions = not (length versions == 0) && not (member version versions)

unfoldable pub observe_version :
    String
    → ModelVersionContinuity
    → Result ModelVersionChangedError (Unit {0}) × ModelVersionContinuity
observe_version version c =
    if differs version c.historical_versions || differs version c.resumed_versions
    then (raise version_changed, record c { failed = true })
    else if member version c.resumed_versions
    then (ok tt, c)
    else (ok tt, record c { resumed_versions = version ∷ c.resumed_versions })

-- `observe`
unfoldable pub observe_model_version :
    Option String
    → ModelVersionContinuity
    → Result ModelVersionChangedError (Unit {0}) × ModelVersionContinuity
unfolding observe_version
observe_model_version none c = (ok tt, c)
observe_model_version (some version) c =
    if version == "" then (ok tt, c) else observe_version version c

-- The calls of a session, one after the other, whatever they raise.
unfoldable pub observe_versions :
    List (Option String) → ModelVersionContinuity → ModelVersionContinuity
unfolding observe_model_version
observe_versions [] c = c
observe_versions (v ∷ vs) c = observe_versions vs (observe_model_version v c).1

-- At most one version was accepted, and it is among the historical ones, if there are any.
pub record IsContinuous (history : List String) (c : ModelVersionContinuity) : Type 0 where
  pub same_history : c.historical_versions ≡ history
  pub one_version : length c.resumed_versions ≤ 1
  pub known : (v : String) → (not (member v c.resumed_versions) || not (differs v history)) ≡ true

observe_version-IsContinuous :
    (history : List String) (version : String) (c : ModelVersionContinuity)
    → IsContinuous history c
    → IsContinuous history (observe_version version c).1
unfolding observe_version
observe_version-IsContinuous history version c m = record {
  same_history = ground (arith, m.same_history);
  one_version = ground (arith, m.one_version);
  known = λ v. ground (arith, m.known v, m.same_history, ==_iff v version);
}

observe_model_version-IsContinuous :
    (history : List String) (v : Option String) (c : ModelVersionContinuity)
    → IsContinuous history c
    → IsContinuous history (observe_model_version v c).1
unfolding observe_model_version
observe_model_version-IsContinuous history none c m = m
observe_model_version-IsContinuous history (some version) c m =
    if_ind
      (λ (o : Result ModelVersionChangedError (Unit {0}) × ModelVersionContinuity).
        IsContinuous history o.1)
      (version == "") m (observe_version-IsContinuous history version c m)

kept_by-observe_versions :
    (history : List String) (vs : List (Option String)) (c : ModelVersionContinuity)
    → IsContinuous history c
    → IsContinuous history (observe_versions vs c)
unfolding observe_versions
kept_by-observe_versions history [] c m = m
kept_by-observe_versions history (v ∷ vs) c m =
    kept_by-observe_versions history vs (observe_model_version v c).1
      (observe_model_version-IsContinuous history v c m)

observe_model_version-failed :
    (v : Option String) (c : ModelVersionContinuity)
    → c.failed ≡ true
    → (observe_model_version v c).1.failed ≡ true
unfolding observe_model_version observe_version
observe_model_version-failed none c h = h
observe_model_version-failed (some version) c h = ground (arith, h)

observe_model_version-raises :
    (v : Option String) (c : ModelVersionContinuity)
    → (observe_model_version v c).0 ≡ raise version_changed
    → (observe_model_version v c).1.failed ≡ true
unfolding observe_model_version observe_version
observe_model_version-raises none c h = cc h
observe_model_version-raises (some version) c h = ground (arith, h)

observe_versions-failed :
    (vs : List (Option String)) (c : ModelVersionContinuity)
    → c.failed ≡ true
    → (observe_versions vs c).failed ≡ true
unfolding observe_versions
observe_versions-failed [] c h = h
observe_versions-failed (v ∷ vs) c h =
    observe_versions-failed vs (observe_model_version v c).1 (observe_model_version-failed v c h)

observe_versions-append :
    (before : List (Option String)) (v : Option String) (later : List (Option String))
    (c : ModelVersionContinuity)
    → observe_versions (before ++ v ∷ later) c
      ≡ observe_versions later (observe_model_version v (observe_versions before c)).1
unfolding observe_versions
observe_versions-append [] v later c = refl
observe_versions-append (u ∷ before) v later c =
    observe_versions-append before v later (observe_model_version u c).1

-- If a version is refused after others were observed, then whatever is observed later at most one
-- version has been accepted, it is among the historical ones if there are any, the historical ones
-- are unchanged, and the status stays FAIL.
pub observe_versions-IsContinuous :
    (history : List String) (before : List (Option String)) (v : Option String)
    (later : List (Option String))
    → (observe_model_version v (observe_versions before (resuming history))).0
      ≡ raise version_changed
    → IsContinuous history (observe_versions (before ++ v ∷ later) (resuming history))
      × (continuity_status (observe_versions (before ++ v ∷ later) (resuming history)) ≡ fail)
unfolding continuity_status
observe_versions-IsContinuous history before v later h =
    let start : IsContinuous history (resuming history) = record {
      same_history = refl;
      one_version = omega arith;
      known = λ u. refl;
    } in
    let stopped = observe_model_version-raises v (observe_versions before (resuming history)) h in
    let failed : (observe_versions (before ++ v ∷ later) (resuming history)).failed ≡ true =
      rw (observe_versions-append before v later (resuming history)) (
        observe_versions-failed later
          (observe_model_version v (observe_versions before (resuming history))).1 stopped) in
    (
      kept_by-observe_versions history (before ++ v ∷ later) (resuming history) start,
      rw failed refl,
    )
