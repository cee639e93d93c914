-- ===== src/Core/BuildService/Runs.antt =====
-- What a build has sent, and what its status says, wherever its task stands.
use mathlib.Core.List.{map-append, append_assoc, append-nil}
use reinhardt_cloud.Base.{
  String, Bool, true, false, Option, none, some, List, [], ◌∷◌, ◌++◌, map, ◌≡◌, refl, sym, ◌∙◌, ap,
  nat_eq, inl, inr, is_some, if_intro, Option-cases,
}
use reinhardt_cloud.Base.Map.{get, Each, insert-Each, modify-Each}
use reinhardt_cloud.Base.Result.{Result}
use reinhardt_cloud.Core.ApiError.{ApiError}
use reinhardt_cloud.Types.Basic.{Uuid, DateTime}
use reinhardt_cloud.Types.Build.{
  BuildRequest, BuildEvent, BuildPhase, BuildStatus, log, phase_change, artifact_ready, error,
  complete,
}
use reinhardt_cloud.Core.BuildService.Defs.{
  Stage, phases, Point, head, announced, logging, sleeping, failing, publishing, completing,
  marking, finished, Build, Tick, send, report_cancelled, advance_at, advance, Builds, Step, start,
  cancel, tick, Reach, boot, next, start_build, cancel_build, started,
}

-- an event without its time and its texts
pub data Kind : Type 0 where
  announce : BuildPhase → Kind
  note : String → Kind
  artifact : Kind
  failure : Kind
  outcome : Bool → Kind

unfoldable pub kind : BuildEvent → Kind
kind (log message t) = note message
kind (phase_change phase t) = announce phase
kind (artifact_ready url digest t) = artifact
kind (error message t) = failure
kind (complete success t) = outcome success

-- what the loop sends for its phases
unfoldable pub trace : List Stage → List Kind
trace [] = []
trace (stage ∷ rest) = announce stage.0 ∷ note stage.1 ∷ trace rest

trace-append : (xs ys : List Stage) → trace (xs ++ ys) ≡ trace xs ++ trace ys
unfolding trace
trace-append [] ys = refl
trace-append (x ∷ xs) ys = ap (λ l. announce x.0 ∷ note x.1 ∷ l) (trace-append xs ys)

abbrev pub success_trace : List Kind
success_trace = trace phases ++ artifact ∷ outcome true ∷ []

-- what a cancelled build has sent: some of the phases, and the report
abbrev pub IsFailureTrace : List Kind → Type 0
IsFailureTrace ks =
    (done rest : List Stage) × (done ++ rest ≡ phases) × (ks ≡ trace done ++ failure ∷ [])

-- what the outcome in the status says of the events
abbrev pub Accounts : Option Bool → List Kind → Type 0
Accounts none ks = ⊥
Accounts (some true) ks = ks ≡ success_trace
Accounts (some false) ks = IsFailureTrace ks

-- The events sent, at each point.
abbrev pub History : Point → Option Bool → List Kind → Type 0
History (head rest) o ks = (done : List Stage) × (done ++ rest ≡ phases) × (ks ≡ trace done)
History (announced stage rest) o ks =
    (done : List Stage) × (done ++ stage ∷ rest ≡ phases)
    × (ks ≡ trace done ++ announce stage.0 ∷ [])
History (logging stage rest) o ks =
    (done : List Stage) × (done ++ stage ∷ rest ≡ phases)
    × (ks ≡ trace done ++ announce stage.0 ∷ [])
History (sleeping rest) o ks = (done : List Stage) × (done ++ rest ≡ phases) × (ks ≡ trace done)
History failing o ks = IsFailureTrace ks
History publishing o ks = ks ≡ trace phases
History completing o ks = ks ≡ trace phases ++ artifact ∷ []
History marking o ks = ks ≡ success_trace
History finished o ks = Accounts o ks

-- The status is settled exactly at the end.
abbrev pub Settled : Point → BuildStatus → Type 0
Settled finished s = (s.completed ≡ true) × (is_some s.completed_at ≡ true)
Settled _ s = (s.completed ≡ false) × (s.success ≡ none) × (s.completed_at ≡ none)

-- A build fails only when it was cancelled.
abbrev pub Blames : Point → Option Bool → Bool → Type 0
Blames failing o cancelled = cancelled ≡ true
Blames finished o cancelled = o ≡ some false → cancelled ≡ true
Blames _ o cancelled = Unit

Blames-cancelled : (p : Point) (o : Option Bool) → Blames p o true
Blames-cancelled failing o = refl
Blames-cancelled finished o = λ _. refl
Blames-cancelled _ o = tt

pub record IsRun (b : Build) : Type 0 where
  pub history : History b.point b.status.success (map kind b.sent)
  pub settled : Settled b.point b.status
  pub blames : Blames b.point b.status.success b.cancelled

kinds-send :
    (e : BuildEvent) (b : Build) → map kind (send e b).sent ≡ map kind b.sent ++ kind e ∷ []
kinds-send e b = map-append kind b.sent (e ∷ [])

module _ (t : Tick) (b : Build)
    (open_status : (b.status.completed ≡ false)
      × (b.status.success ≡ none)
      × (b.status.completed_at ≡ none)) where
  -- after one more event at a point that the status does not tell of
  sends-IsRun :
      (e : BuildEvent) (p : Point) {ks : List Kind}
      → map kind b.sent ≡ ks
      → (map kind (send e b).sent ≡ ks ++ kind e ∷ []
          → History p b.status.success (map kind (send e b).sent))
      → Settled p b.status
      → Blames p b.status.success b.cancelled
      → IsRun (record (send e b) { point = p })
  sends-IsRun e p so_far h s bl = record {
    history = h (kinds-send e b ∙ ap (λ l. l ++ kind e ∷ []) so_far);
    settled = s;
    blames = bl;
  }

  report-IsRun :
      (done rest : List Stage)
      → done ++ rest ≡ phases
      → map kind b.sent ≡ trace done
      → b.cancelled ≡ true
      → IsRun (report_cancelled t.now b)
  unfolding kind
  report-IsRun done rest split so_far cancelled =
      sends-IsRun (error "Build cancelled by user" t.now) failing so_far
        (λ h. (done, rest, split, h)) open_status cancelled

-- the messages of one phase complete its part of the trace
trace-step :
    (done : List Stage) (stage : Stage) {ks : List Kind}
    → ks ≡ (trace done ++ announce stage.0 ∷ []) ++ note stage.1 ∷ []
    → ks ≡ trace (done ++ stage ∷ [])
unfolding trace
trace-step done stage h =
    h
    ∙ append_assoc (trace done) (announce stage.0 ∷ []) (note stage.1 ∷ [])
    ∙ sym (trace-append done (stage ∷ []))

advance_at-IsRun :
    (p : Point) (t : Tick) (b : Build)
    → IsRun b
    → History p b.status.success (map kind b.sent)
    → Settled p b.status
    → Blames p b.status.success b.cancelled
    → IsRun (advance_at p t b)
unfolding advance_at kind
advance_at-IsRun (head []) t b run (done, split, so_far) s bl = record {
  history = so_far ∙ ap trace (sym (append-nil done) ∙ split);
  settled = s;
  blames = tt;
}
advance_at-IsRun (head (stage ∷ rest)) t b run (done, split, so_far) s bl =
    if_intro IsRun b.cancelled
      (λ cancelled. report-IsRun t b s done (stage ∷ rest) split so_far cancelled)
      (λ going.
        sends-IsRun t b s (phase_change stage.0 t.now) (announced stage rest) so_far
          (λ h. (done, split, h)) s tt)
advance_at-IsRun (announced stage rest) t b run h s bl = record {
  history = h;
  settled = s;
  blames = tt;
}
advance_at-IsRun (logging stage rest) t b run (done, split, so_far) s bl =
    sends-IsRun t b s (log stage.1 t.now) (sleeping rest) so_far
      (λ h.
        (done ++ stage ∷ [], append_assoc done (stage ∷ []) rest ∙ split, trace-step done stage h))
      s tt
advance_at-IsRun (sleeping rest) t b run (done, split, so_far) s bl =
    if_intro IsRun t.slept
      (λ slept. record { history = (done, split, so_far); settled = s; blames = tt })
      (λ woken.
        if_intro IsRun b.cancelled
          (λ cancelled. report-IsRun t b s done rest split so_far cancelled) (λ going. run))
advance_at-IsRun failing t b run h s bl = record {
  history = h;
  settled = (refl, refl);
  blames = λ _. bl;
}
advance_at-IsRun publishing t b run h s bl =
    sends-IsRun t b s (artifact_ready _ t.digest t.now) completing h (λ h'. h') s tt
advance_at-IsRun completing t b run h s bl =
    sends-IsRun t b s (complete true t.now) marking h
      (λ h'. h' ∙ append_assoc (trace phases) (artifact ∷ []) (outcome true ∷ [])) s tt
advance_at-IsRun marking t b run h s bl = record {
  history = h;
  settled = (refl, refl);
  blames = λ e. cc;
}
advance_at-IsRun finished t b run h s bl = run

advance-IsRun : (t : Tick) (b : Build) → IsRun b → IsRun (advance t b)
unfolding advance
advance-IsRun t b run = advance_at-IsRun b.point t b run run.history run.settled run.blames

-- a client's cancellation, at any point
cancel-IsRun : (b : Build) → IsRun b → IsRun (record b { cancelled = true })
cancel-IsRun b run = record {
  history = run.history;
  settled = run.settled;
  blames = Blames-cancelled b.point b.status.success;
}

started-IsRun :
    (build_id : Uuid) (request : BuildRequest) (now : DateTime)
    → IsRun (started build_id request now)
unfolding trace
started-IsRun build_id request now = record {
  history = ([], refl, refl);
  settled = (refl, refl, refl);
  blames = tt;
}

-- every build of the service is a run
abbrev pub AreRuns : Builds → Type 0
AreRuns m = Each IsRun m

cancel_build-AreRuns : (m : Builds) (k : Uuid) → AreRuns m → AreRuns (cancel_build m k).0
unfolding cancel_build
cancel_build-AreRuns m k runs = elim (Option-cases (get k m)) [
  | inl unknown ↦ rw (unknown, cancel_build) runs
  | inr (b, here) ↦
      rw (here, cancel_build)
        (if_intro {A = Builds × Result (Unit {0}) ApiError} (λ r. AreRuns r.0) b.status.completed
          (λ _. runs) (λ _. modify-Each IsRun k _ m cancel-IsRun runs))
]

Step-AreRuns : {m m' : Builds} → Step m m' → AreRuns m → AreRuns m'
unfolding start_build
Step-AreRuns {m} (start build_id request now new) runs =
    insert-Each IsRun build_id _ m (started-IsRun build_id request now) runs
Step-AreRuns {m} (cancel build_id) runs = cancel_build-AreRuns m build_id runs
Step-AreRuns {m} (tick build_id t) runs =
    modify-Each IsRun build_id (advance t) m (advance-IsRun t) runs

-- Whatever clients and tasks do, in any order, every build of the service is a run: its events are
-- those of the phases so far, its status is settled exactly when its task has ended, with the
-- outcome that its last event reported, and it has failed only if it was cancelled.
pub Reach-AreRuns : {m : Builds} → Reach m → AreRuns m
unfolding get
Reach-AreRuns boot = λ k b h. cc
Reach-AreRuns (next r st) = Step-AreRuns st (Reach-AreRuns r)
