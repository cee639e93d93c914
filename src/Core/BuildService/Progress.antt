-- ===== src/Core/BuildService/Progress.antt =====
-- Every build ends, and a cancellation that comes too late does not stop it.
use reinhardt_cloud.Base.{
  ℕ, suc, ◌+◌, ◌-◌, ◌*◌, ◌≤◌, Bool, true, false, some, List, [], ◌∷◌, ◌≡◌, refl, arith, ◌⊎◌, inl,
  inr, if_intro, sym, subst, length, All,
}
use reinhardt_cloud.Core.BuildService.Defs.{
  Point, head, announced, logging, sleeping, failing, publishing, completing, marking, finished,
  Build, Tick, advance_at, advance,
}

-- what happens to one build: its task moves, or a client cancels it
pub data Input : Type 0 where
  move : Tick → Input
  cancelling : Input

unfoldable pub react : Input → Build → Build
react (move t) b = advance t b
react cancelling b = record b { cancelled = true }

unfoldable pub react_all : List Input → Build → Build
react_all [] b = b
react_all (i ∷ is) b = react_all is (react i b)

-- the moves among the inputs
abbrev pub moves : List Input → ℕ
moves [] = 0
moves (move t ∷ is) = suc (moves is)
moves (cancelling ∷ is) = moves is

-- the timer ends each wait
abbrev pub IsTimed : Input → Type 0
IsTimed (move t) = t.slept ≡ true
IsTimed cancelling = Unit

-- the moves left, at most
abbrev left : Point → ℕ
left (head rest) = 4 * length rest + 4
left (announced stage rest) = 4 * length rest + 7
left (logging stage rest) = 4 * length rest + 6
left (sleeping rest) = 4 * length rest + 5
left failing = 1
left publishing = 3
left completing = 2
left marking = 1
left finished = 0

left-advance_at :
    (p : Point) (t : Tick) (b : Build)
    → b.point ≡ p
    → t.slept ≡ true
    → left (advance_at p t b).point ≤ left p - 1
unfolding advance_at
left-advance_at (head []) t b at slept = ground arith
left-advance_at (head (stage ∷ rest)) t b at slept = ground arith
left-advance_at _ t b at slept = ground arith

left-advance : (t : Tick) (b : Build) → t.slept ≡ true → left (advance t b).point ≤ left b.point - 1
unfolding advance
left-advance t b slept = left-advance_at b.point t b refl slept

left-eq-zero : (p : Point) → left p ≤ 0 → p ≡ finished
left-eq-zero finished h = refl
left-eq-zero _ h = absurd (omega arith)

-- A task whose waits end by their timers has ended after as many moves as are left, whatever
-- cancellations come between them.
pub react_all-finished :
    (is : List Input) (b : Build)
    → All IsTimed is
    → left b.point ≤ moves is
    → (react_all is b).point ≡ finished
unfolding react_all react
react_all-finished [] b timed enough = left-eq-zero b.point enough
react_all-finished (move t ∷ is) b (slept, timed) enough =
    react_all-finished is (advance t b) timed (omega (arith, left-advance t b slept))
react_all-finished (cancelling ∷ is) b (_, timed) enough =
    react_all-finished is (record b { cancelled = true }) timed enough

-- past the last wait, where the token is not read any more
abbrev pub IsLate : Point → Type 0
IsLate (head []) = Unit
IsLate publishing = Unit
IsLate completing = Unit
IsLate marking = Unit
IsLate _ = ⊥

-- before a point where the token is read again
abbrev pub IsEarly : Point → Type 0
IsEarly (head (stage ∷ rest)) = Unit
IsEarly (announced stage (next ∷ rest)) = Unit
IsEarly (logging stage (next ∷ rest)) = Unit
IsEarly (sleeping (next ∷ rest)) = Unit
IsEarly failing = Unit
IsEarly _ = ⊥

-- an ended build with an outcome
abbrev HasEnded : Bool → Build → Type 0
HasEnded success b = (b.point ≡ finished) × (b.status.success ≡ some success)

-- on the way to success, or there
abbrev Succeeds : Build → Type 0
Succeeds b = IsLate b.point ⊎ HasEnded true b

-- on the way to failure, or there
abbrev Fails : Build → Type 0
Fails b = (IsEarly b.point × (b.cancelled ≡ true)) ⊎ HasEnded false b

late-advance_at : (p : Point) (t : Tick) (b : Build) → IsLate p → Succeeds (advance_at p t b)
unfolding advance_at
late-advance_at (head []) t b late = inl tt
late-advance_at publishing t b late = inl tt
late-advance_at completing t b late = inl tt
late-advance_at marking t b late = inr (refl, refl)
late-advance_at (head (stage ∷ rest)) t b late = absurd late
late-advance_at _ t b late = absurd late

early-advance_at :
    (p : Point) (t : Tick) (b : Build)
    → b.point ≡ p
    → b.cancelled ≡ true
    → IsEarly p
    → Fails (advance_at p t b)
unfolding advance_at
early-advance_at (head []) t b at c early = absurd early
early-advance_at (head (stage ∷ rest)) t b at c early =
    if_intro Fails b.cancelled (λ _. inl (tt, c)) (λ going. cc)
early-advance_at (announced stage (next ∷ rest)) t b at c early = inl (tt, c)
early-advance_at (logging stage (next ∷ rest)) t b at c early = inl (tt, c)
early-advance_at (sleeping (next ∷ rest)) t b at c early =
    if_intro Fails t.slept (λ _. inl (tt, c))
      (λ _. if_intro Fails b.cancelled (λ _. inl (tt, c)) (λ going. cc))
early-advance_at failing t b at c early = inr (refl, refl)
early-advance_at (announced stage []) t b at c early = absurd early
early-advance_at (logging stage []) t b at c early = absurd early
early-advance_at (sleeping []) t b at c early = absurd early
early-advance_at _ t b at c early = absurd early

ended-advance :
    (success : Bool) (t : Tick) (b : Build) → HasEnded success b → HasEnded success (advance t b)
unfolding advance advance_at
ended-advance success t b (at, outcome) =
    subst (λ p. HasEnded success (advance_at p t b)) (sym at) (at, outcome)

react-Succeeds : (i : Input) (b : Build) → Succeeds b → Succeeds (react i b)
unfolding react advance
react-Succeeds (move t) b (inl late) = late-advance_at b.point t b late
react-Succeeds (move t) b (inr ended) = inr (ended-advance true t b ended)
react-Succeeds cancelling b h = h

react-Fails : (i : Input) (b : Build) → Fails b → Fails (react i b)
unfolding react advance
react-Fails (move t) b (inl (early, c)) = early-advance_at b.point t b refl c early
react-Fails (move t) b (inr ended) = inr (ended-advance false t b ended)
react-Fails cancelling b (inl (early, c)) = inl (early, refl)
react-Fails cancelling b (inr ended) = inr ended

react_all-Succeeds : (is : List Input) (b : Build) → Succeeds b → Succeeds (react_all is b)
unfolding react_all
react_all-Succeeds [] b h = h
react_all-Succeeds (i ∷ is) b h = react_all-Succeeds is (react i b) (react-Succeeds i b h)

react_all-Fails : (is : List Input) (b : Build) → Fails b → Fails (react_all is b)
unfolding react_all
react_all-Fails [] b h = h
react_all-Fails (i ∷ is) b h = react_all-Fails is (react i b) (react-Fails i b h)

succeeded : (b : Build) → b.point ≡ finished → Succeeds b → b.status.success ≡ some true
succeeded b end (inl late) = absurd (rw end at late)
succeeded b end (inr ended) = ended.1

failed : (b : Build) → b.point ≡ finished → Fails b → b.status.success ≡ some false
failed b end (inl early) = absurd (rw end at early.0)
failed b end (inr ended) = ended.1

module _ (is : List Input) (b : Build) (timed : All IsTimed is)
    (enough : left b.point ≤ moves is) where
  -- A build whose task is past its last wait ends with success, even if it is cancelled, once its
  -- task has moved as often as it needs, with each wait ended by its timer.
  pub react_all-late : IsLate b.point → (react_all (cancelling ∷ is) b).status.success ≡ some true
  unfolding react_all react
  react_all-late late =
      succeeded (react_all is (record b { cancelled = true }))
        (react_all-finished is (record b { cancelled = true }) timed enough)
        (react_all-Succeeds is (record b { cancelled = true }) (inl late))

  -- A build that is cancelled while a phase is still to begin ends with failure, once its task has
  -- moved as often as it needs, with each wait ended by its timer.
  pub react_all-early :
      IsEarly b.point → (react_all (cancelling ∷ is) b).status.success ≡ some false
  unfolding react_all react
  react_all-early early =
      failed (react_all is (record b { cancelled = true }))
        (react_all-finished is (record b { cancelled = true }) timed enough)
        (react_all-Fails is (record b { cancelled = true }) (inl (early, refl)))
