-- ===== src/Operator/Gauges/Counts.antt =====
-- The gauge of each phase is the number of the projects that are in it.
use mathlib.Core.Option.{some-injective}
use reinhardt_cloud.Base.{
  ℕ, suc, ◌+◌, ◌-◌, ◌≤◌, ◌≡◌, refl, sym, ◌∙◌, ap, String, Bool, true, false, if◌then◌else◌, Option,
  none, some, List, [], ◌∷◌, Eq, ◌==◌, string_eq, arith, Bool-cases, Option-cases, inl, inr, eq_iff,
  subst,
}
use reinhardt_cloud.Base.Int.{ℤ, pos}
use reinhardt_cloud.Base.Map.{
  Map, get, insert, remove, get-insert, get-remove, IsUnique, insert-IsUnique, remove-IsUnique,
}
use reinhardt_cloud.Operator.Gauges.Defs.{
  Gauges, inc, dec, at_label, has_changed, moved, update_managed_apps_gauge,
  drop_managed_apps_gauge,
}

abbrev pub as_number : Bool → ℕ
as_number true = 1
as_number false = 0

module _ {K : Type 0} ⦃e : Eq K⦄ where
  -- the number of entries with a label
  abbrev pub count_label : String → Map K String → ℕ
  count_label l [] = 0
  count_label l ((k, v) ∷ m) = as_number (v == l) + count_label l m

  count-insert :
      (l : String) (k : K) (v : String) (m : Map K String)
      → count_label l (insert k v m) + elim (get k m) [ none ↦ 0 | some w ↦ as_number (w == l) ]
        ≡ count_label l m + as_number (v == l)
  unfolding insert get
  count-insert l k v [] = ground arith
  count-insert l k v ((j, u) ∷ m) = elim (Bool-cases (j == k)) [
    | inl same ↦ rw same (ground arith)
    | inr other ↦ rw other (ground (arith, count-insert l k v m))
  ]

  count-remove-none :
      (l : String) (k : K) (m : Map K String)
      → get k m ≡ none
      → count_label l (remove k m) ≡ count_label l m
  unfolding remove get
  count-remove-none l k [] h = refl
  count-remove-none l k ((j, u) ∷ m) h = elim (Bool-cases (j == k)) [
    | inl same ↦ absurd (ground (arith, same))
    | inr other ↦ rw other (ground (arith, count-remove-none l k m (rw other at h)))
  ]

  count-remove :
      (l : String) (k : K) (w : String) (m : Map K String)
      → IsUnique m
      → get k m ≡ some w
      → count_label l (remove k m) + as_number (w == l) ≡ count_label l m
  unfolding remove get
  count-remove l k w [] u h = absurd (ground arith)
  count-remove l k w ((j, v) ∷ m) u h = elim (Bool-cases (j == k)) [
    | inl same ↦
        let gone : get k m ≡ none = subst (λ i. get i m ≡ none) ((e.beq_iff j k).0 same) u.0 in
        let same_label : v ≡ w = some-injective v w (rw same at h) in
        rw same (
          subst
            (λ x.
              count_label l (remove k m) + as_number (x == l)
              ≡ as_number (v == l) + count_label l m)
            same_label (omega (arith, count-remove-none l k m gone)))
    | inr other ↦ rw other (ground (arith, count-remove l k w m u.1 (rw other at h)))
  ]

-- the operations on the gauge of a label, where it stands at a natural number
at_label-inc :
    (label l : String) (f : String → ℤ) (n : ℕ)
    → f l ≡ pos n
    → at_label label inc f l ≡ pos (n + as_number (label == l))
unfolding at_label inc
at_label-inc label l f n h = elim (Bool-cases (label == l)) [
  | inl same ↦ rw (same, h) (ap pos (omega arith))
  | inr other ↦ rw (other, h) (ap pos (omega arith))
]

at_label-dec :
    (label l : String) (f : String → ℤ) (n : ℕ)
    → f l ≡ pos (n + as_number (label == l))
    → at_label label dec f l ≡ pos n
unfolding at_label dec
at_label-dec label l f n h = elim (Bool-cases (label == l)) [
  | inl same ↦
      let here : f l ≡ pos (suc n) = (rw same at h) ∙ ap pos (omega arith) in rw (same, here) refl
  | inr other ↦
      let here : f l ≡ pos n = (rw other at h) ∙ ap pos (omega arith) in rw (other, here) refl
]

-- different labels are not both this one
one_label : (a b l : String) → (a == b) ≡ false → as_number (a == l) + as_number (b == l) ≤ 1
one_label a b l other = elim (Bool-cases (a == l)) [
  | inl first ↦ elim (Bool-cases (b == l)) [
    | inl second ↦ absurd (ground (arith, eq_iff a l, eq_iff b l, eq_iff a b))
    | inr not_second ↦ rw (first, not_second) (ground arith)
  ]
  | inr not_first ↦ elim (Bool-cases (b == l)) [
    | inl second ↦ rw (not_first, second) (ground arith)
    | inr not_second ↦ rw (not_first, not_second) (ground arith)
  ]
]

-- the gauge after a phase was recorded, from the count before, `n`, and the count after
moved-count :
    (o : Option String) (new_phase l : String) (f : String → ℤ) (n n' : ℕ)
    → f l ≡ pos n
    → n' + elim o [ none ↦ 0 | some w ↦ as_number (w == l) ] ≡ n + as_number (new_phase == l)
    → moved o new_phase f l ≡ pos n'
unfolding moved has_changed
moved-count none new_phase l f n n' h c = at_label-inc new_phase l f n h ∙ ap pos (omega arith)
moved-count (some prev) new_phase l f n n' h c = elim (Bool-cases (prev == new_phase)) [
  | inl same ↦
      let e : prev ≡ new_phase = (eq_iff prev new_phase).0 same in
      let kept : n' + as_number (new_phase == l) ≡ n + as_number (new_phase == l) =
        subst (λ p. n' + as_number (p == l) ≡ n + as_number (new_phase == l)) e c in
      rw same (h ∙ ap pos (omega (arith, kept)))
  | inr other ↦
      let one = one_label prev new_phase l other in
      let m = n' - as_number (new_phase == l) in
      let before : n ≡ m + as_number (prev == l) = omega (arith, one, c) in
      let left = at_label-dec prev l f m (h ∙ ap pos before) in
      rw other
        (at_label-inc new_phase l (at_label prev dec f) m left ∙ ap pos (omega (arith, one, c)))
]

-- What happens to the gauges: the phase of a project is recorded, or a project is cleaned up.
pub data Op (K : Type 0) : Type 0 where
  record_phase : K → String → Op K
  clean_up : K → Op K

module _ {K : Type 0} ⦃e : Eq K⦄ where
  unfoldable pub apply : Op K → Gauges K → Gauges K
  apply (record_phase key new_phase) g = update_managed_apps_gauge key new_phase g
  apply (clean_up key) g = drop_managed_apps_gauge key g

  -- the last one first
  unfoldable pub apply_all : List (Op K) → Gauges K
  unfolding apply
  apply_all [] = record { phase_state = List.[]; managed_apps = λ l. pos 0 }
  apply_all (op ∷ ops) = apply op (apply_all ops)

  pub record AreCounts (g : Gauges K) : Type 0 where
    pub unique : IsUnique g.phase_state
    pub count : (l : String) → g.managed_apps l ≡ pos (count_label l g.phase_state)

  record-AreCounts :
      (key : K) (new_phase : String) (g : Gauges K)
      → AreCounts g
      → AreCounts (update_managed_apps_gauge key new_phase g)
  unfolding update_managed_apps_gauge
  record-AreCounts key new_phase g h = record {
    unique = insert-IsUnique key new_phase g.phase_state h.unique;
    count = λ l.
        moved-count (get key g.phase_state) new_phase l g.managed_apps (count_label l g.phase_state)
          (count_label l (insert key new_phase g.phase_state)) (h.count l)
          (count-insert l key new_phase g.phase_state);
  }

  drop-AreCounts :
      (key : K) (g : Gauges K) → AreCounts g → AreCounts (drop_managed_apps_gauge key g)
  unfolding drop_managed_apps_gauge
  drop-AreCounts key g h = elim (Option-cases (get key g.phase_state)) [
    | inl gone ↦ rw (gone, drop_managed_apps_gauge) h
    | inr (w, here) ↦
        rw (here, drop_managed_apps_gauge)
          (record {
            unique = remove-IsUnique key g.phase_state h.unique;
            count = λ l.
                at_label-dec w l g.managed_apps (count_label l (remove key g.phase_state))
                  (h.count l ∙ ap pos (sym (count-remove l key w g.phase_state h.unique here)));
          })
  ]

  apply_all-AreCounts : (ops : List (Op K)) → AreCounts (apply_all ops)
  unfolding apply_all apply
  apply_all-AreCounts [] = record { unique = tt; count = λ l. refl }
  apply_all-AreCounts (record_phase key new_phase ∷ ops) =
      record-AreCounts key new_phase (apply_all ops) (apply_all-AreCounts ops)
  apply_all-AreCounts (clean_up key ∷ ops) =
      drop-AreCounts key (apply_all ops) (apply_all-AreCounts ops)

  -- the phase that was recorded for a project since its last clean-up, from the history alone
  abbrev pub last_phase : K → List (Op K) → Option String
  last_phase key [] = none
  last_phase key (record_phase k phase ∷ ops) = if k == key then some phase else last_phase key ops
  last_phase key (clean_up k ∷ ops) = if k == key then none else last_phase key ops

  get-drop :
      (k key : K) (g : Gauges K)
      → get key (drop_managed_apps_gauge k g).phase_state
        ≡ (if k == key then none else get key g.phase_state)
  unfolding drop_managed_apps_gauge
  get-drop k key g = elim (Option-cases (get k g.phase_state)) [
    | inl gone ↦ elim (Bool-cases (k == key)) [
      | inl same ↦
          let absent : get key g.phase_state ≡ none =
            subst (λ i. get i g.phase_state ≡ none) ((e.beq_iff k key).0 same) gone in
          rw (gone, same, drop_managed_apps_gauge) absent
      | inr other ↦ rw (gone, other, drop_managed_apps_gauge) refl
    ]
    | inr (w, here) ↦ rw (here, drop_managed_apps_gauge) (get-remove k key g.phase_state)
  ]

  phase_state_lem :
      (ops : List (Op K)) (key : K) → get key (apply_all ops).phase_state ≡ last_phase key ops
  unfolding apply_all apply update_managed_apps_gauge get
  phase_state_lem [] key = refl
  phase_state_lem (record_phase k phase ∷ ops) key =
      get-insert k key phase (apply_all ops).phase_state
      ∙ ap (λ o. if k == key then some phase else o) (phase_state_lem ops key)
  phase_state_lem (clean_up k ∷ ops) key =
      get-drop k key (apply_all ops)
      ∙ ap (λ o. if k == key then none else o) (phase_state_lem ops key)

  -- After any sequence of recorded phases and clean-ups there is a table in which each project stands
  -- once, under the phase that was recorded last for it, if it was not cleaned up since, and no other
  -- project stands; and the gauge of every label is the number of projects under that label in it.
  pub managed_apps_lem :
      (ops : List (Op K))
      → (m : Map K String) × (IsUnique m
          × (((key : K) → get key m ≡ last_phase key ops)
              × ((l : String) → (apply_all ops).managed_apps l ≡ pos (count_label l m))))
  managed_apps_lem ops = (
    (apply_all ops).phase_state,
    ((apply_all-AreCounts ops).unique, (phase_state_lem ops, (apply_all-AreCounts ops).count)),
  )
