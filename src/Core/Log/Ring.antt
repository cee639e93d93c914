-- ===== src/Core/Log/Ring.antt =====
-- What the buffer keeps and what the subscribers get, as functions of all that was pushed.
use mathlib.Core.List.{append_assoc, append-nil}
use reinhardt_cloud.Base.{
  ℕ, ◌+◌, ◌-◌, ◌≤◌, ltb, List, [], ◌∷◌, ◌++◌, length, drop, filter, ◌≡◌, refl, ap, sym, subst, ◌∙◌,
  arith, map, drop-append, drop-drop, length-append, length-drop, if_intro,
}
use reinhardt_cloud.Types.Log.{LogEntry, LogFilter}
use reinhardt_cloud.Core.Log.Defs.{
  LogBuffer, empty_buffer, push_entry, push, matches_filter, query, tail_logs, entry,
}

-- the last elements, `c` of them at most
abbrev pub newest {ℓ} : {A : Type ℓ} → ℕ → List A → List A
newest c xs = drop (length xs - c) xs

module _ {ℓ} {A : Type ℓ} where
  newest-append : (c : ℕ) (xs ys : List A) → newest c (newest c xs ++ ys) ≡ newest c (xs ++ ys)
  newest-append c xs ys =
      let over = length xs - c in
      let again : drop over xs ++ ys ≡ drop over (xs ++ ys) =
        sym (drop-append over xs ys (omega arith)) in
      let so_far : length (drop over (xs ++ ys)) ≡ length xs + length ys - over =
        length-drop over (xs ++ ys) ∙ ap (λ n. n - over) (length-append xs ys) in
      let count : over + (length (drop over (xs ++ ys)) - c) ≡ length (xs ++ ys) - c =
        omega (arith, so_far, length-append xs ys) in
      ap (newest c) again
      ∙ drop-drop (length (drop over (xs ++ ys)) - c) over (xs ++ ys)
      ∙ ap (λ n. drop n (xs ++ ys)) count

  length-newest : (c : ℕ) (xs : List A) → length (newest c xs) ≤ c
  length-newest c xs = omega (arith, length-drop (length xs - c) xs)

  -- all batches in one list
  abbrev pub joined : List (List A) → List A
  joined [] = []
  joined (b ∷ bs) = b ++ joined bs

module _ {Json : Type 0} where
  abbrev pub push_all : LogBuffer Json → List (List (LogEntry Json)) → LogBuffer Json
  push_all buf [] = buf
  push_all buf (b ∷ bs) = push_all (push buf b) bs

  push_entry-entries :
      (buf : LogBuffer Json) (e : LogEntry Json)
      → length buf.entries ≤ buf.capacity
      → (push_entry buf e).entries ≡ newest buf.capacity (buf.entries ++ (e ∷ []))
  unfolding push_entry
  push_entry-entries buf e h =
      let longer = length-append buf.entries (e ∷ []) in
      let whole = buf.entries ++ (e ∷ []) in
      if_intro (λ kept. kept ≡ newest buf.capacity whole) (ltb buf.capacity (length whole))
        (λ over.
          let first : 1 ≡ length whole - buf.capacity = ground (arith, longer) in
          ap (λ n. drop n whole) first)
        (λ fits.
          let nothing : 0 ≡ length whole - buf.capacity = ground (arith, longer) in
          ap (λ n. drop n whole) nothing)

  length-push_entry :
      (buf : LogBuffer Json) (e : LogEntry Json)
      → length buf.entries ≤ buf.capacity
      → length (push_entry buf e).entries ≤ buf.capacity
  length-push_entry buf e h =
      subst (λ xs. length xs ≤ buf.capacity) (sym (push_entry-entries buf e h))
        (length-newest buf.capacity (buf.entries ++ (e ∷ [])))

  -- a push keeps the newest entries, and sends all of them
  pub push_lem :
      (buf : LogBuffer Json) (es : List (LogEntry Json))
      → length buf.entries ≤ buf.capacity
      → ((push buf es).entries ≡ newest buf.capacity (buf.entries ++ es))
        × ((push buf es).capacity ≡ buf.capacity)
        × ((push buf es).broadcast ≡ buf.broadcast ++ es)
  unfolding push push_entry
  push_lem buf [] h =
      let nothing : 0 ≡ length buf.entries - buf.capacity = omega arith in
      (
        ap (λ n. drop n buf.entries) nothing
            ∙ ap (newest buf.capacity) (sym (append-nil buf.entries)),
        refl,
        sym (append-nil buf.broadcast),
      )
  push_lem buf (e ∷ es) h =
      let one = push_entry-entries buf e h in
      let (kept, same, sent) = push_lem (push_entry buf e) es (length-push_entry buf e h) in
      (
        kept
            ∙ ap (λ xs. newest buf.capacity (xs ++ es)) one
            ∙ newest-append buf.capacity (buf.entries ++ (e ∷ [])) es
            ∙ ap (newest buf.capacity) (append_assoc buf.entries (e ∷ []) es),
        same,
        sent ∙ append_assoc buf.broadcast (e ∷ []) es,
      )

  push-append :
      (buf : LogBuffer Json) (xs ys : List (LogEntry Json))
      → push (push buf xs) ys ≡ push buf (xs ++ ys)
  unfolding push
  push-append buf [] ys = refl
  push-append buf (x ∷ xs) ys = push-append (push_entry buf x) xs ys

  push-joined :
      (buf : LogBuffer Json) (bs : List (List (LogEntry Json)))
      → push_all buf bs ≡ push buf (joined bs)
  unfolding push
  push-joined buf [] = refl
  push-joined buf (b ∷ bs) = push-joined (push buf b) bs ∙ push-append buf b (joined bs)

  tail_logs-heard :
      (f : LogFilter) (es : List (LogEntry Json))
      → tail_logs f (map entry es) ≡ filter (λ e. matches_filter e f) es
  unfolding tail_logs
  tail_logs-heard f [] = refl
  tail_logs-heard f (e ∷ es) = ground (arith, tail_logs-heard f es)

  -- After any batches are pushed to a new buffer, a query returns the entries that match among the
  -- newest `capacity` of all that were pushed, in their order, and a subscriber that was there from
  -- the start and lost nothing got all that match.
  pub query-push_all :
      (capacity : ℕ) (bs : List (List (LogEntry Json))) (f : LogFilter)
      → (query (push_all (empty_buffer capacity) bs) f
          ≡ filter (λ e. matches_filter e f) (newest capacity (joined bs)))
        × (tail_logs f (map entry (push_all (empty_buffer capacity) bs).broadcast)
            ≡ filter (λ e. matches_filter e f) (joined bs))
  unfolding query
  query-push_all capacity bs f =
      let all = push-joined (empty_buffer capacity) bs in
      let (kept, same, sent) = push_lem (empty_buffer capacity) (joined bs) (omega arith) in
      (
        ap (filter (λ e. matches_filter e f)) (ap (λ buf. buf.entries) all ∙ kept),
        ap (λ es. tail_logs f (map entry es)) (ap (λ buf. buf.broadcast) all ∙ sent)
            ∙ tail_logs-heard f (joined bs),
      )
