-- ===== src/Scanner/Watch/Armed.antt =====
-- scanner.go: when what the watcher reports is scanned, and when it is not.
use gonic.Base.{
  ◌≡◌, ◌⊎◌, refl, inl, inr, Bool, true, false, not, ◌||◌, List, [], ◌∷◌, ◌++◌, Option, none, some,
  Str, str_eq, str_eq_refl, any, All, arith, if◌then◌else◌, Bool-cases,
}
use gonic.FilePath.{dir}
use gonic.Scanner.Watch.{
  Watch, Event, fired, notified, failed, Request, scan_and_clean, scan_folders, put_path, on_timer,
  on_stat, watch_step, requests, watch,
}

-- Another scan does not run when the timer fires.
abbrev pub is_idle : Event → Bool
is_idle (fired busy) = not busy
is_idle e = true

abbrev pub is_removal : Event → Bool
is_removal (notified removed written path d) = removed
is_removal e = false

-- A request scans a folder: that for a scan with the clean up scans every one.
abbrev pub covers : Str → Request → Bool
covers folder scan_and_clean = true
covers folder (scan_folders folders) = any (str_eq folder) folders

abbrev pub is_clean_up : Request → Bool
is_clean_up scan_and_clean = true
is_clean_up (scan_folders folders) = false

-- A folder waits for the timer, and so does a clean up.
abbrev pub Waits : Str → Watch → Type 0
Waits folder st = (any (str_eq folder) st.seen ≡ true) × (st.armed ≡ true)

abbrev pub CleanUpWaits : Watch → Type 0
CleanUpWaits st = (st.clean ≡ true) × (st.armed ≡ true)

put_path-old :
    (p q : Str) (seen : List Str)
    → any (str_eq q) seen ≡ true
    → any (str_eq q) (put_path p seen) ≡ true
put_path-old p q seen h = elim (Bool-cases (any (str_eq p) seen)) [
  | inl e ↦ rw e h
  | inr e ↦ rw e (ground arith)
]

put_path-new : (p : Str) (seen : List Str) → any (str_eq p) (put_path p seen) ≡ true
put_path-new p seen = elim (Bool-cases (any (str_eq p) seen)) [
  | inl e ↦ rw e e
  | inr e ↦ rw (e, str_eq_refl p) refl
]

on_timer-Waits :
    (folder : Str) (clean : Bool) (st : Watch)
    → any (str_eq folder) st.seen ≡ true
    → any (covers folder) (requests (on_timer clean false st).1 []) ≡ true
on_timer-Waits folder true st h = refl
on_timer-Waits folder false st h = rw h refl

watch_step-Waits :
    (folder : Str) (e : Event) (st : Watch)
    → is_idle e ≡ true
    → Waits folder st
    → Waits folder (watch_step e st).0
      ⊎ (any (covers folder) (requests (watch_step e st).1 []) ≡ true)
unfolding watch_step
watch_step-Waits folder (fired true) st i w = cc i
watch_step-Waits folder (fired false) st i w = inr (on_timer-Waits folder st.clean st w.0)
watch_step-Waits folder (notified true written path d) st i w = inl (w.0, refl)
watch_step-Waits folder (notified false true path none) st i w = inl w
watch_step-Waits folder (notified false true path (some d)) st i w =
    inl (put_path-old (if d then path else dir path) folder st.seen w.0, refl)
watch_step-Waits folder (notified false false path d) st i w = inl w
watch_step-Waits folder failed st i w = inl w

on_timer-CleanUpWaits :
    (clean : Bool) (st : Watch)
    → clean ≡ true
    → any is_clean_up (requests (on_timer clean false st).1 []) ≡ true
on_timer-CleanUpWaits true st h = refl
on_timer-CleanUpWaits false st h = cc h

on_stat-CleanUpWaits :
    (path : Str) (o : Option Bool) (st : Watch) → CleanUpWaits st → CleanUpWaits (on_stat path o st)
on_stat-CleanUpWaits path none st w = w
on_stat-CleanUpWaits path (some d) st w = (w.0, refl)

watch_step-CleanUpWaits :
    (e : Event) (st : Watch)
    → is_idle e ≡ true
    → CleanUpWaits st
    → CleanUpWaits (watch_step e st).0 ⊎ (any is_clean_up (requests (watch_step e st).1 []) ≡ true)
unfolding watch_step
watch_step-CleanUpWaits (fired true) st i w = cc i
watch_step-CleanUpWaits (fired false) st i w = inr (on_timer-CleanUpWaits st.clean st w.0)
watch_step-CleanUpWaits (notified true written path d) st i w = inl (refl, refl)
watch_step-CleanUpWaits (notified false true path d) st i w = inl (on_stat-CleanUpWaits path d st w)
watch_step-CleanUpWaits (notified false false path d) st i w = inl w
watch_step-CleanUpWaits failed st i w = inl w

any-requests :
    (q : Request → Bool) (o : Option Request) (rs : List Request)
    → any q (requests o rs) ≡ (any q (requests o []) || any q rs)
any-requests q none rs = refl
any-requests q (some r) rs = ground arith

-- What waits until it is asked for.
module _ (W : Watch → Type 0) (q : Request → Bool)
    (step : (e : Event) (st : Watch)
      → is_idle e ≡ true
      → W st
      → W (watch_step e st).0 ⊎ (any q (requests (watch_step e st).1 []) ≡ true))
    (fire : (st : Watch) → W st → any q (requests (watch_step (fired false) st).1 []) ≡ true) where
  asked-or_waits :
      (es : List Event) (st : Watch)
      → All (λ e. is_idle e ≡ true) es
      → W st
      → (any q (watch es st).1 ≡ true) ⊎ W (watch es st).0
  unfolding watch
  asked-or_waits [] st h w = inr w
  asked-or_waits (e ∷ es) st (i, h) w =
      let split = any-requests q (watch_step e st).1 (watch es (watch_step e st).0).1 in
      elim (step e st i w) [
        | inr a ↦ inl (rw (split, a) refl)
        | inl v ↦ elim (asked-or_waits es (watch_step e st).0 h v) [
          | inl a ↦ inl (rw (split, a) (ground arith))
          | inr u ↦ inr u
        ]
      ]

  asked-when_fired :
      (es : List Event) (st : Watch)
      → All (λ e. is_idle e ≡ true) es
      → W st
      → any q (watch (es ++ fired false ∷ []) st).1 ≡ true
  unfolding watch
  asked-when_fired [] st h w = fire st w
  asked-when_fired (e ∷ es) st (i, h) w =
      let st1 = (watch_step e st).0 in
      let split = any-requests q (watch_step e st).1 (watch (es ++ fired false ∷ []) st1).1 in
      elim (step e st i w) [
        | inr a ↦ rw (split, a) refl
        | inl v ↦ rw (split, asked-when_fired es st1 h v) (ground arith)
      ]

-- However the watcher stands: when it reports a path as created or written that os.Stat finds, and no
-- other scan runs whenever the timer fires afterwards, then a scan of the folder (of the path itself if
-- it is one, else of the one above it) is asked for, or the folder waits and the timer runs; and by the
-- next time the timer fires it has been asked for. When it reports a removal, the same is true of a
-- clean up.
pub watch-asks :
    (st : Watch) (path : Str) (is_dir written : Bool) (stat : Option Bool) (es : List Event)
    → All (λ e. is_idle e ≡ true) es
    → let folder = if is_dir then path else dir path in
      let writing = notified false true path (some is_dir) in
      let removal = notified true written path stat in
      ((any (covers folder) (watch (writing ∷ es) st).1 ≡ true)
        ⊎ Waits folder (watch (writing ∷ es) st).0)
      × (any (covers folder) (watch (writing ∷ es ++ fired false ∷ []) st).1 ≡ true)
      × ((any is_clean_up (watch (removal ∷ es) st).1 ≡ true)
          ⊎ CleanUpWaits (watch (removal ∷ es) st).0)
      × (any is_clean_up (watch (removal ∷ es ++ fired false ∷ []) st).1 ≡ true)
unfolding watch watch_step
watch-asks st path is_dir written stat es h =
    let folder = if is_dir then path else dir path in
    let fire : (s : Watch) → Waits folder s → _ = λ s w. on_timer-Waits folder s.clean s w.0 in
    let fire' : (s : Watch) → CleanUpWaits s → _ = λ s w. on_timer-CleanUpWaits s.clean s w.0 in
    let w : Waits folder (on_stat path (some is_dir) st) = (put_path-new folder st.seen, refl) in
    (
      asked-or_waits (Waits folder) (covers folder) (watch_step-Waits folder) fire es _ h w,
      asked-when_fired (Waits folder) (covers folder) (watch_step-Waits folder) fire es _ h w,
      asked-or_waits CleanUpWaits is_clean_up watch_step-CleanUpWaits fire' es _ h (refl, refl),
      asked-when_fired CleanUpWaits is_clean_up watch_step-CleanUpWaits fire' es _ h (refl, refl),
    )

on_timer-no_clean_up :
    (clean busy : Bool) (st : Watch)
    → st.clean ≡ clean
    → (clean ≡ false) ⊎ (busy ≡ true)
    → (any is_clean_up (requests (on_timer clean busy st).1 []) ≡ false)
      × ((on_timer clean busy st).0.clean ≡ false)
on_timer-no_clean_up true true st e h = (refl, refl)
on_timer-no_clean_up true false st e (inl h) = cc h
on_timer-no_clean_up true false st e (inr h) = cc h
on_timer-no_clean_up false true st e h = (refl, e)
on_timer-no_clean_up false false st e h = (refl, e)

watch_step-no_clean_up :
    (e : Event) (st : Watch)
    → is_removal e ≡ false
    → st.clean ≡ false
    → (any is_clean_up (requests (watch_step e st).1 []) ≡ false)
      × ((watch_step e st).0.clean ≡ false)
unfolding watch_step
watch_step-no_clean_up (fired busy) st i c = on_timer-no_clean_up st.clean busy st refl (inl c)
watch_step-no_clean_up (notified true written path d) st i c = cc i
watch_step-no_clean_up (notified false true path none) st i c = (refl, c)
watch_step-no_clean_up (notified false true path (some d)) st i c = (refl, c)
watch_step-no_clean_up (notified false false path d) st i c = (refl, c)
watch_step-no_clean_up failed st i c = (refl, c)

watch-no_clean_up :
    (es : List Event) (st : Watch)
    → All (λ e. is_removal e ≡ false) es
    → st.clean ≡ false
    → (any is_clean_up (watch es st).1 ≡ false) × ((watch es st).0.clean ≡ false)
unfolding watch
watch-no_clean_up [] st h c = (refl, c)
watch-no_clean_up (e ∷ es) st (i, h) c =
    let (a, k) = watch_step-no_clean_up e st i c in
    let (b, l) = watch-no_clean_up es (watch_step e st).0 h k in
    (
      rw (any-requests is_clean_up (watch_step e st).1 (watch es (watch_step e st).0).1, a, b) refl,
      l,
    )

-- If another scan runs when the timer fires, a clean up that was due is lost: whatever happens later,
-- firings with and without another scan among it, as long as no other removal is reported, no clean up
-- is asked for, and none is due.
pub fired-busy :
    (st : Watch) (es : List Event)
    → All (λ e. is_removal e ≡ false) es
    → (any is_clean_up (watch (fired true ∷ es) st).1 ≡ false)
      × ((watch (fired true ∷ es) st).0.clean ≡ false)
unfolding watch watch_step
fired-busy st es h =
    let (a, k) = on_timer-no_clean_up st.clean true st refl (inr refl) in
    let u = (on_timer st.clean true st).0 in
    let (b, l) = watch-no_clean_up es u h k in
    (rw (any-requests is_clean_up (on_timer st.clean true st).1 (watch es u).1, a, b) refl, l)
