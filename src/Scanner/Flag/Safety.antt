-- ===== src/Scanner/Flag/Safety.antt =====
-- scanner.go: two scans never run at once, and the flag is never left set.
use gonic.Base.{
  ℕ, ◌≡◌, ◌≢◌, refl, sym, ap, ◌∙◌, ◌⊎◌, inl, inr, Bool, true, false, ◌==◌, arith, Bool-cases,
}
use gonic.Scanner.Flag.{
  Stand, out, scanning, refused, Threads, start_scanning, stop_scanning, stand_after, update, Step,
  ask, leave, Reach, here, next,
}

-- The flag is set exactly while a thread scans, and only one does.
pub record Inv (s : Threads) : Type 0 where
  pub only : (i j : ℕ) → s.stands i ≡ scanning → s.stands j ≡ scanning → i ≡ j
  pub held : (i : ℕ) → s.stands i ≡ scanning → s.flag ≡ true
  pub running : s.flag ≡ true → (i : ℕ) × (s.stands i ≡ scanning)

update-here : (i : ℕ) (a : Stand) (f : ℕ → Stand) → update i a f i ≡ a
update-here i a f = ground arith

update-cases :
    (i j : ℕ) (a b : Stand) (f : ℕ → Stand)
    → update i a f j ≡ b
    → ((i ≡ j) × (a ≡ b)) ⊎ ((i ≢ j) × (f j ≡ b))
update-cases i j a b f h = elim (Bool-cases (i == j)) [
  | inl e ↦ inl (ground arith, rw e at h)
  | inr e ↦ inr (λ q. ground arith, rw e at h)
]

update-other : (i j : ℕ) (a : Stand) (f : ℕ → Stand) → i ≢ j → update i a f j ≡ f j
update-other i j a f n = ground arith

-- A thread that scans beside one that does not is another one, and scanned before.
scans-before :
    (i j : ℕ) (a : Stand) (f : ℕ → Stand)
    → a ≢ scanning
    → update i a f j ≡ scanning
    → (i ≢ j) × (f j ≡ scanning)
scans-before i j a f n h = elim (update-cases i j a scanning f h) [
  | inl (_, e) ↦ absurd (n e)
  | inr r ↦ r
]

-- Asking while the flag is set changes nothing but the stand of the one who asks.
ask_set-Inv :
    (s : Threads) (i : ℕ)
    → s.flag ≡ true
    → s.stands i ≢ scanning
    → Inv s
    → Inv (record { flag = true; stands = update i refused s.stands })
ask_set-Inv s i set n v = record {
  only = λ j k e f. v.only j k (before j e).1 (before k f).1;
  held = λ j e. refl;
  running = λ _.
      let (j, e) = v.running set in
      (j, update-other i j refused s.stands (λ q. n (ap s.stands q ∙ e)) ∙ e);
}
  where
    before : (j : ℕ) → update i refused s.stands j ≡ scanning → (i ≢ j) × (s.stands j ≡ scanning)
    before j e = scans-before i j refused s.stands (λ q. cc q) e

ask_clear-Inv :
    (s : Threads) (i : ℕ)
    → s.flag ≡ false
    → Inv s
    → Inv (record { flag = true; stands = update i scanning s.stands })
ask_clear-Inv s i clear v = record {
  only = λ j k e f. sym (is_new j e) ∙ is_new k f;
  held = λ j e. refl;
  running = λ _. (i, update-here i scanning s.stands);
}
  where
    none_before : (j : ℕ) → s.stands j ≢ scanning
    none_before j e = (let q : true ≡ false = sym (v.held j e) ∙ clear in cc q)

    is_new : (j : ℕ) → update i scanning s.stands j ≡ scanning → i ≡ j
    is_new j e = elim (update-cases i j scanning scanning s.stands e) [
      | inl (q, _) ↦ q
      | inr (_, f) ↦ absurd (none_before j f)
    ]

leave-Inv :
    (s : Threads) (i : ℕ)
    → s.stands i ≡ scanning
    → Inv s
    → Inv (record { flag = false; stands = update i out s.stands })
leave-Inv s i e v = record {
  only = λ j k f g. absurd (none j f);
  held = λ j f. absurd (none j f);
  running = λ f. cc f;
}
  where
    none : (j : ℕ) → update i out s.stands j ≢ scanning
    none j f = let (n, g) = scans-before i j out s.stands (λ q. cc q) f in n (v.only i j e g)

ask-Inv :
    (s : Threads) (i : ℕ) (b : Bool)
    → s.flag ≡ b
    → s.stands i ≢ scanning
    → Inv s
    → Inv (record {
      flag = (start_scanning b).1;
      stands = update i (stand_after (start_scanning b).0) s.stands;
    })
unfolding start_scanning
ask-Inv s i true f n v = ask_set-Inv s i f n v
ask-Inv s i false f n v = ask_clear-Inv s i f v

Step-Inv : {s t : Threads} → Step s t → Inv s → Inv t
unfolding stop_scanning
Step-Inv {s} (ask i n) v = ask-Inv s i s.flag refl n v
Step-Inv {s} (leave i e) v = leave-Inv s i e v

Reach-Inv : {s : Threads} → Reach s → Inv s
Reach-Inv here = record { only = λ i j e f. cc e; held = λ i e. cc e; running = λ e. cc e }
Reach-Inv (next r st) = Step-Inv st (Reach-Inv r)

-- However the threads are interleaved, two of them are never in a scan at once; and a thread that asks
-- is sent away only while one is in a scan: if none is, the flag is clear, the one who asks next gets
-- its scan, and once it leaves the flag is clear again.
pub exclusive :
    (s : Threads)
    → Reach s
    → ((i j : ℕ) → s.stands i ≡ scanning → s.stands j ≡ scanning → i ≡ j)
      × (((i : ℕ) → s.stands i ≢ scanning)
          → (start_scanning s.flag ≡ (true, true))
            × (stop_scanning (start_scanning s.flag).1 ≡ false))
      × ((i : ℕ) → s.stands i ≡ scanning → start_scanning s.flag ≡ (false, true))
unfolding start_scanning stop_scanning
exclusive s r = (v.only, λ n. (rw (clear n) refl, refl), λ i e. rw (v.held i e) refl)
  where
    v : Inv s
    v = Reach-Inv r

    clear : ((i : ℕ) → s.stands i ≢ scanning) → s.flag ≡ false
    clear n = elim (Bool-cases s.flag) [
      | inl e ↦ (let (i, f) = v.running e in absurd (n i f))
      | inr e ↦ e
    ]
