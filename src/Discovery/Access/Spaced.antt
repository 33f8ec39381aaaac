-- ===== src/Discovery/Access/Spaced.antt =====
-- How often the API server is asked, how often a denial is reported, and which answer is given.
use wavefront_collector_for.Prelude.{
  ℕ, ◌+◌, ◌≤◌, ◌<◌, ◌≡◌, refl, List, [], ◌∷◌, Option, none, some, Bool, true, false, ltb, or_else,
  arith, Bool-cases, All, inl, inr, sym,
}
use wavefront_collector_for.Discovery.Access.{
  Entry, asked, reported, AuthChecker, Moment, new_auth_checker, time_sub, time_to_refresh,
  can_list_secrets_api, report_access, refresh_access, can_list_secrets, can_list_secrets_each,
}

-- when the API server was asked last
unfoldable pub last_asked : List Entry → Option ℕ
last_asked [] = none
last_asked (asked t b ∷ log) = some t
last_asked (reported t ∷ log) = last_asked log

-- what it answered last
unfoldable pub last_answer : List Entry → Bool
last_answer [] = false
last_answer (asked t b ∷ log) = b
last_answer (reported t ∷ log) = last_answer log

-- the last report since access was last granted
unfoldable pub last_report : List Entry → Option ℕ
last_report [] = none
last_report (asked t true ∷ log) = none
last_report (asked t false ∷ log) = last_report log
last_report (reported t ∷ log) = some t

abbrev pub Later : ℕ → Option ℕ → ℕ → Type 0
Later gap none t = Unit {0}
Later gap (some before) t = before + gap ≤ t

-- every request comes more than `refresh` after the one before it, and every report at least `report`
-- after the one before it, unless access was granted in between
abbrev pub Spaced : ℕ → ℕ → List Entry → Type 0
Spaced refresh report [] = Unit {0}
Spaced refresh report (asked t b ∷ log) =
    Later (refresh + 1) (last_asked log) t × Spaced refresh report log
Spaced refresh report (reported t ∷ log) =
    Later report (last_report log) t × Spaced refresh report log

-- one call reads the clock four times, which does not go back
pub record InOrder (m : Moment) : Type 0 where
  pub checked_later : m.now_refresh ≤ m.now_checked
  pub reported_later : m.now_report ≤ m.now_reported

pub record Kept (refresh report : ℕ) (c : AuthChecker) : Type 0 where
  pub refresh_same : c.refresh_interval ≡ refresh
  pub report_same : c.report_interval ≡ report
  pub checked : or_else (last_asked c.log) 0 ≡ c.last_checked
  pub answered : last_answer c.log ≡ c.has_access
  pub said : or_else (last_report c.log) 0 ≡ c.last_reported
  pub spaced : Spaced refresh report c.log

Later-at :
    (gap t : ℕ) (o : Option ℕ) (last : ℕ) → or_else o 0 ≡ last → last + gap ≤ t → Later gap o t
Later-at gap t none last e h = tt
Later-at gap t (some before) last e h = omega (arith, e, h)

time_sub-lt : (gap t u : ℕ) → ltb gap (time_sub t u) ≡ true → u + (gap + 1) ≤ t
unfolding time_sub
time_sub-lt gap t u h = ground (arith, h)

time_sub-le : (gap t u : ℕ) → 0 < gap → ltb (time_sub t u) gap ≡ false → u + gap ≤ t
unfolding time_sub
time_sub-le gap t u p h = ground (arith, h, p)

module _ (refresh report : ℕ) (positive : 0 < report) (m : Moment) (order : InOrder m) where
  -- the checker between the answer and its report
  abbrev answered_with : Bool → AuthChecker → AuthChecker
  answered_with b c = record c {
    last_checked = m.now_checked;
    has_access = b;
    log = asked m.now_checked b ∷ c.log;
  }

  Later-asked :
      (c : AuthChecker)
      → Kept refresh report c
      → time_to_refresh m c ≡ true
      → Later (refresh + 1) (last_asked c.log) m.now_checked
  unfolding time_to_refresh
  Later-asked c k h =
      let gap = time_sub-lt c.refresh_interval m.now_refresh c.last_checked h in
      Later-at (refresh + 1) m.now_checked (last_asked c.log) c.last_checked k.checked
        (omega (arith, gap, order.checked_later, k.refresh_same))

  Kept-granted :
      (c : AuthChecker)
      → Kept refresh report c
      → time_to_refresh m c ≡ true
      → Kept refresh report (report_access m (answered_with true c))
  unfolding report_access last_asked last_answer last_report
  Kept-granted c k h = record {
    refresh_same = k.refresh_same;
    report_same = k.report_same;
    checked = refl;
    answered = refl;
    said = refl;
    spaced = (Later-asked c k h, k.spaced);
  }

  Kept-quiet :
      (c : AuthChecker)
      → Kept refresh report c
      → time_to_refresh m c ≡ true
      → Kept refresh report (answered_with false c)
  unfolding last_asked last_answer last_report
  Kept-quiet c k h = record {
    refresh_same = k.refresh_same;
    report_same = k.report_same;
    checked = refl;
    answered = refl;
    said = k.said;
    spaced = (Later-asked c k h, k.spaced);
  }

  Kept-said :
      (c : AuthChecker)
      → Kept refresh report c
      → ltb (time_sub m.now_report c.last_reported) c.report_interval ≡ false
      → Kept refresh report
          (record c { last_reported = m.now_reported; log = reported m.now_reported ∷ c.log })
  unfolding last_asked last_answer last_report
  Kept-said c k h =
      let gap =
        time_sub-le c.report_interval m.now_report c.last_reported
          (omega (arith, positive, k.report_same)) h in
      record {
        refresh_same = k.refresh_same;
        report_same = k.report_same;
        checked = k.checked;
        answered = k.answered;
        said = refl;
        spaced = (
          Later-at report m.now_reported (last_report c.log) c.last_reported k.said
              (omega (arith, gap, order.reported_later, k.report_same)),
          k.spaced,
        );
      }

  Kept-denied :
      (c : AuthChecker)
      → Kept refresh report c
      → time_to_refresh m c ≡ true
      → Kept refresh report (report_access m (answered_with false c))
  unfolding report_access
  Kept-denied c k h =
      elim (Bool-cases (ltb (time_sub m.now_report c.last_reported) c.report_interval)) [
        | inl soon ↦ rw soon (Kept-quiet c k h)
        | inr due ↦ rw due (Kept-said (answered_with false c) (Kept-quiet c k h) due)
      ]

  Kept-refresh_access :
      (c : AuthChecker) → Kept refresh report c → Kept refresh report (refresh_access m c)
  unfolding refresh_access
  Kept-refresh_access c k = elim (Bool-cases (time_to_refresh m c)) [
    | inl due ↦ elim (Bool-cases (can_list_secrets_api m)) [
      | inl granted ↦ rw (due, granted) (Kept-granted c k due)
      | inr denied ↦ rw (due, denied) (Kept-denied c k due)
    ]
    | inr early ↦ rw early k
  ]

Kept-can_list_secrets_each :
    (refresh report : ℕ) (moments : List Moment) (c : AuthChecker)
    → 0 < report
    → All InOrder moments
    → Kept refresh report c
    → Kept refresh report (can_list_secrets_each moments c)
unfolding can_list_secrets_each can_list_secrets
Kept-can_list_secrets_each refresh report [] c p o k = k
Kept-can_list_secrets_each refresh report (m ∷ moments) c p o k =
    Kept-can_list_secrets_each refresh report moments (refresh_access m c) p o.1
      (Kept-refresh_access refresh report p m o.0 c k)

Kept-new_auth_checker : (refresh report : ℕ) → Kept refresh report (new_auth_checker refresh report)
unfolding new_auth_checker last_asked last_answer last_report
Kept-new_auth_checker refresh report = record {
  refresh_same = refl;
  report_same = refl;
  checked = refl;
  answered = refl;
  said = refl;
  spaced = tt;
}

-- However often a new checker is asked, with a positive report interval and a clock that does not go
-- back within one call: it asks the API server only more than the refresh interval after it asked
-- last, and reports a denial only when the report interval has passed since the last report or access
-- was granted in between. What it answers each time is what the API server said last, an error being
-- a denial, and a denial where it was never asked.
pub Spaced-can_list_secrets :
    (refresh report : ℕ) (moments : List Moment) (m : Moment)
    → 0 < report
    → All InOrder moments
    → InOrder m
    → let c = can_list_secrets_each moments (new_auth_checker refresh report) in
      Spaced refresh report (can_list_secrets m c).1.log
      × ((can_list_secrets m c).0 ≡ last_answer (can_list_secrets m c).1.log)
unfolding can_list_secrets
Spaced-can_list_secrets refresh report moments m p o order =
    let start = Kept-new_auth_checker refresh report in
    let before = Kept-can_list_secrets_each refresh report moments _ p o start in
    let k = Kept-refresh_access refresh report p m order _ before in (k.spaced, sym k.answered)
