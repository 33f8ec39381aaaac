-- ===== src/Discovery/Access.antt =====
-- plugins/discovery/auth_checker.go: whether the collector may list secrets, asked of the API server
-- now and then. A time is the nanoseconds since the zero time, and one operation may read the clock
-- several times. A Duration stops at its maximum, as Time.Sub has it. The log keeps, newest first,
-- the answers of the API server and the reports.
pub mod Spaced
use wavefront_collector_for.Prelude.{
  ℕ, ◌-◌, ◌^◌, List, [], ◌∷◌, Option, none, some, Bool, true, false, not, ltb, or_else,
  if◌then◌else◌,
}

pub data Entry : Type 0 where
  -- asked at a time, with hasAccess afterwards
  asked : ℕ → Bool → Entry
  reported : ℕ → Entry

pub record AuthChecker : Type 0 where
  pub has_access : Bool
  pub refresh_interval : ℕ
  pub report_interval : ℕ
  pub last_checked : ℕ
  pub last_reported : ℕ
  pub log : List Entry

-- what one call meets: the four readings of the clock, and the API server's answer, `none` on an error
pub record Moment : Type 0 where
  pub now_refresh : ℕ
  pub now_checked : ℕ
  pub now_report : ℕ
  pub now_reported : ℕ
  pub allowed : Option Bool

unfoldable pub new_auth_checker : ℕ → ℕ → AuthChecker
new_auth_checker refresh report = record {
  has_access = false;
  refresh_interval = refresh;
  report_interval = report;
  last_checked = 0;
  last_reported = 0;
  log = [];
}

-- t.Sub(u), for t not before u
unfoldable pub time_sub : ℕ → ℕ → ℕ
time_sub t u = if ltb (2 ^ 63 - 1) (t - u) then 2 ^ 63 - 1 else t - u

unfoldable pub time_to_refresh : Moment → AuthChecker → Bool
unfolding time_sub
time_to_refresh m c = ltb c.refresh_interval (time_sub m.now_refresh c.last_checked)

unfoldable pub can_list_secrets_api : Moment → Bool
can_list_secrets_api m = or_else m.allowed false

unfoldable pub report_access : Moment → AuthChecker → AuthChecker
unfolding time_sub
report_access m c =
    if c.has_access
    then record c { last_reported = 0 }
    else if ltb (time_sub m.now_report c.last_reported) c.report_interval
    then c
    else record c { last_reported = m.now_reported; log = reported m.now_reported ∷ c.log }

unfoldable pub refresh_access : Moment → AuthChecker → AuthChecker
unfolding time_to_refresh can_list_secrets_api
refresh_access m c =
    if not (time_to_refresh m c)
    then c
    else report_access m (record c {
      last_checked = m.now_checked;
      has_access = can_list_secrets_api m;
      log = asked m.now_checked (can_list_secrets_api m) ∷ c.log;
    })

-- the answer, and the checker afterwards
unfoldable pub can_list_secrets : Moment → AuthChecker → Bool × AuthChecker
can_list_secrets m c = let d = refresh_access m c in (d.has_access, d)

unfoldable pub can_list_secrets_each : List Moment → AuthChecker → AuthChecker
unfolding can_list_secrets
can_list_secrets_each [] c = c
can_list_secrets_each (m ∷ moments) c = can_list_secrets_each moments (can_list_secrets m c).1
