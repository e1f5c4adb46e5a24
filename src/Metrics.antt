-- ===== src/Metrics.antt =====
-- src/metrics.rs: the counters of the admin dashboard, seeded from the totals of src/db/stats.rs and
-- flushed to them. Time is in seconds.
use saros.Base.{
  ℕ, ◌+◌, ◌-◌, ◌%◌, ◌^◌, ◌≡◌, ◌≤◌, refl, ◌∙◌, Bool, true, false, if◌then◌else◌, List, [], ◌∷◌,
  tally, ok,
}
use saros.Db.Table.{Table, IsRelational}
use saros.Db.Stats.{MetricTotals, TotalsRow, is_totals, load_totals, save_totals}
use saros.Db.Stats.Totals.{load_totals-save_totals}

pub data Counter : Type 0 where
  of_downloads of_uploads of_submissions of_reviews of_sign_ins : Counter

abbrev pub is_same : Counter → Counter → Bool
is_same of_downloads of_downloads = true
is_same of_uploads of_uploads = true
is_same of_submissions of_submissions = true
is_same of_reviews of_reviews = true
is_same of_sign_ins of_sign_ins = true
is_same _ _ = false

-- Counter::iter
abbrev pub iter : List Counter
iter = of_downloads ∷ of_uploads ∷ of_submissions ∷ of_reviews ∷ of_sign_ins ∷ []

pub record Metrics : Type 0 where
  pub start : ℕ
  pub counters : Counter → ℕ
  pub mirror_configured : Bool

pub record Snapshot : Type 0 where
  pub uptime_seconds : ℕ
  pub totals : MetricTotals
  pub mirror_configured : Bool

-- Metrics::new
abbrev pub new : ℕ → Bool → Metrics
new now mirror = record { start = now; counters = λ c. 0; mirror_configured = mirror }

abbrev pub store : Counter → ℕ → Metrics → Metrics
store c n m = record m { counters = λ d. if is_same c d then n else m.counters d }

-- Metrics::inc
unfoldable pub inc : Counter → Metrics → Metrics
inc c m = store c ((m.counters c + 1) % 2 ^ 64) m

-- field
abbrev pub field : MetricTotals → Counter → ℕ
field t of_downloads = t.downloads
field t of_uploads = t.uploads
field t of_submissions = t.submissions
field t of_reviews = t.reviews
field t of_sign_ins = t.sign_ins

abbrev pub seed_each : MetricTotals → List Counter → Metrics → Metrics
seed_each t [] m = m
seed_each t (c ∷ cs) m = seed_each t cs (store c (field t c) m)

-- Metrics::seed
unfoldable pub seed : MetricTotals → Metrics → Metrics
seed t m = seed_each t iter m

-- Metrics::totals
unfoldable pub totals : Metrics → MetricTotals
totals m = record {
  downloads = m.counters of_downloads;
  uploads = m.counters of_uploads;
  submissions = m.counters of_submissions;
  reviews = m.counters of_reviews;
  sign_ins = m.counters of_sign_ins;
}

-- Metrics::snapshot
unfoldable pub snapshot : ℕ → Metrics → Snapshot
snapshot now m = record {
  uptime_seconds = now - m.start;
  totals = totals m;
  mirror_configured = m.mirror_configured;
}

totals-seed : (t : MetricTotals) (m : Metrics) → totals (seed t m) ≡ t
unfolding totals seed
totals-seed t m = refl

-- A restart keeps the lifetime totals: counters that have been flushed are, once loaded, those of
-- new counters that are seeded with them, where the id is a key of the table.
pub totals-restart :
    (T : Table TotalsRow) (law : IsRelational T) (m : Metrics) (now : ℕ) (mirror : Bool)
    (loaded : MetricTotals) (s s' : T.State)
    → tally is_totals (T.rows s) ≤ 1
    → save_totals T (totals m) s ≡ (ok tt, s')
    → load_totals T s' ≡ ok loaded
    → totals (seed loaded (new now mirror)) ≡ totals m
totals-restart T law m now mirror loaded s s' key saved read =
    totals-seed loaded (new now mirror)
    ∙ load_totals-save_totals T law (totals m) loaded s s' key saved read
