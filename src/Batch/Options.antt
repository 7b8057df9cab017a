-- ===== src/Batch/Options.antt =====
-- The options of a batch run: Options and withDefaults of pkg/batch/batch.go. An int and a duration,
-- in nanoseconds, are words of 64 bits: a negative number n is the word n + 2 ^ 64, and a sum wraps.
use mathlib.Core.Path.{subst}
use pagelode.Prelude.{
  Bool-cases, inl, inr, ap, ℕ, ◌+◌, ◌*◌, ◌≤◌, ◌<◌, Str, [], Option, none, some, false, ◌||◌, ltb,
  leb, ◌==◌, if◌then◌else◌, str_eq, ◌≡◌, arith, ◌%◌, Bool, true, not,
}

-- The fields that withDefaults reads; HTTPWorkers and so on.
pub record Options : Type 0 where
  pub owner : Str
  pub http_workers : ℕ
  pub browser_workers : ℕ
  pub lease : ℕ
  pub page_timeout : ℕ
  pub host_concurrency : ℕ
  pub idle : ℕ
  pub progress_interval : ℕ
  pub host_busy_delay : ℕ
  pub capacity_delay : ℕ
  pub fetch_poll_interval : ℕ

-- The words from here on are negative, 2 ^ 63.
abbrev pub half : ℕ
half = 9223372036854775808

abbrev pub is_negative : ℕ → Bool
is_negative a = leb half a

-- The order and the sum of signed words.
abbrev pub less_signed : ℕ → ℕ → Bool
less_signed a b = ltb ((a + half) % (2 * half)) ((b + half) % (2 * half))

abbrev pub add_signed : ℕ → ℕ → ℕ
add_signed a b = (a + b) % (2 * half)

abbrev pub second : ℕ
second = 1000000000

-- writeAllowance, twice the flush interval
abbrev pub write_allowance : ℕ
write_allowance = 4 * second

abbrev or_default : ℕ → ℕ → ℕ
or_default value default = if value == 0 then default else value

-- The defaults, with River's own for the poll interval.
unfoldable pub filled : ℕ → Options → Options
filled poll o = record o {
  http_workers = or_default o.http_workers 100;
  lease = or_default o.lease (600 * second);
  page_timeout = or_default o.page_timeout (10 * second);
  host_concurrency = or_default o.host_concurrency 4;
  idle = or_default o.idle (2 * second);
  progress_interval = or_default o.progress_interval (10 * second);
  host_busy_delay = or_default o.host_busy_delay second;
  capacity_delay = or_default o.capacity_delay (5 * second);
  fetch_poll_interval = or_default o.fetch_poll_interval poll;
}

-- The checks behind the defaults.
accepted : Options → Option Options
accepted o =
    if less_signed o.http_workers 1
      || less_signed o.browser_workers 0
      || less_signed o.host_concurrency 1
    then none
    else if not (less_signed (add_signed o.page_timeout write_allowance) o.lease)
    then none
    else some o

-- withDefaults; `none` is an error.
unfoldable pub with_defaults : ℕ → Options → Option Options
unfolding filled accepted
with_defaults poll o = if str_eq o.owner [] then none else accepted (filled poll o)

-- The numbers that the checks read are words.
pub record AreWords (o : Options) : Type 0 where
  pub workers : o.http_workers < 2 * half
  pub browsers : o.browser_workers < 2 * half
  pub hosts : o.host_concurrency < 2 * half
  pub lease : o.lease < 2 * half
  pub page_timeout : o.page_timeout < 2 * half

-- What a run may rely on.
pub record IsRunnable (o : Options) : Type 0 where
  pub owned : str_eq o.owner [] ≡ false
  pub workers : (1 ≤ o.http_workers) × (o.http_workers < half)
  pub browsers : o.browser_workers < half
  pub hosts : (1 ≤ o.host_concurrency) × (o.host_concurrency < half)
  pub leased :
      o.page_timeout + write_allowance < half
      → (o.page_timeout + write_allowance < o.lease) × (o.lease < half)

positive_lem : (a : ℕ) → a < 2 * half → less_signed a 1 ≡ false → (1 ≤ a) × (a < half)
positive_lem a word h = ground arith

natural_lem : (a : ℕ) → a < 2 * half → less_signed a 0 ≡ false → a < half
natural_lem a word h = ground arith

longer_lem :
    (a b : ℕ)
    → b < 2 * half
    → less_signed (add_signed a write_allowance) b ≡ true
    → a + write_allowance < half
    → (a + write_allowance < b) × (b < half)
longer_lem a b word h small = ground arith

or_default-word : (a d : ℕ) → a < 2 * half → d < 2 * half → or_default a d < 2 * half
or_default-word a d word small = ground arith

accepted-IsRunnable :
    (o : Options) {p : Options}
    → AreWords o
    → str_eq o.owner [] ≡ false
    → accepted o ≡ some p
    → IsRunnable p
unfolding accepted
accepted-IsRunnable o words owned h = elim (Bool-cases (less_signed o.http_workers 1)) [
  | inl few ↦ absurd (ground arith)
  | inr workers ↦ elim (Bool-cases (less_signed o.browser_workers 0)) [
    | inl negative ↦ absurd (ground arith)
    | inr browsers ↦ elim (Bool-cases (less_signed o.host_concurrency 1)) [
      | inl none_at_once ↦ absurd (ground arith)
      | inr hosts ↦
          elim (Bool-cases (less_signed (add_signed o.page_timeout write_allowance) o.lease)) [
            | inr short ↦ absurd (ground arith)
            | inl long ↦
                subst IsRunnable
                  (ap (λ (x : Option Options). elim x [ none ↦ o | some y ↦ y ])
                    (rw (workers, browsers, hosts, long) at h))
                  (record {
                    owned = owned;
                    workers = positive_lem o.http_workers words.workers workers;
                    browsers = natural_lem o.browser_workers words.browsers browsers;
                    hosts = positive_lem o.host_concurrency words.hosts hosts;
                    leased = longer_lem o.page_timeout o.lease words.lease long;
                  })
          ]
    ]
  ]
]

-- Options that are accepted, of which each number is a word of 64 bits, have an owner, at least one
-- HTTP worker, no negative number of browser workers and at least one request to a host at a time.
-- If their page timeout is not negative and the time allowed for writing the page can be added to it
-- without a wrap, the lease is longer than both together.
pub with_defaults-IsRunnable :
    (poll : ℕ) (o : Options) {p : Options}
    → AreWords o
    → with_defaults poll o ≡ some p
    → IsRunnable p
unfolding with_defaults
with_defaults-IsRunnable poll o words h = elim (Bool-cases (str_eq o.owner [])) [
  | inl nobody ↦ absurd (ground arith)
  | inr owned ↦
      accepted-IsRunnable (filled poll o)
        (record {
          workers = or_default-word o.http_workers 100 words.workers (omega arith);
          browsers = words.browsers;
          hosts = or_default-word o.host_concurrency 4 words.hosts (omega arith);
          lease = or_default-word o.lease (600 * second) words.lease (omega arith);
          page_timeout =
              or_default-word o.page_timeout (10 * second) words.page_timeout (omega arith);
        })
        owned (rw owned at h)
]
