-- ===== src/Login/Spans.antt =====
-- The failing attempts of one bucket in one window, counted beside the bucket.
use prj_app.Base.{
  ℕ, suc, ◌≡◌, ◌≤◌, ◌<◌, ◌+◌, ◌-◌, ◌*◌, false, Option, none, some, arith, leb, ◌⊎◌, inl, inr,
  Bool-cases, if◌then◌else◌,
}
use prj_app.Login.{Bucket, failure_window, lockout, refresh, fresh_bucket, is_blocked, fail}

-- A window: its start, the failing attempts in it that came to the check of the password, and the
-- time of the last of them.
pub record Span : Type 0 where
  pub start : ℕ
  pub count : ℕ
  pub last : ℕ

-- The window of an attempt: that of before, or a new one after its 15 minutes.
abbrev pub opened : ℕ → Option Span → Span
opened now none = record { start = now; count = 0; last = now }
opened now (some w) =
    if leb (w.start + failure_window) now then record { start = now; count = 0; last = now } else w

abbrev pub counted : ℕ → Span → Span
counted now w = record w { count = suc w.count; last = now }

-- What the bucket holds of its window.
pub record Counted (w : Span) (clock : ℕ) (b : Bucket) : Type 0 where
  pub window : b.window_started_at ≡ w.start
  pub began : w.start ≤ w.last
  pub past : w.last ≤ clock
  pub inside : w.last < w.start + failure_window
  pub few : w.count < 5 → (b.failed_attempts ≡ w.count) × (b.blocked_until ≡ none)
  pub full : 5 ≤ w.count → b.failed_attempts ≡ 5
  pub shut :
      5 ≤ w.count
      → (b.blocked_until ≡ some (w.last + lockout))
        ⊎ ((b.blocked_until ≡ none) × (w.last + lockout ≤ clock))
  pub spaced : 5 ≤ w.count → w.count * lockout ≤ (w.last - w.start) + 5 * lockout

pub opened-Counted : (now : ℕ) → Counted (opened now none) now (refresh now (fresh_bucket now))
unfolding refresh
opened-Counted now = record {
  window = ground arith;
  began = omega arith;
  past = omega arith;
  inside = omega arith;
  few = λ h. (ground arith, ground arith);
  full = λ h. absurd (omega arith);
  shut = λ h. absurd (omega arith);
  spaced = λ h. absurd (omega arith);
}

pub opened-inside : (now : ℕ) (w : Option Span) → now < (opened now w).start + failure_window
opened-inside now none = omega arith
opened-inside now (some w) = ground arith

-- Time that passes.
pub later-Counted :
    (w : Span) (clock now : ℕ) (b : Bucket) → Counted w clock b → clock ≤ now → Counted w now b
later-Counted w clock now b c le = record {
  window = c.window;
  began = c.began;
  past = omega (arith, c.past);
  inside = c.inside;
  few = c.few;
  full = c.full;
  shut = λ h. ground (arith, c.shut h);
  spaced = c.spaced;
}

fresh_bucket-refresh : (now : ℕ) → refresh now (fresh_bucket now) ≡ fresh_bucket now
unfolding refresh
fresh_bucket-refresh now = ground arith

within_window :
    (w : Span) (clock now : ℕ) (b : Bucket)
    → Counted w clock b
    → clock ≤ now
    → leb (w.start + failure_window) now ≡ false
    → Counted w now (refresh now b)
unfolding refresh
within_window w clock now b c le within =
    let window = c.window in
    let still : leb failure_window (now - b.window_started_at) ≡ false = ground (arith, c.began) in
    record {
      window = ground arith;
      began = c.began;
      past = omega (arith, c.past);
      inside = c.inside;
      few = λ h. ground (arith, c.few h);
      full = λ h. ground (arith, c.full h);
      shut = λ h. ground (arith, c.shut h);
      spaced = c.spaced;
    }

-- The bucket at the beginning of an attempt.
pub refresh-Counted :
    (w : Span) (clock now : ℕ) (b : Bucket)
    → Counted w clock b
    → clock ≤ now
    → Counted (opened now (some w)) now (refresh now b)
unfolding refresh
refresh-Counted w clock now b c le = elim (Bool-cases (leb (w.start + failure_window) now)) [
  | inl over ↦
      let window = c.window in
      let renewed : refresh now b ≡ fresh_bucket now = ground arith in
      rw (over, renewed) (rw (← fresh_bucket-refresh now) (opened-Counted now))
  | inr within ↦ rw within (within_window w clock now b c le within)
]

-- A failure that the bucket does not block.
pub fail-Counted :
    (w : Span) (now : ℕ) (b : Bucket)
    → Counted w now b
    → now < w.start + failure_window
    → is_blocked now b ≡ false
    → Counted (counted now w) now (fail now b)
unfolding fail is_blocked
fail-Counted w now b c inside free = record {
  window = ground (arith, c.window);
  began = omega (arith, c.began, c.past);
  past = omega arith;
  inside = inside;
  few = λ h. ground (arith, c.few);
  full = λ h. ground (arith, c.few, c.full);
  shut = λ h. inl (ground (arith, c.few, c.full));
  spaced = λ h. ground (arith, c.began, c.past, c.few, c.shut, c.spaced);
}

pub few_in_window : (w : Span) (clock : ℕ) (b : Bucket) → Counted w clock b → w.count ≤ 19
few_in_window w clock b c = elim (Bool-cases (leb 5 w.count)) [
  | inl more ↦ let k : 5 ≤ w.count = ground arith in omega (arith, c.spaced k, c.began, c.inside)
  | inr less ↦ let k : w.count < 5 = ground arith in omega arith
]
