-- ===== src/Timers/Fire.antt =====
-- How often a poll calls each timer, and what is left of its time.
use smews.Base.{
  ℕ, zero, suc, ◌+◌, ◌*◌, ◌^◌, ◌≤◌, ◌<◌, ◌≡◌, refl, arith, Option, none, some, List, [], ◌∷◌, ◌++◌,
  ltb, replicate, Bool-cases, ltb→lt, not_ltb→le, inl, inr,
}
use smews.Timers.{Timer, Timers, elapsed, later, called, fire, poll, smews_timers}

-- The timer is well formed: a period of at least one millisecond, and words of their widths.
pub record IsTimer {ℓ} {A : Type ℓ} (t : Timer A) : Type 0 where
  pub period_pos : 0 < t.period_millis
  pub period_fits : t.period_millis < 2 ^ 16
  pub last_fits : t.last_time_millis < 2 ^ 32

module _ {ℓ} {A : Type ℓ} where
  -- `calls` rounds of the loop: as many periods go by as there are calls, and less than a whole one
  -- (or exactly one) is left.
  pub record Fired (now : ℕ) (t : Timer A) (r : Option (List A × Timer A)) : Type ℓ where
    pub count : ℕ
    pub timer : Timer A
    pub returns : r ≡ some (replicate count t.callback, timer)
    pub same_period : timer.period_millis ≡ t.period_millis
    pub rest : elapsed now timer + count * t.period_millis ≡ elapsed now t
    pub small : elapsed now timer ≤ t.period_millis
    pub valid : timer.last_time_millis < 2 ^ 32

  elapsed-later :
      (now : ℕ) (t : Timer A)
      → now < 2 ^ 32
      → IsTimer t
      → t.period_millis < elapsed now t
      → elapsed now (later t) + t.period_millis ≡ elapsed now t
  elapsed-later now t h v less = omega (arith, v)

  IsTimer-later : (t : Timer A) → IsTimer t → IsTimer (later t)
  IsTimer-later t v = omega (arith, v)

  Fired-later :
      (now : ℕ) (t : Timer A) {r : Option (List A × Timer A)}
      → elapsed now (later t) + t.period_millis ≡ elapsed now t
      → Fired now (later t) r
      → Fired now t (called t r)
  Fired-later now t e f = record {
    count = suc f.count;
    timer = f.timer;
    returns = rw f.returns refl;
    same_period = f.same_period;
    rest = grind (arith, f.rest, e);
    small = f.small;
    valid = f.valid;
  }

  fire-Fired :
      (fuel now : ℕ) (t : Timer A)
      → now < 2 ^ 32
      → IsTimer t
      → elapsed now t < fuel
      → Fired now t (fire fuel now t)
  unfolding fire
  fire-Fired zero now t h v l = absurd (omega arith)
  fire-Fired (suc fuel) now t h v l = elim (Bool-cases (ltb t.period_millis (elapsed now t))) [
    | inl less ↦ rw less (
        Fired-later now t (elapsed-later now t h v (ltb→lt _ _ less)) (
          fire-Fired fuel now (later t) h (IsTimer-later t v)
            (omega (arith, elapsed-later now t h v (ltb→lt _ _ less), v.period_pos))))
    | inr done ↦ rw done (record {
      count = 0;
      timer = t;
      returns = refl;
      same_period = refl;
      rest = omega arith;
      small = not_ltb→le _ _ done;
      valid = v.last_fits;
    })
  ]

  -- The calls `calls` of a poll of the timers `ts`, in the order of the list, and the timers behind it.
  pub data Polled (now : ℕ) : List (Timer A) → List A → List (Timer A) → Type ℓ where
    none_left : Polled now [] [] []
    fired :
        {t t' : Timer A} {ts ts' : List (Timer A)} {calls : List A} (count : ℕ)
        → t'.period_millis ≡ t.period_millis
        → elapsed now t' + count * t.period_millis ≡ elapsed now t
        → elapsed now t' ≤ t.period_millis
        → Polled now ts calls ts'
        → Polled now (t ∷ ts) (replicate count t.callback ++ calls) (t' ∷ ts')

  abbrev pub AllTimers : List (Timer A) → Type 0
  AllTimers [] = Unit {0}
  AllTimers (t ∷ ts) = IsTimer t × AllTimers ts

  poll-Polled :
      (fuel now : ℕ) (ts : List (Timer A))
      → now < 2 ^ 32
      → 2 ^ 16 ≤ fuel
      → AllTimers ts
      → (calls : List A) × (ts' : List (Timer A)) × (poll fuel now ts ≡ some (calls, ts'))
        × Polled now ts calls ts'
  unfolding poll
  poll-Polled fuel now [] h l v = ([], [], refl, none_left)
  poll-Polled fuel now (t ∷ ts) h l v =
      let f = fire-Fired fuel now t h v.0 (omega arith) in
      let (calls, ts', e, p) = poll-Polled fuel now ts h l v.1 in
      (
        replicate f.count t.callback ++ calls,
        f.timer ∷ ts',
        rw (f.returns, e) refl,
        fired f.count f.same_period f.rest f.small p,
      )

  -- With 2 ^ 16 rounds of fuel for each timer, a poll of timers with periods of at least a millisecond
  -- ends. Each timer is called as many times as periods have passed in its elapsed time, of which the code keeps
  -- 16 bits, so that the calls of 65536 milliseconds are lost, until at most one period is left, and keeps its period;
  -- the calls are in the order of the list, and the heap is not touched.
  pub smews_timers-Polled :
      (fuel now : ℕ) (s : Timers A)
      → now < 2 ^ 32
      → 2 ^ 16 ≤ fuel
      → AllTimers s.all_timers
      → (calls : List A) × (s' : Timers A) × (smews_timers fuel now s ≡ some (calls, s'))
        × Polled now s.all_timers calls s'.all_timers
        × (s'.heap ≡ s.heap)
  unfolding smews_timers
  smews_timers-Polled fuel now s h l v =
      let (calls, ts', e, p) = poll-Polled fuel now s.all_timers h l v in
      (calls, record s { all_timers = ts' }, rw (smews_timers, e) refl, p, refl)

  -- A timer that was set with the period 0 stops the poll for ever, once a millisecond has passed:
  -- no fuel is enough.
  pub fire-zero :
      (fuel now : ℕ) (t : Timer A)
      → t.period_millis ≡ 0
      → t.last_time_millis < 2 ^ 32
      → 0 < elapsed now t
      → fire fuel now t ≡ none
  unfolding fire
  fire-zero zero now t e f l = refl
  fire-zero (suc fuel) now t e f l =
      let again : fire fuel now (later t) ≡ none =
        fire-zero fuel now (later t) e (omega arith) (omega arith) in
      ground (arith, again)
