-- ===== src/Timers.antt =====
-- core/timers.c: periodic callbacks. The list `all_timers` is a list of its nodes with their
-- addresses in the allocator's buffer; `TIME_MILLIS` is an argument of each operation. A callback is
-- a value of any type, and the result of a poll is the callbacks in the order of their calls: the
-- model has no effect of a callback on the list itself.
pub mod Fire
mod Tests
use smews.Base.{
  ℕ, zero, suc, ◌+◌, ◌*◌, ◌%◌, ◌^◌, Option, none, some, List, [], ◌∷◌, ◌++◌, ltb, if◌then◌else◌,
  u16, u32, sub32,
}
use smews.Memory.{Allocator, mem_alloc}

-- `struct timer_t`; `node` is its address.
pub record Timer {ℓ} (A : Type ℓ) : Type ℓ where
  pub node : ℕ
  pub callback : A
  pub period_millis : ℕ
  pub last_time_millis : ℕ

pub record Timers {ℓ} (A : Type ℓ) : Type ℓ where
  pub heap : Allocator
  pub all_timers : List (Timer A)

module _ {ℓ} {A : Type ℓ} where
  -- `size` is `sizeof(struct timer_t)`, `now` the time, and `fuel` that of the allocator's loop.
  unfoldable pub set_timer : ℕ → ℕ → ℕ → A → ℕ → Timers A → Option (ℕ × Timers A)
  set_timer fuel size now callback period_millis s = elim (mem_alloc fuel size s.heap) [
    | none ↦ none
    | some (none, heap) ↦ some (0, record s { heap = heap })
    | some (some p, heap) ↦ some (
      1,
      record {
        heap = heap;
        all_timers =
            record {
              node = p;
              callback = callback;
              period_millis = period_millis;
              last_time_millis = now;
            }
            ∷ s.all_timers;
      },
    )
  ]

  -- `(uint16_t)(curr_time_millis - curr_timer->last_time_millis)`
  abbrev pub elapsed : ℕ → Timer A → ℕ
  elapsed now t = u16 (sub32 now t.last_time_millis)

  abbrev pub later : Timer A → Timer A
  later t = record t { last_time_millis = u32 (t.last_time_millis + t.period_millis) }

  abbrev pub called : Timer A → Option (List A × Timer A) → Option (List A × Timer A)
  called t none = none
  called t (some (calls, t')) = some (t.callback ∷ calls, t')

  -- The inner loop of `smews_timers`: the calls that it makes, and the timer behind it. `none` is
  -- a loop that does not end within the fuel.
  unfoldable pub fire : ℕ → ℕ → Timer A → Option (List A × Timer A)
  fire zero now t = none
  fire (suc fuel) now t =
      let rest = fire fuel now (later t) in
      if ltb t.period_millis (elapsed now t) then called t rest else some ([], t)

  abbrev pub joined :
      Option (List A × Timer A)
      → Option (List A × List (Timer A))
      → Option (List A × List (Timer A))
  joined none rest = none
  joined (some (calls, t)) none = none
  joined (some (calls, t)) (some (more, ts)) = some (calls ++ more, t ∷ ts)

  -- the outer loop
  unfoldable pub poll : ℕ → ℕ → List (Timer A) → Option (List A × List (Timer A))
  unfolding fire
  poll fuel now [] = some ([], [])
  poll fuel now (t ∷ ts) = joined (fire fuel now t) (poll fuel now ts)

  pub smews_timers : ℕ → ℕ → Timers A → Option (List A × Timers A)
  unfolding poll
  smews_timers fuel now s = elim (poll fuel now s.all_timers) [
    | none ↦ none
    | some (calls, ts) ↦ some (calls, record s { all_timers = ts })
  ]
