-- ===== src/Timers/Tests.antt =====
-- Two timers, and the theorems on them.
use smews.Base.{ℕ, ◌^◌, ◌≡◌, refl, arith, none, some, List, [], ◌∷◌}
use smews.Memory.{Allocator, mem_alloc}
use smews.Timers.{Timer, Timers, fire, poll, smews_timers, set_timer}
use smews.Timers.Fire.{Polled, smews_timers-Polled, fire-zero}

abbrev timer : ℕ → ℕ → ℕ → Timer ℕ
timer c period last = record {
  node = 0;
  callback = c;
  period_millis = period;
  last_time_millis = last;
}

abbrev heap : Allocator
heap = record { cells = λ x. record { size = 0; to_next = 0 }; first_free = 0 }

abbrev two : Timers ℕ
two = record { heap = heap; all_timers = timer 1 10 95 ∷ timer 2 1000 100 ∷ [] }

calls_of_first :
    poll 8 130 two.all_timers ≡ some (1 ∷ 1 ∷ 1 ∷ [], timer 1 10 125 ∷ timer 2 1000 100 ∷ [])
unfolding poll
calls_of_first = refl

no_memory : set_timer 1 12 5 7 10 two ≡ some (0, two)
unfolding set_timer mem_alloc
no_memory = refl

smews_timers-Polled_example :
    (calls : List ℕ) × (s' : Timers ℕ) × (smews_timers (2 ^ 16) 130 two ≡ some (calls, s'))
    × Polled 130 two.all_timers calls s'.all_timers
    × (s'.heap ≡ heap)
smews_timers-Polled_example =
    smews_timers-Polled (2 ^ 16) 130 two (omega arith) (omega arith) (omega arith)

fire-zero_example : fire 100 130 (timer 1 0 95) ≡ none
fire-zero_example = fire-zero 100 130 (timer 1 0 95) refl (omega arith) (omega arith)
