-- ===== src/Messages/Tests.antt =====
-- Witnesses of the message queue: two messages are put in, one is taken, and the queue is cleared.
use mathlib.Core.List.{Perm}
use cmdr_cxx.Base.{ℕ, [], ◌∷◌, ◌++◌, ◌≡◌, refl, false, true}
use cmdr_cxx.Messages.{
  pops, emplace_back, pop_front, clear, Run, Step, puts, takes, Steps, done, next, start_run,
}
use cmdr_cxx.Messages.Laws.{messages_kept}

abbrev two_in : Run ℕ
two_in = record {
  queue = record { data_ = 1 ∷ 2 ∷ []; abort = false };
  put_in = 1 ∷ 2 ∷ [];
  taken = [];
  cleared = [];
}

abbrev one_out : Run ℕ
one_out = record {
  queue = record { data_ = 1 ∷ []; abort = false };
  put_in = 1 ∷ 2 ∷ [];
  taken = 2 ∷ [];
  cleared = [];
}

abbrev one_in : Run ℕ
one_in = record {
  queue = record { data_ = 1 ∷ []; abort = false };
  put_in = 1 ∷ [];
  taken = [];
  cleared = [];
}

abbrev put_again : Run ℕ
put_again = record {
  queue = record { data_ = 3 ∷ []; abort = true };
  put_in = 1 ∷ 2 ∷ 3 ∷ [];
  taken = 2 ∷ [];
  cleared = 1 ∷ [];
}

first_put : Step (start_run ℕ) one_in
unfolding emplace_back
first_put = puts (start_run ℕ) 1

second_put : Step one_in two_in
unfolding emplace_back
second_put = puts one_in 2

taken_last : pop_front two_in.queue ≡ pops 2 one_out.queue
unfolding pop_front
taken_last = refl

two_puts_and_a_pop : Steps (start_run ℕ) one_out
two_puts_and_a_pop = next (start_run ℕ) one_in one_out first_put (
    next one_in two_in one_out second_put
      (next two_in one_out one_out (takes two_in 2 one_out.queue taken_last) (done one_out)))

put_behind_clear :
    Steps (record one_out { queue = clear one_out.queue; cleared = 1 ∷ [] }) put_again
unfolding clear emplace_back
put_behind_clear =
    next _ put_again put_again
      (puts (record one_out { queue = clear one_out.queue; cleared = 1 ∷ [] }) 3) (done put_again)

messages_kept_example : Perm {A = ℕ} (1 ∷ 2 ∷ []) ((2 ∷ []) ++ ([] ++ 1 ∷ []))
messages_kept_example = messages_kept one_out two_puts_and_a_pop
