-- ===== src/Invoke/Tests.antt =====
-- Witnesses and runs of invoke_command.
use cmdr_cxx.Base.{ℕ, suc, ◌+◌, ◌<◌, ◌≤◌, [], ◌∷◌, none, some, ◌≡◌, refl, pos, if◌then◌else◌}
use cmdr_cxx.Invoke.{
  invoke, post_invoke, global_post_invoke, returned, thrown, State, Hook, Hooks, is_zero, call,
  before_try, action, posts, invoke_command,
}
use cmdr_cxx.Invoke.Laws.{
  post_calls, post_called, tried, post_called_twice, Quiet, invoke_command_outcome,
}

-- A hook that counts its call in the world and returns 5.
abbrev count_call : Hook ℕ ℕ
count_call w = (suc w, returned (pos 5))

abbrev fail : Hook ℕ ℕ
fail w = (w, thrown 9)

abbrev quiet : Hooks ℕ ℕ
quiet = record {
  global_on_pre_invoke = none;
  on_pre_invoke = none;
  on_invoke = some count_call;
  on_command_not_hooked = none;
  on_post_invoke = some count_call;
  global_on_post_invoke = none;
}

abbrev failing : Hooks ℕ ℕ
failing = record {
  global_on_pre_invoke = none;
  on_pre_invoke = none;
  on_invoke = some count_call;
  on_command_not_hooked = none;
  on_post_invoke = some count_call;
  global_on_post_invoke = some fail;
}

abbrev start : State ℕ
start = record { world = 0; calls = [] }

abbrev acted : State ℕ
acted = record { world = 1; calls = invoke ∷ [] }

abbrev posted : State ℕ
posted = record { world = 2; calls = global_post_invoke ∷ post_invoke ∷ invoke ∷ [] }

quiet-before_try : before_try quiet start ≡ (start, returned (pos 0))
unfolding before_try
quiet-before_try = refl

quiet-Quiet : Quiet quiet
unfolding Quiet posts
quiet-Quiet s = (record { world = suc s.world; calls = post_invoke ∷ s.calls }, pos 0, refl)

failing-before_try : before_try failing start ≡ (start, returned (pos 0))
unfolding before_try
failing-before_try = refl

failing-tried : tried failing (pos 0) start ≡ (acted, returned (pos 5))
unfolding action call is_zero
failing-tried = refl

failing-posts : posts failing acted ≡ (posted, thrown 9)
unfolding posts
failing-posts = refl

post_called_example : post_calls [] < post_calls (invoke_command quiet start).0.calls
post_called_example = post_called quiet count_call start start (pos 0) refl quiet-before_try

post_called_twice_example : post_calls [] + 2 ≤ post_calls (invoke_command failing start).0.calls
post_called_twice_example =
    post_called_twice failing count_call start start acted posted (pos 0) (pos 5) 9 refl
      failing-before_try failing-tried failing-posts

invoke_command_outcome_example :
    (invoke_command quiet start).1
    ≡ (if is_zero (pos 0) then (action quiet start).1 else returned (pos 0))
invoke_command_outcome_example =
    invoke_command_outcome quiet start start (pos 0) quiet-Quiet quiet-before_try

invoke_runs :
    (invoke_command quiet start
      ≡ (record { world = 2; calls = post_invoke ∷ invoke ∷ [] }, returned (pos 5)))
    × ((invoke_command failing start).0.calls
        ≡ global_post_invoke ∷ post_invoke ∷ global_post_invoke ∷ post_invoke ∷ invoke ∷ [])
unfolding invoke_command
invoke_runs = (refl, refl)
