-- ===== src/Invoke.antt =====
-- app::invoke_command of libs/cmdr11/include/cmdr11/cmdr_impl.hh: the hooks around the action of
-- a command. A hook is any function on the world of the program, which returns an `int` or throws.
pub mod Laws
mod Tests
use cmdr_cxx.Base.{
  ℕ, ◌+◌, ◌==◌, Bool, true, false, List, [], ◌∷◌, ◌++◌, Option, none, some, if◌then◌else◌, ℤ, pos,
  negsuc,
}

pub data Event : Type 0 where
  global_pre_invoke : Event
  pre_invoke : Event
  invoke : Event
  not_hooked : Event
  post_invoke : Event
  global_post_invoke : Event

pub data Result (E : Type 0) : Type 0 where
  returned : ℤ → Result E
  thrown : E → Result E

-- The world, and the calls that were made, the last one first.
pub record State (W : Type 0) : Type 0 where
  pub world : W
  pub calls : List Event

abbrev pub Hook : Type 0 → Type 0 → Type 0
Hook W E = W → W × Result E

pub record Hooks (W E : Type 0) : Type 0 where
  pub global_on_pre_invoke : Option (Hook W E)
  pub on_pre_invoke : Option (Hook W E)
  pub on_invoke : Option (Hook W E)
  pub on_command_not_hooked : Option (Hook W E)
  pub on_post_invoke : Option (Hook W E)
  pub global_on_post_invoke : Option (Hook W E)

pub is_zero : ℤ → Bool
is_zero (pos n) = n == 0
is_zero (negsuc n) = false

module _ {W E : Type 0} where
  -- A call of a hook that is there; `rc` stays 0 where it is not.
  pub call : Event → Option (Hook W E) → State W → State W × Result E
  call e none s = (s, returned (pos 0))
  call e (some f) s = let (w, r) = f s.world in (record { world = w; calls = e ∷ s.calls }, r)

  -- What comes next, if nothing was thrown.
  pub and_then : State W × Result E → (State W → ℤ → State W × Result E) → State W × Result E
  and_then (s, returned rc) k = k s rc
  and_then (s, thrown e) k = (s, thrown e)

  -- catch (...)
  pub catching : State W × Result E → (State W → E → State W × Result E) → State W × Result E
  catching (s, returned rc) k = (s, returned rc)
  catching (s, thrown e) k = k s e

  -- The hooks in front of the `try`.
  pub before_try : Hooks W E → State W → State W × Result E
  unfolding call and_then is_zero
  before_try h s =
      and_then (call global_pre_invoke h.global_on_pre_invoke s)
        (λ s rc. if is_zero rc then call pre_invoke h.on_pre_invoke s else (s, returned rc))

  -- on_invoke, or _on_command_not_hooked where the command has none.
  pub action : Hooks W E → State W → State W × Result E
  unfolding call
  action h s = elim h.on_invoke [
    | some f ↦ call invoke (some f) s
    | none ↦ call not_hooked h.on_command_not_hooked s
  ]

  -- The two hooks behind the action, whose results are dropped.
  pub posts : Hooks W E → State W → State W × Result E
  unfolding call and_then
  posts h s =
      and_then (call post_invoke h.on_post_invoke s)
        (λ s rc. call global_post_invoke h.global_on_post_invoke s)

  -- The body of the `try`.
  pub in_try : Hooks W E → ℤ → State W → State W × Result E
  unfolding action posts and_then is_zero
  in_try h rc s =
      and_then (if is_zero rc then action h s else (s, returned rc))
        (λ s rc. and_then (posts h s) (λ s _. (s, returned rc)))

  -- The handler: the same two hooks, and the exception goes on.
  pub handler : Hooks W E → State W → E → State W × Result E
  unfolding posts and_then
  handler h s e = and_then (posts h s) (λ s _. (s, thrown e))

  -- invoke_command(c, remain_args, pc)
  pub invoke_command : Hooks W E → State W → State W × Result E
  unfolding before_try in_try handler and_then catching
  invoke_command h s = and_then (before_try h s) (λ s rc. catching (in_try h rc s) (handler h))
