-- ===== src/Invoke/Laws.antt =====
-- Which hooks invoke_command calls, and what it gives back.
use cmdr_cxx.Base.{
  ℕ, suc, ◌+◌, ◌<◌, ◌≤◌, Bool, true, false, List, [], ◌∷◌, Option, none, some, if◌then◌else◌, ℤ,
  ◌≡◌, refl, sym, subst, ap, ◌∙◌, arith, Option-cases, inl, inr,
}
use cmdr_cxx.Invoke.{
  Event, global_pre_invoke, pre_invoke, invoke, not_hooked, post_invoke, global_post_invoke, Result,
  returned, thrown, State, Hook, Hooks, is_zero, call, and_then, catching, before_try, action,
  posts, in_try, handler, invoke_command,
}

if_snd : {A B : Type 0} (b : Bool) (x y : A × B) → (if b then x else y).1 ≡ (if b then x.1 else y.1)
if_snd true x y = refl
if_snd false x y = refl

-- How often the command's own post hook was called.
unfoldable pub post_calls : List Event → ℕ
post_calls [] = 0
post_calls (post_invoke ∷ es) = suc (post_calls es)
post_calls (_ ∷ es) = post_calls es

post_calls-cons : (e : Event) (es : List Event) → post_calls es ≤ post_calls (e ∷ es)
unfolding post_calls
post_calls-cons global_pre_invoke es = omega arith
post_calls-cons pre_invoke es = omega arith
post_calls-cons invoke es = omega arith
post_calls-cons not_hooked es = omega arith
post_calls-cons post_invoke es = omega arith
post_calls-cons global_post_invoke es = omega arith

module _ {W E : Type 0} where
  -- The calls of the post hook do not get fewer.
  abbrev Up : State W → State W × Result E → Type 0
  Up s r = post_calls s.calls ≤ post_calls r.0.calls

  -- The same, and one more.
  abbrev Above : State W → State W × Result E → Type 0
  Above s r = post_calls s.calls < post_calls r.0.calls

  Up-call : (e : Event) (o : Option (Hook W E)) (s : State W) → Up s (call e o s)
  unfolding call
  Up-call e none s = omega arith
  Up-call e (some f) s = post_calls-cons e s.calls

  Above-call : (f : Hook W E) (s : State W) → Above s (call post_invoke (some f) s)
  unfolding call post_calls
  Above-call f s = omega arith

  Up-then :
      (s : State W) (r : State W × Result E) (k : State W → ℤ → State W × Result E)
      → Up s r
      → ((t : State W) (rc : ℤ) → Up t (k t rc))
      → Up s (and_then r k)
  unfolding and_then
  Up-then s (t, returned rc) k u v = omega (arith, u, v t rc)
  Up-then s (t, thrown e) k u v = u

  Above-then :
      (s : State W) (r : State W × Result E) (k : State W → ℤ → State W × Result E)
      → Above s r
      → ((t : State W) (rc : ℤ) → Up t (k t rc))
      → Above s (and_then r k)
  unfolding and_then
  Above-then s (t, returned rc) k u v = omega (arith, u, v t rc)
  Above-then s (t, thrown e) k u v = u

  Above-posts :
      (h : Hooks W E) (s : State W) (f : Hook W E) → h.on_post_invoke ≡ some f → Above s (posts h s)
  unfolding posts
  Above-posts h s f e =
      Above-then s (call post_invoke h.on_post_invoke s)
        (λ t rc. call global_post_invoke h.global_on_post_invoke t)
        (subst (λ o. Above s (call post_invoke o s)) (sym e) (Above-call f s))
        (λ t rc. Up-call global_post_invoke h.global_on_post_invoke t)

  Up-action : (h : Hooks W E) (s : State W) → Up s (action h s)
  unfolding action
  Up-action h s = elim (Option-cases h.on_invoke) [
    | inl e ↦ rw (e, action) (Up-call not_hooked h.on_command_not_hooked s)
    | inr (f, e) ↦ rw (e, action) (Up-call invoke (some f) s)
  ]

  Up-catching :
      (s : State W) (r : State W × Result E) (k : State W → E → State W × Result E)
      → Above s r
      → ((t : State W) (e : E) → Up t (k t e))
      → Above s (catching r k)
  unfolding catching
  Up-catching s (t, returned rc) k u v = u
  Up-catching s (t, thrown e) k u v = omega (arith, u, v t e)

  Above-handler :
      (h : Hooks W E) (f : Hook W E)
      → h.on_post_invoke ≡ some f
      → (s : State W) (x : E) → Above s (handler h s x)
  unfolding handler
  Above-handler h f e s x =
      Above-then s (posts h s) (λ t rc. (t, thrown x)) (Above-posts h s f e) (λ t rc. omega arith)

  -- The body behind the action, for any outcome of the action.
  abbrev after_action : Hooks W E → State W × Result E → State W × Result E
  after_action h r = and_then r (λ s rc. and_then (posts h s) (λ s _. (s, returned rc)))

  Above-try :
      (h : Hooks W E) (f : Hook W E)
      → h.on_post_invoke ≡ some f
      → (t : State W) (r : State W × Result E) → Up t r
      → Above t (catching (after_action h r) (handler h))
  unfolding and_then catching
  Above-try h f e t (u, returned rc) l =
      let a =
        Up-catching u (after_action h (u, returned rc)) (handler h)
          (Above-then u (posts h u) (λ v y. (v, returned rc)) (Above-posts h u f e)
            (λ _ _. omega arith))
          (λ v x. omega (arith, Above-handler h f e v x)) in
      omega (arith, l, a)
  Above-try h f e t (u, thrown x) l = omega (arith, l, Above-handler h f e u x)

  Up-pre :
      (h : Hooks W E) (t : State W) (rc : ℤ) (b : Bool)
      → Up t (if b then call pre_invoke h.on_pre_invoke t else (t, returned rc))
  Up-pre h t rc true = Up-call pre_invoke h.on_pre_invoke t
  Up-pre h t rc false = omega arith

  Up-before : (h : Hooks W E) (s : State W) → Up s (before_try h s)
  unfolding before_try
  Up-before h s =
      Up-then s (call global_pre_invoke h.global_on_pre_invoke s)
        (λ t rc. if is_zero rc then call pre_invoke h.on_pre_invoke t else (t, returned rc))
        (Up-call global_pre_invoke h.global_on_pre_invoke s) (λ t rc. Up-pre h t rc (is_zero rc))

  -- The action, where the hooks in front of it give 0.
  abbrev pub tried : Hooks W E → ℤ → State W → State W × Result E
  tried h rc s = if is_zero rc then action h s else (s, returned rc)

  Up-tried :
      (h : Hooks W E) (s : State W) (rc : ℤ) (b : Bool)
      → Up s (if b then action h s else (s, returned rc))
  Up-tried h s rc true = Up-action h s
  Up-tried h s rc false = omega arith

  invoke_command-before :
      (h : Hooks W E) (s t : State W) (rc : ℤ)
      → before_try h s ≡ (t, returned rc)
      → invoke_command h s ≡ catching (after_action h (tried h rc t)) (handler h)
  unfolding invoke_command in_try and_then
  invoke_command-before h s t rc e = rw (e, invoke_command) refl

  -- Whatever the action does, the post hook of the command is called, once the hooks in front have
  -- not thrown.
  pub post_called :
      (h : Hooks W E) (f : Hook W E) (s t : State W) (rc : ℤ)
      → h.on_post_invoke ≡ some f
      → before_try h s ≡ (t, returned rc)
      → post_calls s.calls < post_calls (invoke_command h s).0.calls
  post_called h f s t rc p e =
      let a = Above-try h f p t (tried h rc t) (Up-tried h t rc (is_zero rc)) in
      let b : post_calls s.calls ≤ post_calls t.calls = subst (Up s) e (Up-before h s) in
      let c = ap (λ r. post_calls r.0.calls) (invoke_command-before h s t rc e) in
      omega (arith, a, b, c)

  -- Where a post hook throws behind an action that did not, the post hook of the command is called
  -- twice.
  pub post_called_twice :
      (h : Hooks W E) (f : Hook W E) (s t u z : State W) (rc x : ℤ) (e : E)
      → h.on_post_invoke ≡ some f
      → before_try h s ≡ (t, returned rc)
      → tried h rc t ≡ (u, returned x)
      → posts h u ≡ (z, thrown e)
      → post_calls s.calls + 2 ≤ post_calls (invoke_command h s).0.calls
  unfolding and_then catching
  post_called_twice h f s t u z rc x e p b a q =
      let up : post_calls s.calls ≤ post_calls t.calls = subst (Up s) b (Up-before h s) in
      let up' : post_calls t.calls ≤ post_calls u.calls =
        subst (Up t) a (Up-tried h t rc (is_zero rc)) in
      let first : post_calls u.calls < post_calls z.calls =
        subst (Above u) q (Above-posts h u f p) in
      let second = Above-handler h f p z e in
      let run : invoke_command h s ≡ handler h z e =
        invoke_command-before h s t rc b
        ∙ ap (λ r. catching (after_action h r) (handler h)) a
        ∙ ap (λ r. catching (and_then r (λ s _. (s, returned x))) (handler h)) q in
      omega (arith, up, up', first, second, ap (λ r. post_calls r.0.calls) run)

  -- The post hooks do not throw.
  unfoldable pub Quiet : Hooks W E → Type 0
  Quiet h = (s : State W) → (t : State W) × (rc : ℤ) × (posts h s ≡ (t, returned rc))

  Quiet-try :
      (h : Hooks W E)
      → Quiet h
      → (r : State W × Result E) → (catching (after_action h r) (handler h)).1 ≡ r.1
  unfolding Quiet and_then catching handler
  Quiet-try h q (u, returned rc) =
      let (t, x, e) = q u in
      ap (λ r. (catching (and_then r (λ s _. (s, returned rc))) (handler h)).1) e
  Quiet-try h q (u, thrown x) =
      let (t, y, e) = q u in ap (λ r. (and_then r (λ s _. (s, thrown x))).1) e

  -- Where the post hooks do not throw, the outcome is that of the action, if the hooks in front
  -- give 0, or else what they give; an exception of the action comes out again.
  pub invoke_command_outcome :
      (h : Hooks W E) (s t : State W) (rc : ℤ)
      → Quiet h
      → before_try h s ≡ (t, returned rc)
      → (invoke_command h s).1 ≡ (if is_zero rc then (action h t).1 else returned rc)
  invoke_command_outcome h s t rc q e =
      ap (λ r. r.1) (invoke_command-before h s t rc e)
      ∙ Quiet-try h q (tried h rc t)
      ∙ if_snd (is_zero rc) (action h t) (t, returned rc)
