-- ===== src/Messages/Laws.antt =====
-- What the message queue promises in every run.
use mathlib.Core.List.{Perm, perm_append_singleton}
use mathlib.Core.List.Perm
use cmdr_cxx.Base.{
  Bool, true, false, List, [], ◌∷◌, ◌++◌, append_assoc, append-nil, ◌≡◌, refl, sym, subst, ap, ◌∙◌,
}
use cmdr_cxx.Messages.{
  MessageQueue, pops, emplace_back, back, pop_front, clear, Run, Step, puts, takes, leaves, clears,
  Steps, done, next, start_run,
}

module _ {T : Type 0} where
  back-append : (x : T) (xs : List T) → (back x xs).0 ++ (back x xs).1 ∷ [] ≡ x ∷ xs
  unfolding back
  back-append x [] = refl
  back-append x (y ∷ ys) = ap (◌∷◌ x) (back-append y ys)

  -- What a pop that gives a message tells of the queue.
  pop_data :
      (d : List T) (b : Bool) (t : T) (q : MessageQueue T)
      → pop_front (record { data_ = d; abort = b }) ≡ pops t q
      → (b ≡ false) × (q.abort ≡ false) × (d ≡ q.data_ ++ t ∷ [])
  unfolding pop_front
  pop_data d true t q e = cc e
  pop_data [] false t q e = cc e
  pop_data (x ∷ xs) false t q e =
      let a : (back x xs).1 ≡ t = cc e in
      let c : record { data_ = (back x xs).0; abort = false } ≡ q = cc e in
      (
        refl,
        sym (ap (λ r. r.abort) c),
        sym (back-append x xs)
            ∙ ap (λ l. l ++ (back x xs).1 ∷ []) (ap (λ r. r.data_) c)
            ∙ ap (λ y. q.data_ ++ y ∷ []) a,
      )

  back-snoc : (x : T) (xs : List T) (t : T) → back x (xs ++ t ∷ []) ≡ (x ∷ xs, t)
  unfolding back
  back-snoc x [] t = refl
  back-snoc x (y ∷ ys) t = ap (λ r. (x ∷ r.0, r.1)) (back-snoc y ys t)

  pop_front-snoc :
      (d : List T) (t : T)
      → pop_front (record { data_ = d ++ t ∷ []; abort = false })
        ≡ pops t (record { data_ = d; abort = false })
  unfolding pop_front back
  pop_front-snoc [] t = refl
  pop_front-snoc (x ∷ xs) t =
      ap (λ r. pops r.1 (record { data_ = r.0; abort = false })) (back-snoc x xs t)

  -- pop_front takes the message that was put in last: the queue is a stack.
  pub pop_front-emplace_back :
      (q : MessageQueue T) (t : T) → q.abort ≡ false → pop_front (emplace_back q t) ≡ pops t q
  unfolding emplace_back
  pop_front-emplace_back q t e =
      subst
        (λ b.
          pop_front (record { data_ = q.data_ ++ t ∷ []; abort = b })
          ≡ pops t (record { data_ = q.data_; abort = b }))
        (sym e) (pop_front-snoc q.data_ t)

  -- Every message that was put in is taken, cleared away or still there, each as often as it was
  -- put in.
  Kept : Run T → Type 0
  Kept r = Perm r.put_in (r.taken ++ (r.cleared ++ r.queue.data_))

  last_first :
      (a b c : List T) (t : T) → Perm (a ++ (b ++ (c ++ t ∷ []))) ((a ++ t ∷ []) ++ (b ++ c))
  last_first a b c t =
      let p : Perm (b ++ (c ++ t ∷ [])) (t ∷ (b ++ c)) =
        subst (λ l. Perm l (t ∷ (b ++ c))) (append_assoc b c (t ∷ []))
          (perm_append_singleton t (b ++ c)) in
      subst (Perm (a ++ (b ++ (c ++ t ∷ [])))) (sym (append_assoc a (t ∷ []) (b ++ c)))
        (Perm.append_left a p)

  Step-Kept : (r s : Run T) → Step r s → Kept r → Kept s
  unfolding Kept emplace_back clear
  Step-Kept r s (puts _ t) k =
      subst (Perm (r.put_in ++ t ∷ []))
        (append_assoc r.taken (r.cleared ++ r.queue.data_) (t ∷ [])
          ∙ ap (λ l. r.taken ++ l) (append_assoc r.cleared r.queue.data_ (t ∷ [])))
        (Perm.append_right (t ∷ []) k)
  Step-Kept r s (takes _ t q e) k =
      let (a, b, d) = pop_data r.queue.data_ r.queue.abort t q e in
      Perm.trans k (
        subst
          (λ l. Perm (r.taken ++ (r.cleared ++ l)) ((r.taken ++ t ∷ []) ++ (r.cleared ++ q.data_)))
          (sym d) (last_first r.taken r.cleared q.data_ t))
  Step-Kept r s (leaves _ e) k = k
  Step-Kept r s (clears _) k =
      subst (λ l. Perm r.put_in (r.taken ++ l)) (sym (append-nil (r.cleared ++ r.queue.data_))) k

  Steps-Kept : (r s : Run T) → Steps r s → Kept r → Kept s
  Steps-Kept r s (done _) k = k
  Steps-Kept r s (next _ m _ a b) k = Steps-Kept m s b (Step-Kept r m a k)

  -- A queue that was cleared gives no message any more.
  Closed : List T → Run T → Type 0
  Closed l r = ((r.queue.abort ≡ true) × (r.taken ≡ l))

  Step-Closed : (l : List T) (r s : Run T) → Step r s → Closed l r → Closed l s
  unfolding Closed emplace_back clear
  Step-Closed l r s (puts _ t) k = k
  Step-Closed l r s (takes _ t q e) k =
      let (a, b, d) = pop_data r.queue.data_ r.queue.abort t q e in absurd (cc (a, k.0))
  Step-Closed l r s (leaves _ e) k = k
  Step-Closed l r s (clears _) k = (refl, k.1)

  Steps-Closed : (l : List T) (r s : Run T) → Steps r s → Closed l r → Closed l s
  Steps-Closed l r s (done _) k = k
  Steps-Closed l r s (next _ m _ a b) k = Steps-Closed l m s b (Step-Closed l r m a k)

  -- In every run from an empty queue, the messages that were put in are those taken, cleared away
  -- and left, each as often: none is lost and none is delivered twice.
  pub messages_kept :
      (r : Run T) → Steps (start_run T) r → Perm r.put_in (r.taken ++ (r.cleared ++ r.queue.data_))
  unfolding Kept
  messages_kept r s = Steps-Kept (start_run T) r s (Perm.refl [])

  -- Once clear was called, no step of any thread takes a message.
  pub nothing_after_clear :
      (r s : Run T)
      → Steps (record r { queue = clear r.queue; cleared = r.cleared ++ r.queue.data_ }) s
      → s.taken ≡ r.taken
  unfolding Closed clear
  nothing_after_clear r s k = (Steps-Closed r.taken _ s k (refl, refl)).1
