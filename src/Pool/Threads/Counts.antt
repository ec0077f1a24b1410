-- ===== src/Pool/Threads/Counts.antt =====
-- The counters of thread_pool.
use cmdr_cxx.Base.{
  ℕ, zero, suc, ◌+◌, ◌<◌, ◌≤◌, true, leb, leb→le, List, [], ◌∷◌, replicate, ◌≡◌, ◌↔◌, refl, sym,
  ◌∙◌, arith, length, length-set, length-replicate,
}
use cmdr_cxx.Pool.{total, total-set}
use cmdr_cxx.Pool.Wait.{ConditionalWait, set_var, is_over}
use cmdr_cxx.Pool.Threads.{
  Thread, starting, waiting, running, returned, ThreadPool, queues, starts, gets, ends, throws,
  leaves, clears, Reach, started, later,
}

le_leb : (a b : ℕ) → a ≤ b → leb a b ≡ true
le_leb a b h = ground arith

-- A count that set() counts up, with the value that the wait is for.
record CountsUp (c : ConditionalWait ℕ) (max n : ℕ) : Type 0 where
  var : c.var ≡ n
  setter : c.setter ≡ suc
  pred : c.pred ≡ leb max

set_var-CountsUp :
    (c : ConditionalWait ℕ) (max n m : ℕ)
    → m ≡ n + 1
    → CountsUp c max n
    → CountsUp (set_var c) max m
unfolding set_var
set_var-CountsUp c max n m e h = record {
  var = rw h.setter (omega (arith, h.var, e));
  setter = h.setter;
  pred = h.pred;
}

same-CountsUp : (c : ConditionalWait ℕ) (max n m : ℕ) → m ≡ n → CountsUp c max n → CountsUp c max m
same-CountsUp c max n m e h = record { var = h.var ∙ sym e; setter = h.setter; pred = h.pred }

CountsUp-is_over :
    (c : ConditionalWait ℕ) (max n : ℕ) → CountsUp c max n → (is_over c ≡ true) ↔ (max ≤ n)
CountsUp-is_over c max n h = rw (h.pred, h.var) (λ e. leb→le max n e, λ e. le_leb max n e)

module _ {T : Type 0} where
  abbrev pub starts_up : Thread T → ℕ
  starts_up starting = 1
  starts_up _ = 0

  abbrev pub runs : Thread T → ℕ
  runs (running t) = 1
  runs _ = 0

  abbrev pub left : Thread T → ℕ
  left returned = 1
  left _ = 0

  -- The threads that have set _cv_started.
  abbrev up : Thread T → ℕ
  up starting = 0
  up _ = 1

  total-replicate : (f : Thread T → ℕ) (n : ℕ) → f starting ≡ 0 → total f (replicate n starting) ≡ 0
  total-replicate f zero e = refl
  total-replicate f (suc n) e = omega (arith, e, total-replicate f n e)

  up_or_starting : (ws : List (Thread T)) → total up ws + total starts_up ws ≡ length ws
  up_or_starting [] = refl
  up_or_starting (starting ∷ ws) = omega (arith, up_or_starting ws)
  up_or_starting (waiting ∷ ws) = omega (arith, up_or_starting ws)
  up_or_starting (running t ∷ ws) = omega (arith, up_or_starting ws)
  up_or_starting (returned ∷ ws) = omega (arith, up_or_starting ws)

  record Counts (n : ℕ) (p : ThreadPool T) : Type 0 where
    size : length p.threads ≡ n
    active : p.active ≡ total runs p.threads
    started_up : CountsUp p.cv_started n (total up p.threads)
    ended_up : CountsUp p.future_ended 1 (total left p.threads)

  Reach-Counts : {n : ℕ} {p : ThreadPool T} → Reach n p → Counts n p
  Reach-Counts {n} started = record {
    size = length-replicate n starting;
    active = sym (total-replicate runs n refl);
    started_up = record { var = sym (total-replicate up n refl); setter = refl; pred = refl };
    ended_up = record { var = sym (total-replicate left n refl); setter = refl; pred = refl };
  }
  Reach-Counts (later r (queues t)) =
      let c = Reach-Counts r in
      record { size = c.size; active = c.active; started_up = c.started_up; ended_up = c.ended_up }
  Reach-Counts (later r clears) =
      let c = Reach-Counts r in
      record { size = c.size; active = c.active; started_up = c.started_up; ended_up = c.ended_up }
  Reach-Counts (later {p} r (starts i e)) =
      let c = Reach-Counts r in
      record {
        size = length-set p.threads i waiting ∙ c.size;
        active = omega (arith, c.active, total-set runs p.threads i starting waiting e);
        started_up =
            set_var-CountsUp p.cv_started _ _ _
              (omega (arith, total-set up p.threads i starting waiting e)) c.started_up;
        ended_up =
            same-CountsUp p.future_ended 1 _ _
              (omega (arith, total-set left p.threads i starting waiting e)) c.ended_up;
      }
  Reach-Counts (later {p} r (gets i t q e w)) =
      let c = Reach-Counts r in
      record {
        size = length-set p.threads i (running t) ∙ c.size;
        active = omega (arith, c.active, total-set runs p.threads i waiting (running t) e);
        started_up =
            same-CountsUp p.cv_started _ _ _
              (omega (arith, total-set up p.threads i waiting (running t) e)) c.started_up;
        ended_up =
            same-CountsUp p.future_ended 1 _ _
              (omega (arith, total-set left p.threads i waiting (running t) e)) c.ended_up;
      }
  Reach-Counts (later {p} r (ends i t e)) =
      let c = Reach-Counts r in
      record {
        size = length-set p.threads i waiting ∙ c.size;
        active = omega (arith, c.active, total-set runs p.threads i (running t) waiting e);
        started_up =
            same-CountsUp p.cv_started _ _ _
              (omega (arith, total-set up p.threads i (running t) waiting e)) c.started_up;
        ended_up =
            same-CountsUp p.future_ended 1 _ _
              (omega (arith, total-set left p.threads i (running t) waiting e)) c.ended_up;
      }
  Reach-Counts (later {p} r (throws i t e)) =
      let c = Reach-Counts r in
      record {
        size = length-set p.threads i returned ∙ c.size;
        active = omega (arith, c.active, total-set runs p.threads i (running t) returned e);
        started_up =
            same-CountsUp p.cv_started _ _ _
              (omega (arith, total-set up p.threads i (running t) returned e)) c.started_up;
        ended_up =
            set_var-CountsUp p.future_ended 1 _ _
              (omega (arith, total-set left p.threads i (running t) returned e)) c.ended_up;
      }
  Reach-Counts (later {p} r (leaves i e w)) =
      let c = Reach-Counts r in
      record {
        size = length-set p.threads i returned ∙ c.size;
        active = omega (arith, c.active, total-set runs p.threads i waiting returned e);
        started_up =
            same-CountsUp p.cv_started _ _ _
              (omega (arith, total-set up p.threads i waiting returned e)) c.started_up;
        ended_up =
            set_var-CountsUp p.future_ended 1 _ _
              (omega (arith, total-set left p.threads i waiting returned e)) c.ended_up;
      }

  -- In every run of a pool with n threads _active is the number of threads that run a task, the
  -- wait of start_thread is over if and only if every thread has started, and the wait of
  -- clear_threads is over if and only if some thread has left its loop.
  pub Reach-active :
      {n : ℕ} {p : ThreadPool T}
      → Reach n p
      → (p.active ≡ total runs p.threads)
        × ((is_over p.cv_started ≡ true) ↔ (total starts_up p.threads ≡ 0))
        × ((is_over p.future_ended ≡ true) ↔ (0 < total left p.threads))
  Reach-active {n = n} {p = p} r =
      let c = Reach-Counts r in
      let (a, b) = CountsUp-is_over p.cv_started n _ c.started_up in
      let (d, e) = CountsUp-is_over p.future_ended 1 _ c.ended_up in
      let s = up_or_starting p.threads in
      (
        c.active,
        (λ h. omega (arith, a h, s, c.size), λ h. b (omega (arith, h, s, c.size))),
        (λ h. omega (arith, d h), λ h. e (omega (arith, h))),
      )
