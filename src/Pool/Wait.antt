-- ===== src/Pool/Wait.antt =====
-- conditional_wait: what the waiting thread waits for, and what set() does to it under the mutex.
-- The time limits of wait_for and wait_until are not in the model.
use cmdr_cxx.Base.{ℕ, zero, suc, Bool, true, false, leb}

-- conditional_wait<T, Pred, Setter>
pub record ConditionalWait (T : Type 0) : Type 0 where
  pub pred : T → Bool
  pub setter : T → T
  pub var : T

module _ {T : Type 0} where
  -- set() and set_for_all(): the part under the mutex.
  unfoldable pub set_var : ConditionalWait T → ConditionalWait T
  set_var c = record c { var = c.setter c.var }

  -- wait() is over.
  abbrev pub is_over : ConditionalWait T → Bool
  is_over c = c.pred c.var

-- conditional_wait_for_bool, and its kill().
abbrev pub wait_for_bool : ConditionalWait Bool
wait_for_bool = record { pred = λ b. b; setter = λ b. true; var = false }

-- conditional_wait_for_int(max_value). The count stays far below the bound of int.
abbrev pub wait_for_int : ℕ → ConditionalWait ℕ
wait_for_int max_value = record { pred = leb max_value; setter = suc; var = 0 }

abbrev pub set_times : {T : Type 0} → ℕ → ConditionalWait T → ConditionalWait T
set_times zero c = c
set_times (suc n) c = set_var (set_times n c)
