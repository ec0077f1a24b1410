-- ===== src/Queue/Walk.antt =====
-- The walks over the elements of the priority queue.
use mathlib.Core.List.{Perm, perm_middle, perm_append_comm, perm_append_singleton}
use mathlib.Core.List.Perm
use cmdr_cxx.Base.{Bool, true, false, List, [], ◌∷◌, ◌++◌, append_assoc, ◌≡◌, refl, sym, ap, ◌∙◌}
use cmdr_cxx.Queue.{Element, null, element}
use cmdr_cxx.Queue.Drain.{order_of, elements_reverse}

module _ {T : Type 0} where
  -- LNR(fn), LRN(fn), NLR(fn) and RNL(fn): the lists of the elements that fn is called with.
  pub lnr : Element T → List (List T)
  lnr null = []
  lnr (element xs v left right) = lnr left ++ xs ∷ lnr right

  pub lrn : Element T → List (List T)
  lrn null = []
  lrn (element xs v left right) = lrn left ++ (lrn right ++ xs ∷ [])

  pub nlr : Element T → List (List T)
  unfolding lnr
  nlr null = []
  nlr (element xs v left right) = xs ∷ (lnr left ++ lnr right)

  pub rnl : Element T → List (List T)
  unfolding lrn
  rnl null = []
  rnl (element xs v left right) = lrn right ++ xs ∷ lrn left

  -- dump(fn) at the root, with ReverseComp
  pub dump : Bool → Element T → List (List T)
  unfolding lnr rnl
  dump true root = lnr root
  dump false root = rnl root

  abbrev concat : List (List T) → List T
  concat [] = []
  concat (xs ∷ xss) = xs ++ concat xss

  concat-append : (xss yss : List (List T)) → concat (xss ++ yss) ≡ concat xss ++ concat yss
  concat-append [] yss = refl
  concat-append (xs ∷ xss) yss =
      ap (◌++◌ xs) (concat-append xss yss) ∙ sym (append_assoc xs (concat xss) (concat yss))

  -- lnr meets the values in the order in which the pops of a queue with ReverseComp give them.
  pub lnr-order_of : (e : Element T) → concat (lnr e) ≡ order_of true e
  unfolding lnr elements_reverse
  lnr-order_of null = refl
  lnr-order_of (element xs v left right) =
      concat-append (lnr left) (xs ∷ lnr right)
      ∙ ap (λ l. l ++ (xs ++ concat (lnr right))) (lnr-order_of left)
      ∙ ap (λ l. order_of true left ++ (xs ++ l)) (lnr-order_of right)

  lrn-perm : (e : Element T) → Perm (lrn e) (lnr e)
  unfolding lrn lnr
  lrn-perm null = Perm.nil
  lrn-perm (element xs v left right) =
      Perm.trans (Perm.append_right (lrn right ++ xs ∷ []) (lrn-perm left)) (
        Perm.append_left (lnr left)
          (Perm.trans (perm_append_singleton xs (lrn right)) (Perm.cons xs (lrn-perm right))))

  nlr-perm : (e : Element T) → Perm (nlr e) (lnr e)
  unfolding nlr lnr
  nlr-perm null = Perm.nil
  nlr-perm (element xs v left right) = Perm.symm (perm_middle (lnr left) (lnr right))

  rnl-perm : (e : Element T) → Perm (rnl e) (lnr e)
  unfolding rnl lnr
  rnl-perm null = Perm.nil
  rnl-perm (element xs v left right) =
      Perm.trans (Perm.append_right (xs ∷ lrn left) (lrn-perm right)) (
        Perm.trans (perm_append_comm (lnr right) (xs ∷ lrn left)) (
          Perm.trans (Perm.cons xs (Perm.append_right (lnr right) (lrn-perm left)))
            (Perm.symm (perm_middle (lnr left) (lnr right)))))

  -- A dump calls fn with every element of the queue, each once, and with ReverseComp it meets the
  -- values in the order in which pop gives them.
  pub dump-perm :
      (reverse_comp : Bool) (root : Element T)
      → Perm (dump reverse_comp root) (lnr root) × (concat (dump true root) ≡ order_of true root)
  unfolding dump
  dump-perm true root = (Perm.refl _, lnr-order_of root)
  dump-perm false root = (rnl-perm root, lnr-order_of root)
