-- ===== src/Wiring/Gather.antt =====
-- Lists as sets: what a list of lists has together, and tests of every member.
use realtime_ops_platform.Prelude.{
  List, [], ◌∷◌, ◌++◌, ◌≡◌, Bool, true, false, ◌&&◌, ◌||◌, sym, arith, subst, inl, inr,
}
use mathlib.Core.Logic.{∥∥₁_elim}
use mathlib.Core.List.{
  Mem, mem-cons_self, mem-cons_of_mem, eq-or-mem_of_mem-cons, mem-append, mem-append_left,
  mem-append_right, not-mem-nil,
}

module _ {A B : Type 0} where
  abbrev pub gather : (A → List B) → List A → List B
  gather f [] = []
  gather f (x ∷ xs) = f x ++ gather f xs

module _ {B : Type 0} where
  -- every member of one list is one of the other
  abbrev pub Within : List B → List B → Type 0
  Within xs ys = (x : B) → Mem x xs → Mem x ys

  pub append-Within :
      (xs ys us vs : List B) → Within xs us → Within ys vs → Within (xs ++ ys) (us ++ vs)
  append-Within xs ys us vs f g x m =
      ∥∥₁_elim (mem-append.0 m) (hlevel)
        (λ s. elim s [ inl l ↦ mem-append_left vs (f x l) | inr r ↦ mem-append_right us (g x r) ])

  unfoldable pub every : (B → Bool) → List B → Bool
  every p [] = true
  every p (x ∷ xs) = p x && every p xs

  pub every-Mem : (p : B → Bool) (xs : List B) → every p xs ≡ true → (x : B) → Mem x xs → p x ≡ true
  unfolding every
  every-Mem p [] e x m = absurd (not-mem-nil m)
  every-Mem p (y ∷ ys) e x m = ∥∥₁_elim (eq-or-mem_of_mem-cons m) (hlevel) (λ s. elim s [
    | inl same ↦ subst (λ z. p z ≡ true) (sym same) (ground arith)
    | inr later ↦ every-Mem p ys (ground arith) x later
  ])

  module _ (same : Discrete B) where
    abbrev pub has : List B → B → Bool
    has [] x = false
    has (y ∷ ys) x = (elim (same x y) [ yes e ↦ true | no e ↦ false ]) || has ys x

    pub has-Mem : (ys : List B) (x : B) → has ys x ≡ true → Mem x ys
    has-Mem [] x e = absurd (cc)
    has-Mem (y ∷ ys) x e =
        elim (same x y)
            as (λ d.
              ((elim d [ yes q ↦ true | no q ↦ false ]) || has ys x) ≡ true → Mem x (y ∷ ys)) [
                | yes p ↦ λ f. subst (λ z. Mem z (y ∷ ys)) (sym p) mem-cons_self
                | no p ↦ λ f. mem-cons_of_mem y (has-Mem ys x f)
              ]
          e

module _ {A B : Type 0} where
  pub gather-Within :
      (f g : A → List B) (xs : List A)
      → ((a : A) → Within (f a) (g a))
      → Within (gather f xs) (gather g xs)
  gather-Within f g [] w = λ x m. m
  gather-Within f g (a ∷ xs) w =
      append-Within (f a) (gather f xs) (g a) (gather g xs) (w a) (gather-Within f g xs w)
