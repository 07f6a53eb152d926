-- ===== src/Input/Sorting.antt =====
-- What `sort.Slice` promises, and that the order of byte strings leaves it no choice but nil and empty
-- strings.
use mathlib.Core.Logic.Or
use mathlib.Core.List.{Mem, Perm, Pairwise, Pairwise-map, mem-cons, mem-cons_self}
use mathlib.Core.List.Pairwise
use mathlib.Core.List.Perm
use zk_pig.Base.{
  ℕ, List, [], ◌∷◌, map, Bool, true, false, Slice, items, Bytes, bytes_less, bytes_less_trans,
  bytes_less_cotrans, bytes_less_irrefl, bytes_less_antisymm, ◌≡◌, ◌↔◌, ap₂,
}
use zk_pig.Input.Normalize.{Sorter, slice_less}

-- The requirement of `sort.Interface` on `Less`: a strict weak order.
pub record IsWeakOrder (less : Slice ℕ → Slice ℕ → Bool) : Type 0 where
  pub irrefl : (a : Slice ℕ) → less a a ≡ false
  pub trans : (a b c : Slice ℕ) → less a b ≡ true → less b c ≡ true → less a c ≡ true
  pub cotrans : (a b c : Slice ℕ) → less a b ≡ false → less b c ≡ false → less a c ≡ false

-- The elements are rearranged, so that none is less than one before it.
pub record IsSort (sort : Sorter) : Type 0 where
  pub perm : (less : Slice ℕ → Slice ℕ → Bool) (xs : List (Slice ℕ)) → Perm (sort less xs) xs
  pub sorted :
      (less : Slice ℕ → Slice ℕ → Bool)
      → IsWeakOrder less
      → (xs : List (Slice ℕ)) → Pairwise (λ a b. less b a ≡ false) (sort less xs)

pub slice_less-IsWeakOrder : IsWeakOrder slice_less
slice_less-IsWeakOrder = record {
  irrefl = λ a. bytes_less_irrefl (items a);
  trans = λ a b c. bytes_less_trans (items a) (items b) (items c);
  cotrans = λ a b c. bytes_less_cotrans (items a) (items b) (items c);
}

abbrev pub Ascending : List Bytes → Type 0
Ascending = Pairwise (λ a b. bytes_less b a ≡ false)

head_least :
    (a : Bytes) {b : Bytes} {l : List Bytes}
    → Ascending (a ∷ l)
    → Mem b (a ∷ l)
    → bytes_less b a ≡ false
head_least a {b} (Pairwise.cons below s) m =
    Or.elim (hlevel) (mem-cons.0 m) (λ e. rw e (bytes_less_irrefl a)) (below b)

-- Ascending byte strings are in the only order that they can have.
pub Ascending-eq_of_perm : (l r : List Bytes) → Ascending l → Ascending r → Perm l r → l ≡ r
Ascending-eq_of_perm [] r sl sr p = Perm.nil-eq p
Ascending-eq_of_perm (a ∷ l) [] sl sr p = Perm.eq-nil p
Ascending-eq_of_perm (a ∷ l) (b ∷ r) sl sr p =
    let heads : a ≡ b =
      bytes_less_antisymm a b (head_least b sr ((Perm.mem_iff p).0 mem-cons_self))
        (head_least a sl ((Perm.mem_iff p).1 mem-cons_self)) in
    let tails = Perm.cons_inv (Perm.trans p (Perm.symm (Perm.cons' heads Perm.rfl))) in
    ap₂ ◌∷◌ heads (Ascending-eq_of_perm l r (Pairwise.of_cons sl) (Pairwise.of_cons sr) tails)

module _ (sort : Sorter) (S : IsSort sort) where
  abbrev pub sorted_bytes : List (Slice ℕ) → List Bytes
  sorted_bytes xs = map items (sort slice_less xs)

  sorted_bytes-perm : (xs : List (Slice ℕ)) → Perm (sorted_bytes xs) (map items xs)
  sorted_bytes-perm xs = Perm.map items (S.perm slice_less xs)

  sorted_bytes-Ascending : (xs : List (Slice ℕ)) → Ascending (sorted_bytes xs)
  sorted_bytes-Ascending xs =
      (Pairwise-map (λ a b. hlevel) items).1 (S.sorted slice_less slice_less-IsWeakOrder xs)

  -- Two slices have the same sorted byte strings exactly if they hold the same ones, as often.
  pub sorted_bytes-eq_iff :
      (xs ys : List (Slice ℕ))
      → (sorted_bytes xs ≡ sorted_bytes ys) ↔ Perm (map items xs) (map items ys)
  sorted_bytes-eq_iff xs ys = (
    λ e. Perm.trans (Perm.symm (sorted_bytes-perm xs)) (rw e (sorted_bytes-perm ys)),
    λ p.
        Ascending-eq_of_perm (sorted_bytes xs) (sorted_bytes ys) (sorted_bytes-Ascending xs)
          (sorted_bytes-Ascending ys)
          (Perm.trans (sorted_bytes-perm xs) (Perm.trans p (Perm.symm (sorted_bytes-perm ys)))),
  )
