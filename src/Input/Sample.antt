-- ===== src/Input/Sample.antt =====
-- Values of the parameters of the comparison of prover inputs: an insertion sort, and a JSON that writes
-- the version, the state nodes and the codes.
use mathlib.Core.Logic.Or
use mathlib.Core.List.{Perm, Pairwise, Pairwise-singleton, mem-cons}
use mathlib.Core.List.Perm
use text.Mathlib.Text.{◌==◌ as ◌=s=◌}
use text.Mathlib.TextEquality.{eq_iff}
use zk_pig.Base.{
  ℕ, suc, Option, none, some, List, [], ◌∷◌, Bool, true, false, if◌then◌else◌, Slice, Bytes,
  Bool-cases, inl, inr, error, Outcome, ok, err, panic, ◌>>=◌, ◌≡◌, ◌≢◌, ◌↔◌, refl, sym, ◌∙◌, arith,
}
use zk_pig.Input.{Witness, ProverInput}
use zk_pig.Input.Normalize.{JsonLib}
use zk_pig.Input.Sorting.{IsWeakOrder, IsSort}
use zk_pig.Input.Compared.{texts, View, SameWitness, IsJson, IsIndented}

module _ (less : Slice ℕ → Slice ℕ → Bool) where
  insert : Slice ℕ → List (Slice ℕ) → List (Slice ℕ)
  insert x [] = x ∷ []
  insert x (y ∷ ys) = if less y x then y ∷ insert x ys else x ∷ y ∷ ys

  unfoldable pub insertion_sort : List (Slice ℕ) → List (Slice ℕ)
  unfolding insert
  insertion_sort [] = []
  insertion_sort (x ∷ xs) = insert x (insertion_sort xs)

  insert-perm : (x : Slice ℕ) (xs : List (Slice ℕ)) → Perm (insert x xs) (x ∷ xs)
  unfolding insert
  insert-perm x [] = Perm.rfl
  insert-perm x (y ∷ ys) = elim (Bool-cases (less y x)) [
    | inl e ↦ rw e (Perm.trans (Perm.cons y (insert-perm x ys)) (Perm.swap x y ys))
    | inr e ↦ rw e Perm.rfl
  ]

  insertion_sort-perm : (xs : List (Slice ℕ)) → Perm (insertion_sort xs) xs
  unfolding insertion_sort
  insertion_sort-perm [] = Perm.rfl
  insertion_sort-perm (x ∷ xs) =
      Perm.trans (insert-perm x (insertion_sort xs)) (Perm.cons x (insertion_sort-perm xs))

  module _ (W : IsWeakOrder less) where
    abbrev Ordered : List (Slice ℕ) → Type 0
    Ordered = Pairwise (λ a b. less b a ≡ false)

    less_asymm : (a b : Slice ℕ) → less a b ≡ true → less b a ≡ false
    less_asymm a b h = elim (Bool-cases (less b a)) [
      | inl e ↦ cc (W.trans a b a h e, W.irrefl a)
      | inr e ↦ e
    ]

    insert-Ordered : (x : Slice ℕ) {xs : List (Slice ℕ)} → Ordered xs → Ordered (insert x xs)
    unfolding insert
    insert-Ordered x Pairwise.nil = Pairwise-singleton _ x
    insert-Ordered x (Pairwise.cons {a = y} {l = ys} below s) = elim (Bool-cases (less y x)) [
      | inl e ↦ rw e (
          Pairwise.cons
            (λ b m.
              Or.elim (hlevel) (mem-cons.0 ((Perm.mem_iff (insert-perm x ys)).0 m))
                (λ same. rw same (less_asymm y x e)) (below b))
            (insert-Ordered x s))
      | inr e ↦ rw e (
          Pairwise.cons
            (λ b m.
              Or.elim (hlevel) (mem-cons.0 m) (λ same. rw same e)
                (λ m'. W.cotrans b y x (below b m') e))
            (Pairwise.cons below s))
    ]

    insertion_sort-Ordered : (xs : List (Slice ℕ)) → Ordered (insertion_sort xs)
    unfolding insertion_sort
    insertion_sort-Ordered [] = Pairwise.nil
    insertion_sort-Ordered (x ∷ xs) = insert-Ordered x (insertion_sort-Ordered xs)

pub insertion_sort-IsSort : IsSort insertion_sort
insertion_sort-IsSort = record { perm = insertion_sort-perm; sorted = insertion_sort-Ordered }

-- A byte string, whose end is marked.
write_bytes : Bytes → Bytes → Bytes
write_bytes [] rest = 0 ∷ rest
write_bytes (b ∷ bs) rest = suc b ∷ write_bytes bs rest

write_all : List Bytes → Bytes → Bytes
unfolding write_bytes
write_all [] rest = 0 ∷ rest
write_all (t ∷ ts) rest = 1 ∷ write_bytes t (write_all ts rest)

write_texts : Option (List Bytes) → Bytes → Bytes
unfolding write_all
write_texts none rest = 0 ∷ rest
write_texts (some ts) rest = 1 ∷ write_all ts rest

write_bytes_inj : (a b r s : Bytes) → write_bytes a r ≡ write_bytes b s → (a ≡ b) × (r ≡ s)
unfolding write_bytes
write_bytes_inj [] [] r s h = (refl, cc)
write_bytes_inj [] (b ∷ bs) r s h = cc
write_bytes_inj (a ∷ as') [] r s h = cc
write_bytes_inj (a ∷ as') (b ∷ bs) r s h =
    let ih = write_bytes_inj as' bs r s (cc) in (cc (ih.0), ih.1)

write_all_inj : (a b : List Bytes) (r s : Bytes) → write_all a r ≡ write_all b s → (a ≡ b) × (r ≡ s)
unfolding write_all
write_all_inj [] [] r s h = (refl, cc)
write_all_inj [] (b ∷ bs) r s h = cc
write_all_inj (a ∷ as') [] r s h = cc
write_all_inj (a ∷ as') (b ∷ bs) r s h =
    let head = write_bytes_inj a b (write_all as' r) (write_all bs s) (cc) in
    let ih = write_all_inj as' bs r s head.1 in (cc (head.0, ih.0), ih.1)

write_texts_inj :
    (a b : Option (List Bytes)) (r s : Bytes)
    → write_texts a r ≡ write_texts b s
    → (a ≡ b) × (r ≡ s)
unfolding write_texts
write_texts_inj none none r s h = (refl, cc)
write_texts_inj none (some b) r s h = cc
write_texts_inj (some a) none r s h = cc
write_texts_inj (some a) (some b) r s h =
    let parts = write_all_inj a b r s (cc) in (cc (parts.0), parts.1)

write_witness : Option Witness → Bytes
unfolding write_texts
write_witness none = 0 ∷ []
write_witness (some w) = 1 ∷ write_texts (texts w.state) (write_texts (texts w.codes) [])

module _ (Tx : Type 0) where
  -- Only inputs without a version have a text.
  unfoldable pub sample_marshal : Option (ProverInput Tx) → Outcome Bytes
  unfolding write_witness
  sample_marshal none = ok []
  sample_marshal (some p) =
      if p.version =s= "" then ok (2 ∷ write_witness p.witness) else err (error "version")

  abbrev pub sample_json : JsonLib Tx
  sample_json = record { marshal = sample_marshal; marshal_indent = sample_marshal }

  -- It writes nothing of the blocks, the ancestors and the chain configuration.
  abbrev pub sample_view : View Tx
  sample_view = record {
    Blocks = Unit {0};
    blocks = λ b. tt;
    Ancestors = Unit {0};
    ancestors = λ a. tt;
    Config = Unit {0};
    config = λ c. tt;
  }

  write_witness_iff :
      (v w : Option Witness) → (write_witness v ≡ write_witness w) ↔ SameWitness sample_view v w
  unfolding write_witness
  write_witness_iff none none = (λ h. tt, λ h. refl)
  write_witness_iff none (some w) = (λ h. cc, λ h. absurd h)
  write_witness_iff (some v) none = (λ h. cc, λ h. absurd h)
  write_witness_iff (some v) (some w) = (
    λ h.
        let states =
          write_texts_inj (texts v.state) (texts w.state) (write_texts (texts v.codes) [])
            (write_texts (texts w.codes) []) (cc) in
        let codes = write_texts_inj (texts v.codes) (texts w.codes) [] [] states.1 in
        (states.0, refl, codes.0),
    λ (s, a, c). rw (s, c) refl,
  )

  sample_marshal-eq_ok :
      (p : ProverInput Tx) {x : Bytes}
      → sample_marshal (some p) ≡ ok x
      → (p.version ≡ "") × (x ≡ 2 ∷ write_witness p.witness)
  unfolding sample_marshal
  sample_marshal-eq_ok p h = elim (Bool-cases (p.version =s= "")) [
    | inl e ↦ ((eq_iff p.version "").0 e, cc (rw e at h))
    | inr e ↦ cc (rw e at h)
  ]

  pub sample_json-IsJson : IsJson sample_view sample_json
  sample_json-IsJson = record {
    marshal-eq_iff = λ p q h k.
        let a = sample_marshal-eq_ok p h in
        let b = sample_marshal-eq_ok q k in
        (
          λ e. (
            a.0 ∙ sym b.0,
            refl,
            (write_witness_iff p.witness q.witness).0 (cc (a.1, b.1, e)),
            refl,
          ),
          λ (v, bs, w, c). cc (a.1, b.1, (write_witness_iff p.witness q.witness).1 w),
        );
  }

  sample_marshal_lem :
      (o : Option (ProverInput Tx)) → sample_marshal o ≡ (do x ← sample_marshal o; ok x)
  sample_marshal_lem o = of (sample_marshal o)
    where
      of : (r : Outcome Bytes) → r ≡ (do x ← r; ok x)
      of (ok x) = refl
      of (err e) = refl
      of panic = refl

  sample_marshal_returns : (o : Option (ProverInput Tx)) → sample_marshal o ≢ panic
  unfolding sample_marshal
  sample_marshal_returns none h = cc
  sample_marshal_returns (some p) h = ground arith

  pub sample_json-IsIndented : IsIndented sample_json
  unfolding sample_marshal
  sample_json-IsIndented = record {
    indent = λ x. x;
    indent_inj = λ x y h. h;
    marshal_indent_lem = sample_marshal_lem;
    null = [];
    marshal-none = refl;
    marshal-some = λ p h. cc ((sample_marshal-eq_ok p h).1);
    marshal_returns = sample_marshal_returns;
  }
