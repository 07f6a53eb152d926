-- ===== src/Input/Compared.antt =====
-- When `CompareProverInput` of src/prover-input/testutils.go finds two prover inputs equal, and that
-- `CompareProverInputWithDiff` finds the same.
use mathlib.Core.List.{Perm}
use mathlib.Core.List.Perm
use zk_pig.Base.{
  ℕ, Option, none, some, List, [], ◌∷◌, map, Bool, true, false, Slice, items, Bytes, bytes_eq,
  bytes_eq_sound, bytes_eq_refl, Bool-cases, inl, inr, Outcome, ok, err, panic, ◌>>=◌, ok_inj, ◌≡◌,
  ◌≢◌, ◌↔◌, refl, sym, ap,
}
use zk_pig.Geth.Types.{Header, ChainConfig}
use zk_pig.Input.{Witness, Block, ProverInput}
use zk_pig.Input.Normalize.{
  Sorter, JsonLib, sorted_items, normalize_witness, normalize_prover_input, same_json,
  compare_prover_input, Diff, no_diff, diff_json, compare_prover_input_with_diff,
}
use zk_pig.Input.Sorting.{IsSort, sorted_bytes-eq_iff}

-- What JSON writes of a slice of byte strings: a nil slice is null, a nil string is an empty one.
abbrev pub texts : Slice (Slice ℕ) → Option (List Bytes)
texts none = none
texts (some xs) = some (map items xs)

-- What JSON writes of the other parts of a prover input.
pub record View (Tx : Type 0) : Type 1 where
  pub Blocks : Type 0
  pub blocks : Slice (Option (Block Tx)) → Blocks
  pub Ancestors : Type 0
  pub ancestors : Slice (Option Header) → Ancestors
  pub Config : Type 0
  pub config : Option ChainConfig → Config

module _ {Tx : Type 0} (V : View Tx) where
  -- Two witnesses with the same JSON.
  abbrev pub SameWitness : Option Witness → Option Witness → Type 0
  SameWitness none none = Unit {0}
  SameWitness none (some w) = ⊥
  SameWitness (some v) none = ⊥
  SameWitness (some v) (some w) =
      (texts v.state ≡ texts w.state)
      × (V.ancestors v.ancestors ≡ V.ancestors w.ancestors)
      × (texts v.codes ≡ texts w.codes)

  -- Two witnesses with the same ancestors, and the same state nodes and codes in any order.
  abbrev pub SameUpToOrder : Option Witness → Option Witness → Type 0
  SameUpToOrder none none = Unit {0}
  SameUpToOrder none (some w) = ⊥
  SameUpToOrder (some v) none = ⊥
  SameUpToOrder (some v) (some w) =
      Perm (map items (items v.state)) (map items (items w.state))
      × (V.ancestors v.ancestors ≡ V.ancestors w.ancestors)
      × Perm (map items (items v.codes)) (map items (items w.codes))

  -- `json.Marshal` writes what the view sees, and `json.MarshalIndent` lays the same text out.
  pub record IsJson (J : JsonLib Tx) : Type 0 where
    pub marshal-eq_iff :
        (p q : ProverInput Tx) {x y : Bytes}
        → J.marshal (some p) ≡ ok x
        → J.marshal (some q) ≡ ok y
        → (x ≡ y) ↔ (
            (p.version ≡ q.version)
            × (V.blocks p.blocks ≡ V.blocks q.blocks)
            × SameWitness p.witness q.witness
            × (V.config p.chain_config ≡ V.config q.chain_config))

  module _ (sort : Sorter) (S : IsSort sort) where
    sorted_items-eq_iff :
        (xs ys : List (Slice ℕ))
        → (texts (sorted_items sort xs) ≡ texts (sorted_items sort ys))
          ↔ Perm (map items xs) (map items ys)
    sorted_items-eq_iff [] [] = (λ e. Perm.rfl, λ p. refl)
    sorted_items-eq_iff [] (y ∷ ys) = (λ e. cc, λ p. cc (Perm.nil-eq p))
    sorted_items-eq_iff (x ∷ xs) [] = (λ e. cc, λ p. cc (Perm.eq-nil p))
    sorted_items-eq_iff (x ∷ xs) (y ∷ ys) =
        let same = sorted_bytes-eq_iff sort S (x ∷ xs) (y ∷ ys) in
        (λ e. same.0 (cc), λ p. ap some (same.1 p))

    normalize_witness-SameWitness_iff :
        (v w : Option Witness)
        → SameWitness (normalize_witness sort v) (normalize_witness sort w) ↔ SameUpToOrder v w
    unfolding normalize_witness
    normalize_witness-SameWitness_iff none none = (λ e. tt, λ e. tt)
    normalize_witness-SameWitness_iff none (some w) = (λ e. e, λ e. e)
    normalize_witness-SameWitness_iff (some v) none = (λ e. e, λ e. e)
    normalize_witness-SameWitness_iff (some v) (some w) =
        let states = sorted_items-eq_iff (items v.state) (items w.state) in
        let codes = sorted_items-eq_iff (items v.codes) (items w.codes) in
        (λ (s, a, c). (states.0 s, a, codes.0 c), λ (s, a, c). (states.1 s, a, codes.1 c))

    -- For two prover inputs whose normal forms have a JSON text, `CompareProverInput` returns true
    -- exactly if JSON sees the same blocks and chain configurations, and both witnesses are nil or
    -- neither is and they have ancestors that JSON sees the same and, in any order but as often, the
    -- same state nodes and the same codes, whatever the versions are.
    pub compare_prover_input-true_iff :
        (J : JsonLib Tx)
        → IsJson J
        → (a b : ProverInput Tx) {x y : Bytes}
        → J.marshal (normalize_prover_input sort (some a)) ≡ ok x
        → J.marshal (normalize_prover_input sort (some b)) ≡ ok y
        → (compare_prover_input sort J (some a) (some b) ≡ ok true) ↔ (
            (V.blocks a.blocks ≡ V.blocks b.blocks)
            × SameUpToOrder a.witness b.witness
            × (V.config a.chain_config ≡ V.config b.chain_config))
    unfolding compare_prover_input normalize_prover_input same_json
    compare_prover_input-true_iff J L a b {x} {y} h k =
        let same = L.marshal-eq_iff _ _ h k in
        let witnesses = normalize_witness-SameWitness_iff a.witness b.witness in
        (
          λ e.
              let (v, bs, w, c) = same.0 (bytes_eq_sound x y (ok_inj (rw (h, k) at e))) in
              (bs, witnesses.0 w, c),
          λ (bs, w, c).
              rw (h, k) (rw (same.1 (refl, bs, witnesses.1 w, c)) (ap ok (bytes_eq_refl y))),
        )

-- What the longer comparison says of two texts.
abbrev pub Agrees : Outcome (Bool × Diff) → Outcome Bool → Type 0
Agrees (ok (equal, diff)) other = (other ≡ ok equal) × ((equal ≡ true) ↔ (diff ≡ no_diff))
Agrees (err e) other = ⊥
Agrees panic other = ⊥

-- `json.MarshalIndent` lays out the text of `json.Marshal`; null is the text of nil alone.
pub record IsIndented {Tx : Type 0} (J : JsonLib Tx) : Type 0 where
  pub indent : Bytes → Bytes
  pub indent_inj : (x y : Bytes) → indent x ≡ indent y → x ≡ y
  pub marshal_indent_lem :
      (o : Option (ProverInput Tx)) → J.marshal_indent o ≡ (do x ← J.marshal o; ok (indent x))
  pub null : Bytes
  pub marshal-none : J.marshal none ≡ ok null
  pub marshal-some : (p : ProverInput Tx) → J.marshal (some p) ≢ ok null
  pub marshal_returns : (o : Option (ProverInput Tx)) → J.marshal o ≢ panic

module _ {Tx : Type 0} (J : JsonLib Tx) (I : IsIndented J) where
  abbrev indented : Outcome Bytes → Outcome Bytes
  indented o = do x ← o; ok (I.indent x)

  bytes_eq-indent : (x y : Bytes) → bytes_eq (I.indent x) (I.indent y) ≡ bytes_eq x y
  bytes_eq-indent x y = elim (Bool-cases (bytes_eq x y)) [
    | inl e ↦ rw e (rw (bytes_eq_sound x y e) (bytes_eq_refl (I.indent y)))
    | inr e ↦ elim (Bool-cases (bytes_eq (I.indent x) (I.indent y))) [
      | inl e' ↦
          let same = I.indent_inj x y (bytes_eq_sound _ _ e') in
          cc (bytes_eq_refl y, ap (λ z. bytes_eq z y) same)
      | inr e' ↦ rw e e'
    ]
  ]

  diff_json-Agrees :
      (o p : Outcome Bytes)
      → o ≢ panic
      → p ≢ panic
      → Agrees (diff_json (indented o) (indented p)) (same_json o p)
  unfolding diff_json same_json
  diff_json-Agrees (ok x) (ok y) h k = elim (Bool-cases (bytes_eq x y)) [
    | inl e ↦ rw (bytes_eq-indent x y, e) (refl, (λ t. refl, λ t. refl))
    | inr e ↦ rw (bytes_eq-indent x y, e) (refl, (λ t. cc, λ t. cc))
  ]
  diff_json-Agrees (ok x) (err e) h k = (refl, (λ t. cc, λ t. cc))
  diff_json-Agrees (ok x) panic h k = absurd (k refl)
  diff_json-Agrees (err e) p h k = (refl, (λ t. cc, λ t. cc))
  diff_json-Agrees panic p h k = absurd (h refl)

  -- The text of nil is the text of nothing else.
  same_json-null :
      (o : Outcome Bytes)
      → o ≢ panic
      → o ≢ ok I.null
      → (same_json (ok I.null) o ≡ ok false) × (same_json o (ok I.null) ≡ ok false)
  unfolding same_json
  same_json-null (ok x) h k = (
    elim (Bool-cases (bytes_eq I.null x)) [
      | inl e ↦ absurd (k (ap ok (sym (bytes_eq_sound I.null x e))))
      | inr e ↦ ap ok e
    ],
    elim (Bool-cases (bytes_eq x I.null)) [
      | inl e ↦ absurd (k (ap ok (bytes_eq_sound x I.null e)))
      | inr e ↦ ap ok e
    ],
  )
  same_json-null (err e) h k = (refl, refl)
  same_json-null panic h k = absurd (h refl)

  same_json-nil : same_json (J.marshal none) (J.marshal none) ≡ ok true
  unfolding same_json
  same_json-nil = rw I.marshal-none (ap ok (bytes_eq_refl I.null))

  same_json-nil_other :
      (p : ProverInput Tx)
      → (same_json (J.marshal none) (J.marshal (some p)) ≡ ok false)
        × (same_json (J.marshal (some p)) (J.marshal none) ≡ ok false)
  same_json-nil_other p =
      rw I.marshal-none
        (same_json-null (J.marshal (some p)) (I.marshal_returns (some p)) (I.marshal-some p))

  -- `CompareProverInputWithDiff` returns, for all inputs, nil ones included, whether
  -- `CompareProverInput` finds them equal, with an empty text exactly if it does.
  pub compare_prover_input_with_diff-Agrees :
      (sort : Sorter) (a b : Option (ProverInput Tx))
      → Agrees (compare_prover_input_with_diff sort J a b) (compare_prover_input sort J a b)
  unfolding compare_prover_input_with_diff compare_prover_input normalize_prover_input
  compare_prover_input_with_diff-Agrees sort a b =
      rw
        (
          I.marshal_indent_lem (normalize_prover_input sort a),
          I.marshal_indent_lem (normalize_prover_input sort b),
        )
        (of a b)
    where
      input_of : ProverInput Tx → ProverInput Tx
      input_of p = record p { version = ""; witness = normalize_witness sort p.witness }

      agrees :
          (a b : Option (ProverInput Tx))
          → Agrees
              (diff_json
                (indented (J.marshal (normalize_prover_input sort a)))
                (indented (J.marshal (normalize_prover_input sort b))))
              (same_json
                (J.marshal (normalize_prover_input sort a))
                (J.marshal (normalize_prover_input sort b)))
      agrees a b = diff_json-Agrees _ _ (I.marshal_returns _) (I.marshal_returns _)

      of :
          (a b : Option (ProverInput Tx))
          → Agrees
              (diff_json
                (indented (J.marshal (normalize_prover_input sort a)))
                (indented (J.marshal (normalize_prover_input sort b))))
              (compare_prover_input sort J a b)
      of none none = rw (← same_json-nil) (agrees none none)
      of none (some b) = rw (← (same_json-nil_other (input_of b)).0) (agrees none (some b))
      of (some a) none = rw (← (same_json-nil_other (input_of a)).1) (agrees (some a) none)
      of (some a) (some b) = agrees (some a) (some b)
