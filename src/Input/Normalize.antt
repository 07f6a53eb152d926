-- ===== src/Input/Normalize.antt =====
-- src/prover-input/testutils.go: the normal form of a prover input, in which two inputs are compared.
-- `sort.Slice` and `encoding/json` are parameters. A text that says how two inputs differ is a value of
-- `Diff`.
use zk_pig.Base.{
  ℕ, Option, none, some, List, [], ◌∷◌, Bool, true, false, if◌then◌else◌, Slice, items, Bytes,
  bytes_less, bytes_eq, Error, Outcome, ok, err, panic,
}
use zk_pig.Input.{Witness, ProverInput}

-- `sort.Slice`, which is given how two elements compare
abbrev pub Sorter : Type 0
Sorter = (Slice ℕ → Slice ℕ → Bool) → List (Slice ℕ) → List (Slice ℕ)

-- `json.Marshal` and `json.MarshalIndent`
pub record JsonLib (Tx : Type 0) : Type 0 where
  pub marshal : Option (ProverInput Tx) → Outcome Bytes
  pub marshal_indent : Option (ProverInput Tx) → Outcome Bytes

-- `bytes.Compare(a, b) < 0`
abbrev pub slice_less : Slice ℕ → Slice ℕ → Bool
slice_less a b = bytes_less (items a) (items b)

-- The text that `CompareProverInputWithDiff` returns.
pub data Diff : Type 0 where
  no_diff : Diff
  first_failed : Error → Diff
  second_failed : Error → Diff
  inputs_differ : Bytes → Bytes → Diff

unfoldable pub same_json : Outcome Bytes → Outcome Bytes → Outcome Bool
same_json (ok x) (ok y) = ok (bytes_eq x y)
same_json (ok x) (err e) = ok false
same_json (ok x) panic = panic
same_json (err e) other = ok false
same_json panic other = panic

unfoldable pub diff_json : Outcome Bytes → Outcome Bytes → Outcome (Bool × Diff)
diff_json (ok x) (ok y) = if bytes_eq x y then ok (true, no_diff) else ok (false, inputs_differ x y)
diff_json (ok x) (err e) = ok (false, second_failed e)
diff_json (ok x) panic = panic
diff_json (err e) other = ok (false, first_failed e)
diff_json panic other = panic

module _ (sort : Sorter) where
  -- What is sorted of a slice, which stays nil if it has no elements.
  abbrev pub sorted_items : List (Slice ℕ) → Slice (Slice ℕ)
  sorted_items [] = none
  sorted_items (x ∷ xs) = some (sort slice_less (x ∷ xs))

  unfoldable pub normalize_witness : Option Witness → Option Witness
  normalize_witness none = none
  normalize_witness (some w) = some (record {
    state = sorted_items (items w.state);
    ancestors = w.ancestors;
    codes = sorted_items (items w.codes);
  })

  module _ {Tx : Type 0} where
    unfoldable pub normalize_prover_input : Option (ProverInput Tx) → Option (ProverInput Tx)
    unfolding normalize_witness
    normalize_prover_input none = none
    normalize_prover_input (some input) = some (record {
      version = "";
      blocks = input.blocks;
      witness = normalize_witness input.witness;
      chain_config = input.chain_config;
    })

    module _ (J : JsonLib Tx) where
      unfoldable pub compare_prover_input :
          Option (ProverInput Tx) → Option (ProverInput Tx) → Outcome Bool
      unfolding normalize_prover_input same_json
      compare_prover_input none none = ok true
      compare_prover_input none (some b) = ok false
      compare_prover_input (some a) none = ok false
      compare_prover_input (some a) (some b) =
          same_json (J.marshal (normalize_prover_input (some a)))
            (J.marshal (normalize_prover_input (some b)))

      unfoldable pub compare_prover_input_with_diff :
          Option (ProverInput Tx) → Option (ProverInput Tx) → Outcome (Bool × Diff)
      unfolding normalize_prover_input diff_json
      compare_prover_input_with_diff a b =
          diff_json (J.marshal_indent (normalize_prover_input a))
            (J.marshal_indent (normalize_prover_input b))
