-- ===== src/Input/Tests.antt =====
-- Tests of the comparison of prover inputs, and its theorems at concrete inputs.
use zk_pig.Base.{
  ℕ, none, some, List, [], ◌∷◌, true, Slice, bytes_less, bytes_eq, ok, ◌≡◌, ◌↔◌, refl,
}
use zk_pig.Input.{ProverInput}
use zk_pig.Input.Normalize.{
  normalize_prover_input, compare_prover_input, compare_prover_input_with_diff,
}
use zk_pig.Input.Compared.{
  SameUpToOrder, Agrees, compare_prover_input-true_iff, compare_prover_input_with_diff-Agrees,
}
use zk_pig.Input.Sample.{
  insertion_sort, insertion_sort-IsSort, sample_marshal, sample_json, sample_view,
  sample_json-IsJson, sample_json-IsIndented,
}

abbrev Tx : Type 0
Tx = Unit {0}

-- Codes in one order and in the other, an empty code among them that may be nil.
abbrev input_with : Slice (Slice ℕ) → ProverInput Tx
input_with codes = record {
  version = "";
  blocks = none;
  witness = some (record { state = none; ancestors = none; codes = codes });
  chain_config = none;
}

abbrev first : ProverInput Tx
first = input_with (some (some (2 ∷ 1 ∷ []) ∷ none ∷ some (2 ∷ []) ∷ []))

abbrev second : ProverInput Tx
second = record (input_with (some (some [] ∷ some (2 ∷ []) ∷ some (2 ∷ 1 ∷ []) ∷ []))) {
  version = "2";
}

abbrev text : List ℕ
text = 2 ∷ 1 ∷ 0 ∷ 1 ∷ 1 ∷ 0 ∷ 1 ∷ 3 ∷ 0 ∷ 1 ∷ 3 ∷ 2 ∷ 0 ∷ 0 ∷ []

first-text : sample_marshal Tx (normalize_prover_input insertion_sort (some first)) ≡ ok text
unfolding sample_marshal normalize_prover_input insertion_sort bytes_less
first-text = refl

second-text : sample_marshal Tx (normalize_prover_input insertion_sort (some second)) ≡ ok text
unfolding sample_marshal normalize_prover_input insertion_sort bytes_less
second-text = refl

same_in_any_order :
    compare_prover_input insertion_sort (sample_json Tx) (some first) (some second) ≡ ok true
unfolding compare_prover_input sample_marshal insertion_sort bytes_less bytes_eq
same_in_any_order = refl

compare_prover_input-true_iff_example :
    (compare_prover_input insertion_sort (sample_json Tx) (some first) (some second) ≡ ok true) ↔ (
      ◌≡◌ {A = Unit {0}} tt tt
      × SameUpToOrder (sample_view Tx) first.witness second.witness
      × ◌≡◌ {A = Unit {0}} tt tt)
compare_prover_input-true_iff_example =
    compare_prover_input-true_iff (sample_view Tx) insertion_sort insertion_sort-IsSort
      (sample_json Tx) (sample_json-IsJson Tx) first second first-text second-text

compare_prover_input_with_diff-Agrees_example :
    Agrees
      (compare_prover_input_with_diff insertion_sort (sample_json Tx) (some first) none)
      (compare_prover_input insertion_sort (sample_json Tx) (some first) none)
compare_prover_input_with_diff-Agrees_example =
    compare_prover_input_with_diff-Agrees (sample_json Tx) (sample_json-IsIndented Tx)
      insertion_sort (some first) none
