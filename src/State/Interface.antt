-- ===== src/State/Interface.antt =====
-- `gethstate.Database`, `gethstate.Reader` and `gethtypes.StateAccount`, as the wrappers call them. A
-- reader of a fixed state answers a question always alike.
use zk_pig.Base.{ℕ, Option, Slice, Outcome, ◌≡◌}
use zk_pig.Geth.Types.{Hash, Address}

pub record StateLib : Type 1 where
  pub StateAccount : Type 0
  pub copy_account : StateAccount → StateAccount
  pub Reader : Type 0
  pub account : Reader → Address → Outcome (Option StateAccount)
  pub storage : Reader → Address → Hash → Outcome Hash
  -- the wrapped database
  pub reader : Hash → Outcome Reader
  pub contract_code : Address → Hash → Outcome (Slice ℕ)

-- Copies are equal to what they copy.
pub record IsLawful (S : StateLib) : Type 0 where
  pub copy_account_lem : (a : S.StateAccount) → S.copy_account a ≡ a
