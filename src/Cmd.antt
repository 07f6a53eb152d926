-- ===== src/Cmd.antt =====
-- src/cmd: the command line. A hook of a command acts on the state of the process.
pub mod Root
pub mod Commands
pub mod Ends
pub mod Tests
use zk_pig.Base.{Option, none, some, List, [], ◌∷◌, String, Outcome, ok, err, panic}

-- `cobra.Command`, with the hooks that the repository sets.
pub record Command (S : Type 0) : Type 0 where
  pub name : String
  pub pre_run_e : Option (S → Outcome (Unit {0}) × S)
  pub run_e : Option (S → Outcome (Unit {0}) × S)
  pub post_run_e : Option (S → Outcome (Unit {0}) × S)

-- What runs a command behind its persistent hooks.
abbrev pub Cobra : Type 0 → Type 0
Cobra S = Command S → S → Outcome (Unit {0}) × S

module _ {S : Type 0} where
  -- What follows a hook that returned without an error.
  abbrev pub behind : Outcome (Unit {0}) × S → (S → Outcome (Unit {0}) × S) → Outcome (Unit {0}) × S
  behind (ok u, s) rest = rest s
  behind (err e, s) rest = (err e, s)
  behind (panic, s) rest = (panic, s)

  -- A hook that is not set does nothing.
  abbrev pub hook : Option (S → Outcome (Unit {0}) × S) → S → Outcome (Unit {0}) × S
  hook none s = (ok tt, s)
  hook (some act) s = act s

  -- The documented order of hooks, up to the first that returns an error.
  abbrev pub in_order : Command S → S → Outcome (Unit {0}) × S
  in_order c s =
      behind (hook c.pre_run_e s) (λ s1. behind (hook c.run_e s1) (λ s2. hook c.post_run_e s2))
