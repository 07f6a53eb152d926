-- ===== src/Service/Commands/Sequence.antt =====
-- `Generate` of src/service.go against the other commands of the service, one after the other.
use zk_pig.Base.{
  ℤ, Option, none, some, List, [], ◌∷◌, Outcome, ok, err, panic, ◌≡◌, refl, sym, ap, ◌∙◌,
}
use zk_pig.Geth.Interface.{Geth}
use zk_pig.Trie.Interface.{TrieLib}
use zk_pig.State.Rpc.{RpcLib}
use zk_pig.Evm.Interface.{EvmLib}
use zk_pig.Chain.{ChainLib}
use zk_pig.Generator.Interface.{GenLib}
use zk_pig.Generator.Preflight.{PreflightData}
use zk_pig.Service.{ServiceLib, Service}
use zk_pig.Service.Commands.{
  Parts, Disks, followed_by, with_chain_id, preflight_step, prepare_step, execute_step,
  preflight_command, prepare_command, execute_command, generate,
}

pub data Command : Type 0 where
  preflight_at : Option ℤ → Command
  prepare_at : Option ℤ → Command
  execute_at : Option ℤ → Command

module _ {V : ServiceLib} {G : Geth} {T : TrieLib} {R : RpcLib} {E : EvmLib}
    {C : ChainLib E.HeaderChain} {L : GenLib G T R E C} (P : Parts L) (s : Service V) where
  abbrev pub perform : Command → Disks P → Outcome (Unit {0}) × Disks P
  perform (preflight_at n) ds = preflight_command P s n ds
  perform (prepare_at n) ds = prepare_command P s n ds
  perform (execute_at n) ds = execute_command P s n ds

  -- The commands in a row, up to the first one that fails.
  abbrev pub perform_all : List Command → Disks P → Outcome (Unit {0}) × Disks P
  perform_all [] ds = (ok tt, ds)
  perform_all (c ∷ cs) ds = followed_by P (perform c ds) (λ done ds'. perform_all cs ds')

  -- The commands that `Generate` stands for, when the first preflight ends in the outcome.
  abbrev pub after_first : Outcome (PreflightData L) → List Command
  after_first (ok pf) =
      let m = L.rpc_block_number pf.block in preflight_at m ∷ prepare_at m ∷ execute_at m ∷ []
  after_first (err e) = []
  after_first panic = []

  abbrev pub plan : Option ℤ → Outcome (PreflightData L) → List Command
  plan n first = preflight_at n ∷ after_first first

  followed_by-id : (x : Outcome (Unit {0}) × Disks P) → followed_by P x (λ done ds. (ok tt, ds)) ≡ x
  followed_by-id (ok u, ds) = refl
  followed_by-id (err e, ds) = refl
  followed_by-id (panic, ds) = refl

  -- A value that the rest does not use can be dropped before it.
  followed_by-drop :
      {A : Type 0} (x : Outcome A × Disks P) (rest : Disks P → Outcome (Unit {0}) × Disks P)
      → followed_by P x (λ a ds. rest ds)
        ≡ followed_by P (followed_by P x (λ a ds. (ok tt, ds))) (λ done ds. rest ds)
  followed_by-drop (ok a, ds) rest = refl
  followed_by-drop (err e, ds) rest = refl
  followed_by-drop (panic, ds) rest = refl

  followed_by-last :
      {A : Type 0} (x : Outcome A × Disks P) (f g : Disks P → Outcome (Unit {0}) × Disks P)
      → ((ds : Disks P) → f ds ≡ g ds)
      → followed_by P x (λ a ds. f ds) ≡ followed_by P x (λ a ds. g ds)
  followed_by-last (ok a, ds) f g h = h ds
  followed_by-last (err e, ds) f g h = refl
  followed_by-last (panic, ds) f g h = refl

  with_chain_id-some :
      {A : Type 0} (o : Option ℤ) {chain_id : ℤ} (ds : Disks P) (rest : Outcome A × Disks P)
      → o ≡ some chain_id
      → with_chain_id P o ds rest ≡ rest
  with_chain_id-some none ds rest h = cc
  with_chain_id-some (some c) ds rest h = refl

module _ {V : ServiceLib} {G : Geth} {T : TrieLib} {R : RpcLib} {E : EvmLib}
    {C : ChainLib E.HeaderChain} {L : GenLib G T R E C} (P : Parts L) (s : Service V) {chain_id : ℤ}
    (h : s.chain_id ≡ some chain_id) where
  prepare_command-step :
      (m : Option ℤ) (ds : Disks P) → prepare_command P s m ds ≡ prepare_step P s m ds
  unfolding prepare_command
  prepare_command-step m ds = with_chain_id-some P s s.chain_id ds (prepare_step P s m ds) h

  execute_command-step :
      (m : Option ℤ) (ds : Disks P) → execute_command P s m ds ≡ execute_step P s m ds
  unfolding execute_command
  execute_command-step m ds = with_chain_id-some P s s.chain_id ds (execute_step P s m ds) h

  -- With a chain ID, `Prepare` and `Execute` are what `Generate` calls.
  rest_performed :
      (m : Option ℤ) (ds : Disks P)
      → followed_by P (prepare_step P s m ds) (λ done ds'. execute_step P s m ds')
        ≡ perform_all P s (prepare_at m ∷ execute_at m ∷ []) ds
  rest_performed m ds =
      followed_by-last P s (prepare_step P s m ds) (execute_step P s m)
        (λ ds'. perform_all P s (execute_at m ∷ []) ds')
        (λ ds'.
          sym (execute_command-step m ds') ∙ sym (followed_by-id P s (execute_command P s m ds')))
      ∙ ap
          (λ (x : Outcome (Unit {0}) × Disks P).
            followed_by P x (λ done ds'. perform_all P s (execute_at m ∷ []) ds'))
          (sym (prepare_command-step m ds))

  second_performed :
      (m : Option ℤ) (ds : Disks P)
      → followed_by P
          (preflight_step P s m ds)
          (λ pf ds2. followed_by P (prepare_step P s m ds2) (λ done ds3. execute_step P s m ds3))
        ≡ perform_all P s (preflight_at m ∷ prepare_at m ∷ execute_at m ∷ []) ds
  unfolding preflight_command
  second_performed m ds =
      followed_by-last P s (preflight_step P s m ds)
        (λ ds2. followed_by P (prepare_step P s m ds2) (λ done ds3. execute_step P s m ds3))
        (perform_all P s (prepare_at m ∷ execute_at m ∷ [])) (rest_performed m)
      ∙ followed_by-drop P s (preflight_step P s m ds)
          (perform_all P s (prepare_at m ∷ execute_at m ∷ []))

  first_performed :
      (x : Outcome (PreflightData L) × Disks P)
      → followed_by P x (λ pf ds1.
        let m = L.rpc_block_number pf.block in
        with_chain_id P s.chain_id ds1 (
          followed_by P (preflight_step P s m ds1) (λ pf' ds2.
            followed_by P (prepare_step P s m ds2) (λ done ds3. execute_step P s m ds3))))
        ≡ followed_by P
            (followed_by P x (λ pf ds'. (ok tt, ds')))
            (λ done ds'. perform_all P s (after_first P s x.0) ds')
  first_performed (ok pf, ds) =
      let m = L.rpc_block_number pf.block in
      with_chain_id-some P s s.chain_id ds _ h ∙ second_performed m ds
  first_performed (err e, ds) = refl
  first_performed (panic, ds) = refl

  -- When the service has a chain ID, `Generate` does what the commands of its plan do one after the
  -- other: a preflight at the number that was asked for, and, if it succeeds, a preflight, a preparation
  -- and an execution at the number of the block that it found, up to the first that fails.
  pub generate-plan :
      (n : Option ℤ) (ds : Disks P)
      → generate P s n ds ≡ perform_all P s (plan P s n (preflight_step P s n ds).0) ds
  unfolding generate preflight_command
  generate-plan n ds = first_performed (preflight_step P s n ds)
