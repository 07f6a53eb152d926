-- ===== src/Cmd/Ends.antt =====
-- How a command of src/cmd/generate.go ends, and what `zkpig generate` leaves behind.
use zk_pig.Base.{ℤ, Option, some, Outcome, ok, err, panic, ◌≡◌, refl, sym, ap}
use zk_pig.Geth.Interface.{Geth}
use zk_pig.Trie.Interface.{TrieLib}
use zk_pig.State.Rpc.{RpcLib}
use zk_pig.Evm.Interface.{EvmLib}
use zk_pig.Chain.{ChainLib}
use zk_pig.Chain.Written.{IsLawful}
use zk_pig.Generator.Interface.{GenLib}
use zk_pig.Generator.Preflight.{PreflightData, run_preflight}
use zk_pig.Config.{Text, ConfigLib}
use zk_pig.Service.{ServiceLib, Service}
use zk_pig.Service.Commands.{
  Parts, Disks, preflight_command, prepare_command, execute_command, generate,
}
use zk_pig.Service.Commands.Generated.{IsPrepared, IsProvable, generate-IsProvable}
use zk_pig.Service.New.{NewLib, Made, stop, pre_run}
use zk_pig.Service.New.Accepted.{IsAccepted, pre_run-IsAccepted, pre_run_number}
use zk_pig.Cmd.{Command, Cobra, behind, in_order}
use zk_pig.Cmd.Commands.{
  Process, StopRemote, after_pre_run, pre_run_action, on_disks, run_action, stopped, stop_action,
  new_generate_command, new_preflight_command, new_prepare_command, new_execute_command,
}

module _ (A : ConfigLib) (N : NewLib A) (V : ServiceLib) {G : Geth} {T : TrieLib} {R : RpcLib}
    {E : EvmLib} {C : ChainLib E.HeaderChain} {L : GenLib G T R E C} (P : Parts L)
    (stop_remote : StopRemote A N V P) where
  abbrev pub Body : Type 0
  Body = Service V → Option ℤ → Disks P → Outcome (Unit {0}) × Disks P

  -- The end of a command whose method ended so, with what lay behind the RPC client before it.
  abbrev pub EndsBehind :
      Service V
      → V.World
      → Outcome (Unit {0}) × Disks P
      → Outcome (Unit {0}) × Process A N V P
      → Type 0
  EndsBehind s w (ok u, ds) (done, p) =
      (done ≡ (stop V stop_remote s w).0) × (p.remote ≡ (stop V stop_remote s w).1) × (p.disks ≡ ds)
  EndsBehind s w (err e, ds) (done, p) = (done ≡ err e) × (p.remote ≡ w) × (p.disks ≡ ds)
  EndsBehind s w (panic, ds) (done, p) = (done ≡ panic) × (p.remote ≡ w) × (p.disks ≡ ds)

  -- The end of a command whose `preRun` ended so.
  abbrev pub Ends :
      Body
      → Process A N V P
      → Outcome (Made A N × Service V × V.World × Option ℤ)
      → Outcome (Unit {0}) × Process A N V P
      → Type 0
  Ends body p (ok (made, s, w, number)) end = EndsBehind s w (body s number p.disks) end
  Ends body p (err e) (done, p') = (done ≡ err e) × (p'.disks ≡ p.disks)
  Ends body p panic (done, p') = (done ≡ panic) × (p'.disks ≡ p.disks)

  abbrev hooks : Body → Text → Process A N V P → Outcome (Unit {0}) × Process A N V P
  hooks body block_number p =
      behind (pre_run_action A N V P block_number p)
        (λ p1. behind (run_action A N V P body p1) (stop_action A N V P stop_remote))

  hooks-Ends :
      (body : Body) (block_number : Text) (p : Process A N V P)
      → Ends body p (pre_run A N V p.config block_number p.remote) (hooks body block_number p)
  unfolding pre_run_action run_action stop_action
  hooks-Ends body block_number p = of (pre_run A N V p.config block_number p.remote)
    where
      ran :
          (made : Made A N) (s : Service V) (w : V.World) (number : Option ℤ)
          (r : Outcome (Unit {0}) × Disks P)
          → EndsBehind s w r (
              behind
                (
                  r.0,
                  record p { svc = some (made, s); block_number = number; remote = w; disks = r.1 },
                )
                (λ p2. stopped A N V P stop_remote p2.svc p2))
      ran made s w number (ok u, ds) = (refl, refl, refl)
      ran made s w number (err e, ds) = (refl, refl, refl)
      ran made s w number (panic, ds) = (refl, refl, refl)

      of :
          (o : Outcome (Made A N × Service V × V.World × Option ℤ))
          → Ends body p o (
              behind (after_pre_run A N V P p o) (λ p1.
                behind
                  (on_disks A N V P body p1.svc p1)
                  (λ p2. stopped A N V P stop_remote p2.svc p2)))
      of (ok (made, s, w, number)) = ran made s w number (body s number p.disks)
      of (err e) = (refl, refl)
      of panic = (refl, refl)

  -- When cobra runs the hooks of a command in their documented order, each of the four commands ends
  -- so: if the preparation fails, with its error or panic, and the stores stay as they are; if its
  -- method of the service fails, with that error, the stores that the method left, and an RPC client
  -- that is not stopped; and else with the outcome of stopping the RPC client.
  pub commands-Ends :
      (cobra : Cobra (Process A N V P))
      → ((c : Command (Process A N V P)) (p : Process A N V P) → cobra c p ≡ in_order c p)
      → (block_number : Text) (p : Process A N V P)
      → Ends
          (generate P)
          p
          (pre_run A N V p.config block_number p.remote)
          (cobra (new_generate_command A N V P stop_remote block_number) p)
        × Ends
            (preflight_command P)
            p
            (pre_run A N V p.config block_number p.remote)
            (cobra (new_preflight_command A N V P stop_remote block_number) p)
        × Ends
            (prepare_command P)
            p
            (pre_run A N V p.config block_number p.remote)
            (cobra (new_prepare_command A N V P stop_remote block_number) p)
        × Ends
            (execute_command P)
            p
            (pre_run A N V p.config block_number p.remote)
            (cobra (new_execute_command A N V P stop_remote block_number) p)
  unfolding new_generate_command new_preflight_command new_prepare_command new_execute_command
  commands-Ends cobra K block_number p = (
    rw K (hooks-Ends (generate P) block_number p),
    rw K (hooks-Ends (preflight_command P) block_number p),
    rw K (hooks-Ends (prepare_command P) block_number p),
    rw K (hooks-Ends (execute_command P) block_number p),
  )

  -- What `zkpig generate` of a block number leaves in the stores when it succeeds.
  abbrev pub Generated : Text → Process A N V P → Process A N V P → Type 0
  Generated block_number p p' =
      (made : Made A N) × (s : Service V) × (asked : Option ℤ) × (found : PreflightData L)
      × (chain_id number : ℤ) × IsAccepted A N V p.config p.remote made s
      × (N.from_block_num_arg block_number ≡ ok asked)
      × (run_preflight L P.remote_db asked ≡ ok found)
      × (L.rpc_block_number found.block ≡ some number)
      × (s.chain_id ≡ some chain_id)
      × IsPrepared P s chain_id number p'.disks
      × IsProvable P s chain_id number p'.disks

  generate_ended :
      IsLawful C
      → (s : Service V) (w : V.World) (number : Option ℤ) (p p' : Process A N V P)
      → EndsBehind s w (generate P s number p.disks) (ok tt, p')
      → generate P s number p.disks ≡ (ok tt, p'.disks)
  generate_ended K s w number p p' h = of (generate P s number p.disks) h
    where
      of : (r : Outcome (Unit {0}) × Disks P) → EndsBehind s w r (ok tt, p') → r ≡ (ok tt, p'.disks)
      of (ok u, ds) (_, _, same) = ap (λ d. (ok tt, d)) (sym same)
      of (err e, ds) (bad, _, _) = cc
      of (panic, ds) (bad, _, _) = cc

  -- When cobra runs the hooks of a command in their documented order and `zkpig generate` ends without
  -- an error, its configuration was accepted by the preparation, a preflight of the block number that
  -- was given found a block, and under the chain ID of the service and the number of that block the
  -- stores hold preflight data that a validated prover input was made from, which was then stored, and a
  -- prover input that was executed and validated on its own witness.
  pub new_generate_command-Generated :
      IsLawful C
      → (cobra : Cobra (Process A N V P))
      → ((c : Command (Process A N V P)) (p : Process A N V P) → cobra c p ≡ in_order c p)
      → (block_number : Text) (p : Process A N V P) {p' : Process A N V P}
      → cobra (new_generate_command A N V P stop_remote block_number) p ≡ (ok tt, p')
      → Generated block_number p p'
  new_generate_command-Generated K cobra J block_number p {p'} h =
      of (pre_run A N V p.config block_number p.remote) refl
        (rw h at (commands-Ends cobra J block_number p).0)
    where
      of :
          (o : Outcome (Made A N × Service V × V.World × Option ℤ))
          → pre_run A N V p.config block_number p.remote ≡ o
          → Ends (generate P) p o (ok tt, p')
          → Generated block_number p p'
      of (ok (made, s, w, number)) e end =
          let (chain_id, k, found, has_id, ran, numbered, prepared, provable) =
            generate-IsProvable P s K number p.disks (generate_ended K s w number p p' end) in
          (
            made,
            s,
            number,
            found,
            chain_id,
            k,
            pre_run-IsAccepted A N V p.config block_number p.remote e,
            pre_run_number A N V p.config block_number p.remote e,
            ran,
            numbered,
            has_id,
            prepared,
            provable,
          )
      of (err e) _ (bad, _) = cc
      of panic _ (bad, _) = cc
