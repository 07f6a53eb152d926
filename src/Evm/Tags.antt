-- ===== src/Evm/Tags.antt =====
-- `ExecutorWithTags` of src/ethereum/evm/executor_logging.go, and the stack of executors that the
-- generator calls. The package of the tags (go-utils/tag), the context, and what the tags read of a
-- block are parameters. The decorated executor is one closure, which assigns the variable `namespaces`
-- that it shares between its calls.
use zk_pig.Base.{
  codes, ℤ, Option, none, some, List, [], ◌∷◌, String, if◌then◌else◌, ◌≡◌, ◌≢◌, refl, ◌∙◌,
}
use mathlib.Core.List.{foldl}
use zk_pig.Config.{is_empty}
use zk_pig.Geth.Types.{ChainConfig}
use zk_pig.Evm.Interface.{EvmLib}
use zk_pig.Evm.Executor.{ExecParams, World, Ending, panicked}
use zk_pig.Evm.Decorators.{execute_with_log}

pub record TagLib (E : EvmLib) : Type 1 where
  pub Context : Type 0
  pub Tag : Type 0
  -- `tag.WithComponent`, `tag.Key(key).String(s)`, `tag.Key(key).Int64(n)`, `tag.WithNamespaceTags`
  pub with_component : Context → String → Context
  pub string_tag : String → String → Tag
  pub int64_tag : String → ℤ → Tag
  pub with_namespace_tags : Context → String → List Tag → Context
  pub default_namespace : String
  -- `Chain.Config()`, `Block.Number().Int64()`, `Block.Hash().Hex()`, and `String()` of an integer that
  -- may be nil
  pub chain_config : E.HeaderChain → Option ChainConfig
  pub int64_number : E.Block → ℤ
  pub hash_hex : E.Block → String
  pub integer_text : Option ℤ → String

module _ {E : EvmLib} (T : TagLib E) where
  -- `ExecutorFunc`; the state database and the calls that others see are passed along.
  abbrev pub Executor : Type 0
  Executor = T.Context → ExecParams E → World E → Ending E × World E

  abbrev tags_of : ChainConfig → E.Block → List T.Tag
  tags_of config block =
      T.string_tag "chain.id" (T.integer_text config.chain_id)
      ∷ T.int64_tag "block.number" (T.int64_number block)
      ∷ T.string_tag "block.hash" (T.hash_hex block)
      ∷ []

  abbrev with_component_tag : String → T.Context → T.Context
  with_component_tag component ctx =
      if is_empty (codes component) then ctx else T.with_component ctx component

  -- `if len(namespaces) == 0`
  abbrev pub or_default : List String → List String
  or_default [] = T.default_namespace ∷ []
  or_default (ns ∷ rest) = ns ∷ rest

  abbrev tagged : List T.Tag → List String → T.Context → T.Context
  tagged tags namespaces ctx = foldl (λ c ns. T.with_namespace_tags c ns tags) ctx namespaces

  -- The last component is the variable `namespaces` after the call.
  unfoldable pub tag_and_execute :
      Executor
      → String
      → List String
      → T.Context
      → ExecParams E
      → World E
      → Option ChainConfig
      → (Ending E × World E) × List String
  tag_and_execute executor component namespaces ctx p w none = ((panicked, w), namespaces)
  tag_and_execute executor component namespaces ctx p w (some config) =
      let ctx' =
        tagged (tags_of config p.block) (or_default namespaces)
          (with_component_tag component ctx) in
      (executor ctx' p w, or_default namespaces)

  unfoldable pub execute_with_tags :
      Executor
      → String
      → List String
      → T.Context
      → ExecParams E
      → World E
      → (Ending E × World E) × List String
  unfolding tag_and_execute
  execute_with_tags executor component namespaces ctx p w =
      tag_and_execute executor component namespaces ctx p w (T.chain_config p.chain)

  -- `ExecutorWithTags("evm")(ExecutorWithLog()(NewExecutor()))`, called once; the log lines are left
  -- out, and with them what the logger reads of the context.
  unfoldable pub execute_stack : T.Context → ExecParams E → World E → Ending E × World E
  unfolding execute_with_tags
  execute_stack ctx p w = (execute_with_tags (λ ctx p w. execute_with_log E p w) "evm" [] ctx p w).0

  -- The tags do not change an execution on a chain with a configuration.
  pub execute_stack-execute_with_log :
      (ctx : T.Context) (p : ExecParams E) (w : World E)
      → T.chain_config p.chain ≢ none
      → execute_stack ctx p w ≡ execute_with_log E p w
  unfolding execute_stack
  execute_stack-execute_with_log ctx p w h = of (T.chain_config p.chain) h
    where
      of :
          (o : Option ChainConfig)
          → o ≢ none
          → (tag_and_execute (λ ctx p w. execute_with_log E p w) "evm" [] ctx p w o).0
            ≡ execute_with_log E p w
      of none h = absurd (h refl)
      of (some config) h = refl

  module _ (executor : Executor) (component : String) where
    -- The calls of one decorated executor, one after the other, each on the world that the one before
    -- left.
    unfoldable pub calls :
        List String → List (T.Context × ExecParams E) → World E → List (Ending E) × World E
    calls namespaces [] w = ([], w)
    calls namespaces ((ctx, p) ∷ more) w =
        let ((ending, w'), namespaces') = execute_with_tags executor component namespaces ctx p w in
        let (endings, w'') = calls namespaces' more w' in (ending ∷ endings, w'')

    -- The same calls, each of an executor that is decorated anew.
    unfoldable pub separate_calls :
        List String → List (T.Context × ExecParams E) → World E → List (Ending E) × World E
    separate_calls namespaces [] w = ([], w)
    separate_calls namespaces ((ctx, p) ∷ more) w =
        let (ending, w') = (execute_with_tags executor component namespaces ctx p w).0 in
        let (endings, w'') = separate_calls namespaces more w' in (ending ∷ endings, w'')

    or_default-or_default : (l : List String) → or_default (or_default l) ≡ or_default l
    or_default-or_default [] = refl
    or_default-or_default (ns ∷ l) = refl

    same_call :
        (l namespaces : List String) (ctx : T.Context) (p : ExecParams E) (w : World E)
        → or_default l ≡ or_default namespaces
        → (execute_with_tags executor component l ctx p w).0
          ≡ (execute_with_tags executor component namespaces ctx p w).0
    unfolding execute_with_tags
    same_call l namespaces ctx p w h = of (T.chain_config p.chain)
      where
        of :
            (o : Option ChainConfig)
            → (tag_and_execute executor component l ctx p w o).0
              ≡ (tag_and_execute executor component namespaces ctx p w o).0
        of none = refl
        of (some config) = rw h refl

    namespaces_kept :
        (l : List String) (ctx : T.Context) (p : ExecParams E) (w : World E)
        → or_default (execute_with_tags executor component l ctx p w).1 ≡ or_default l
    unfolding execute_with_tags
    namespaces_kept l ctx p w = of (T.chain_config p.chain)
      where
        of :
            (o : Option ChainConfig)
            → or_default (tag_and_execute executor component l ctx p w o).1 ≡ or_default l
        of none = refl
        of (some config) = or_default-or_default l

    calls_as :
        (l namespaces : List String) (cs : List (T.Context × ExecParams E)) (w : World E)
        → or_default l ≡ or_default namespaces
        → calls l cs w ≡ separate_calls namespaces cs w
    unfolding calls separate_calls
    calls_as l namespaces [] w h = refl
    calls_as l namespaces ((ctx, p) ∷ cs) w h =
        let r = execute_with_tags executor component l ctx p w in
        rw
          (
            ← same_call l namespaces ctx p w h,
            ← calls_as r.1 namespaces cs r.0.1 (namespaces_kept l ctx p w ∙ h),
          )
          refl

    -- That the calls share the variable of the namespaces, which each of them may assign, does not show
    -- in what they return or do.
    pub calls-separate_calls :
        (namespaces : List String) (cs : List (T.Context × ExecParams E)) (w : World E)
        → calls namespaces cs w ≡ separate_calls namespaces cs w
    calls-separate_calls namespaces cs w = calls_as namespaces namespaces cs w refl
