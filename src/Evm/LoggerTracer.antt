-- ===== src/Evm/LoggerTracer.antt =====
-- src/ethereum/evm/executor_logging.go, `LoggerTracer`: its loggers, which are nil outside of a block
-- and of a transaction, and what it writes to them. The fields of an entry are left out.
use Prim.Native.String.{String}
use zk_pig.Base.{
  Option, none, some, List, [], ◌∷◌, Bool, true, false, Error, Outcome, ok, ◌>>=◌, deref, ◌≡◌, refl,
  ap, ◌∙◌,
}

-- `zap.Logger` with the fields that the tracer adds; a method of a nil logger panics.
pub record LoggerLib : Type 1 where
  pub Logger : Type 0
  pub Block : Type 0
  pub Transaction : Type 0
  pub Receipt : Type 0
  pub with_block : Logger → Block → Logger
  pub with_transaction : Logger → Transaction → Logger
  pub with_system : Logger → Logger

-- What the EVM tells a tracer.
pub data Hook (G : LoggerLib) : Type 0 where
  on_block_start : G.Block → Hook G
  on_block_end : Option Error → Hook G
  on_tx_start : G.Transaction → Hook G
  on_tx_end : Option G.Receipt → Option Error → Hook G
  on_system_call_start : Hook G
  on_system_call_end : Hook G
  on_enter : Hook G
  on_exit : Option Error → Hook G
  on_opcode : Option Error → Hook G
  on_fault : Option Error → Hook G

module _ (G : LoggerLib) where
  pub record LoggerTracer : Type 0 where
    pub logger : G.Logger
    pub block_logger : Option G.Logger
    pub tx_logger : Option G.Logger
    -- the entries, the last one first
    pub entries : List (G.Logger × String)

  abbrev pub new_logger_tracer : G.Logger → LoggerTracer
  new_logger_tracer logger = record {
    logger = logger;
    block_logger = none;
    tx_logger = none;
    entries = [];
  }

  abbrev pub write : G.Logger → String → LoggerTracer → LoggerTracer
  write l message t = record t { entries = (l, message) ∷ t.entries }

  -- `t.txLogger.Debug` and `t.txLogger.Error`
  abbrev pub write_tx : String → LoggerTracer → Outcome LoggerTracer
  write_tx message t = do l ← deref t.tx_logger; ok (write l message t)

  abbrev pub clear_tx : LoggerTracer → LoggerTracer
  clear_tx t = record t { tx_logger = none }

  pub handle_block_start : G.Block → LoggerTracer → LoggerTracer
  handle_block_start b t = record t { block_logger = some (G.with_block t.logger b) }

  pub handle_block_end : LoggerTracer → LoggerTracer
  handle_block_end t = record t { block_logger = none }

  pub handle_tx_start : G.Transaction → LoggerTracer → Outcome LoggerTracer
  handle_tx_start tx t = do
    l ← deref t.block_logger
    let tx_logger = G.with_transaction l tx
    ok (write tx_logger "Start executing transaction" (record t { tx_logger = some tx_logger }))

  -- The receipt is read only if there is no error.
  pub handle_tx_end : Option G.Receipt → Option Error → LoggerTracer → Outcome LoggerTracer
  handle_tx_end receipt (some e) t = do
    t' ← write_tx "failed to execute transaction" t
    ok (clear_tx t')
  handle_tx_end receipt none t = do
    r ← deref receipt
    t' ← write_tx "Executed transaction" t
    ok (clear_tx t')

  pub handle_system_call_start : LoggerTracer → Outcome LoggerTracer
  handle_system_call_start t = do
    l ← deref t.block_logger
    let tx_logger = G.with_system l
    ok (write tx_logger "Execute system call" (record t { tx_logger = some tx_logger }))

  pub handle_system_call_end : LoggerTracer → Outcome LoggerTracer
  handle_system_call_end t = do t' ← write_tx "System call executed" t; ok (clear_tx t')

  pub handle_opcode : Option Error → LoggerTracer → Outcome LoggerTracer
  handle_opcode none t = ok t
  handle_opcode (some e) t = write_tx "Cannot execute opcode" t

  unfoldable pub handle : Hook G → LoggerTracer → Outcome LoggerTracer
  unfolding handle_block_start handle_block_end handle_tx_start handle_tx_end
      handle_system_call_start handle_system_call_end handle_opcode
  handle (on_block_start b) t = ok (handle_block_start b t)
  handle (on_block_end e) t = ok (handle_block_end t)
  handle (on_tx_start tx) t = handle_tx_start tx t
  handle (on_tx_end receipt e) t = handle_tx_end receipt e t
  handle on_system_call_start t = handle_system_call_start t
  handle on_system_call_end t = handle_system_call_end t
  handle on_enter t = write_tx "Start EVM message execution..." t
  handle (on_exit e) t = write_tx "End EVM message execution" t
  handle (on_opcode e) t = handle_opcode e t
  handle (on_fault e) t = write_tx "Failed to execute opcode" t

  abbrev pub handle_all : List (Hook G) → LoggerTracer → Outcome LoggerTracer
  handle_all [] t = ok t
  handle_all (h ∷ hs) t = do t' ← handle h t; handle_all hs t'

  -- What the EVM does inside of a call: messages, opcodes and faults.
  pub data Inner : Hook G → Type 0 where
    entering : Inner on_enter
    exiting : (e : Option Error) → Inner (on_exit e)
    executing : (e : Option Error) → Inner (on_opcode e)
    faulting : (e : Option Error) → Inner (on_fault e)

  -- The hooks of whole blocks, read from a place inside or outside of a block and of a call.
  pub data Bracketed : Bool → Bool → List (Hook G) → Type 0 where
    finished : Bracketed false false []
    block_start :
        {hs : List (Hook G)}
        → (b : G.Block) → Bracketed true false hs
        → Bracketed false false (on_block_start b ∷ hs)
    block_end :
        {hs : List (Hook G)}
        → (e : Option Error) → Bracketed false false hs
        → Bracketed true false (on_block_end e ∷ hs)
    tx_start :
        {hs : List (Hook G)}
        → (tx : G.Transaction) → Bracketed true true hs
        → Bracketed true false (on_tx_start tx ∷ hs)
    tx_end :
        {hs : List (Hook G)}
        → (r : G.Receipt) → Bracketed true false hs
        → Bracketed true true (on_tx_end (some r) none ∷ hs)
    tx_failed :
        {hs : List (Hook G)}
        → (receipt : Option G.Receipt) (e : Error) → Bracketed true false hs
        → Bracketed true true (on_tx_end receipt (some e) ∷ hs)
    system_start :
        {hs : List (Hook G)}
        → Bracketed true true hs
        → Bracketed true false (on_system_call_start ∷ hs)
    system_end :
        {hs : List (Hook G)}
        → Bracketed true false hs
        → Bracketed true true (on_system_call_end ∷ hs)
    inside :
        {hs : List (Hook G)} {h : Hook G}
        → Inner h
        → Bracketed true true hs
        → Bracketed true true (h ∷ hs)

  is_set : {A : Type 0} → Option A → Bool
  is_set none = false
  is_set (some a) = true

  abbrev pub Cleared : LoggerTracer → Type 0
  Cleared t = (t.block_logger ≡ none) × (t.tx_logger ≡ none)

  abbrev pub EndsCleared : Outcome LoggerTracer → Type 0
  EndsCleared o = (t' : LoggerTracer) × (o ≡ ok t') × Cleared t'

  abbrev tracer :
      G.Logger → Option G.Logger → Option G.Logger → List (G.Logger × String) → LoggerTracer
  tracer lg bl tl entries = record {
    logger = lg;
    block_logger = bl;
    tx_logger = tl;
    entries = entries;
  }

  is_unset : (o : Option G.Logger) → is_set o ≡ false → o ≡ none
  unfolding is_set
  is_unset none h = refl
  is_unset (some l) h = cc

  inside_writes :
      {h : Hook G} (i : Inner h) (lg : G.Logger) (bl : Option G.Logger) (l : G.Logger)
      (es : List (G.Logger × String))
      → (es' : List (G.Logger × String)) × (handle h (tracer lg bl (some l) es)
          ≡ ok (tracer lg bl (some l) es'))
  unfolding handle handle_opcode
  inside_writes entering lg bl l es = ((l, "Start EVM message execution...") ∷ es, refl)
  inside_writes (exiting e) lg bl l es = ((l, "End EVM message execution") ∷ es, refl)
  inside_writes (executing none) lg bl l es = (es, refl)
  inside_writes (executing (some e)) lg bl l es = ((l, "Cannot execute opcode") ∷ es, refl)
  inside_writes (faulting e) lg bl l es = ((l, "Failed to execute opcode") ∷ es, refl)

  handle_all-tracer :
      {b x : Bool} {hs : List (Hook G)}
      → Bracketed b x hs
      → (lg : G.Logger) (bl tl : Option G.Logger) (es : List (G.Logger × String)) → is_set bl ≡ b
      → is_set tl ≡ x
      → EndsCleared (handle_all hs (tracer lg bl tl es))
  unfolding is_set handle handle_block_start handle_block_end handle_tx_start handle_tx_end
      handle_system_call_start handle_system_call_end
  handle_all-tracer finished lg bl tl es hb hx =
      (tracer lg bl tl es, refl, (is_unset bl hb, is_unset tl hx))
  handle_all-tracer (block_start b rest) lg bl tl es hb hx =
      handle_all-tracer rest lg (some (G.with_block lg b)) tl es refl hx
  handle_all-tracer (block_end e rest) lg bl tl es hb hx =
      handle_all-tracer rest lg none tl es refl hx
  handle_all-tracer (tx_start tx rest) lg none tl es hb hx = cc
  handle_all-tracer (tx_start tx rest) lg (some l) tl es hb hx =
      handle_all-tracer rest lg (some l) (some (G.with_transaction l tx)) _ refl refl
  handle_all-tracer (tx_end r rest) lg bl none es hb hx = cc
  handle_all-tracer (tx_end r rest) lg bl (some l) es hb hx =
      handle_all-tracer rest lg bl none _ hb refl
  handle_all-tracer (tx_failed r e rest) lg bl none es hb hx = cc
  handle_all-tracer (tx_failed r e rest) lg bl (some l) es hb hx =
      handle_all-tracer rest lg bl none _ hb refl
  handle_all-tracer (system_start rest) lg none tl es hb hx = cc
  handle_all-tracer (system_start rest) lg (some l) tl es hb hx =
      handle_all-tracer rest lg (some l) (some (G.with_system l)) _ refl refl
  handle_all-tracer (system_end rest) lg bl none es hb hx = cc
  handle_all-tracer (system_end rest) lg bl (some l) es hb hx =
      handle_all-tracer rest lg bl none _ hb refl
  handle_all-tracer (inside i rest) lg bl none es hb hx = cc
  handle_all-tracer (inside {hs = hs} i rest) lg bl (some l) es hb hx =
      let (es', e) = inside_writes i lg bl l es in
      let (t', e', cleared) = handle_all-tracer rest lg bl (some l) es' hb refl in
      (t', ap (λ (o : Outcome LoggerTracer). o >>= handle_all hs) e ∙ e', cleared)

  -- When the EVM's hooks come in whole blocks, where transactions and system calls lie inside of a
  -- block one after the other, messages, opcodes and faults lie inside of those, and a transaction
  -- that did not fail ends with a receipt, then a new logger tracer takes all of them without a nil
  -- dereference, and has neither a block logger nor a transaction logger left behind them.
  pub handle_all-Bracketed :
      (logger : G.Logger) (hs : List (Hook G))
      → Bracketed false false hs
      → EndsCleared (handle_all hs (new_logger_tracer logger))
  unfolding is_set
  handle_all-Bracketed logger hs bracketed =
      handle_all-tracer bracketed logger none none [] refl refl
