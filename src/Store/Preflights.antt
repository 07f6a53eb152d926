-- ===== src/Store/Preflights.antt =====
-- What the store of src/store/preflight_data_store.go loads after it stored.
use zk_pig.Base.{
  Outcome, ℕ, ℤ, some, Bytes, decimal_inj, ok, context, deref, deref-eq-ok, >>=-eq-ok,
  context-eq-ok, ok_inj, ◌≡◌, ◌≢◌, refl, sym, ap, ◌∙◌,
}
use mathlib.Core.List.{append_cancel_right}
use zk_pig.Geth.Types.{ChainConfig}
use zk_pig.Store.{StoreLib, uint64}
use zk_pig.Store.PreflightData.{
  PreflightCodec, json_ending, preflight_path, preflight_headers, preflight_parts,
  store_preflight_data, load_preflight_data,
}
use zk_pig.Store.RoundTrip.{IsLawful, store_parts-eq-ok}
use zk_pig.Base.{decimal}

-- What JSON's decoder makes of the text of data, which may be an error.
pub record DecodesData {P : Type 0} {S : StoreLib} (C : PreflightCodec P S) : Type 0 where
  pub view : P → Outcome P
  pub decode-encode :
      (d : P) (r : S.Reader) {bytes : Bytes}
      → C.encode d ≡ ok bytes
      → S.read_all r ≡ ok bytes
      → C.decode r ≡ view d

module _ {P : Type 0} (S : StoreLib) (C : PreflightCodec P S) where
  -- The numbers of the data, which name its file.
  abbrev pub HasNumbers : P → ℤ → ℤ → Type 0
  HasNumbers d number chain_id =
      (C.number d ≡ some number)
      × (cfg : ChainConfig) × (C.chain_config d ≡ some cfg)
      × (cfg.chain_id ≡ some chain_id)

  preflight_parts-eq-ok :
      (d : P) {p : Bytes × Bytes × S.Headers}
      → preflight_parts S C d ≡ ok p
      → (number chain_id : ℤ) × HasNumbers d number chain_id
        × (C.encode d ≡ ok p.0)
        × (p.1 ≡ preflight_path (uint64 number))
        × (p.2 ≡ preflight_headers S C (uint64 chain_id))
  unfolding preflight_parts
  preflight_parts-eq-ok d {p} h =
      let (number, e, h1) = >>=-eq-ok _ (deref (C.number d)) h in
      let (bytes, e', h2) = >>=-eq-ok _ (context "failed to encode JSON" (C.encode d)) h1 in
      let (cfg, e'', h3) = >>=-eq-ok _ (deref (C.chain_config d)) h2 in
      let (chain_id, e3, h4) = >>=-eq-ok _ (deref cfg.chain_id) h3 in
      let same : ◌≡◌ {A = Bytes × Bytes × S.Headers}
          (bytes, preflight_path (uint64 number), preflight_headers S C (uint64 chain_id)) p =
        ok_inj h4 in
      let back = sym same in
      (
        number,
        chain_id,
        (
          deref-eq-ok (C.number d) e,
          cfg,
          deref-eq-ok (C.chain_config d) e'',
          deref-eq-ok cfg.chain_id e3,
        ),
        context-eq-ok "failed to encode JSON" (C.encode d) e'
            ∙ ap (λ (q : Bytes × Bytes × S.Headers). ok q.0) same,
        ap (λ (q : Bytes × Bytes × S.Headers). q.1) back,
        ap (λ (q : Bytes × Bytes × S.Headers). q.2) back,
      )

  -- Preflight data that was stored without an error has a block number and a chain ID, and
  -- loading them from a store that loads what it stored gives what JSON's decoder makes of its
  -- JSON text, which may be an error.
  pub load_preflight_data-store_preflight_data :
      IsLawful S
      → (D : DecodesData C) (w : S.World) (d : P) {w' : S.World}
      → store_preflight_data S C w d ≡ (ok tt, w')
      → (number chain_id : ℤ) × HasNumbers d number chain_id
        × (load_preflight_data S C w' (uint64 chain_id) (uint64 number) ≡ D.view d)
  unfolding store_preflight_data load_preflight_data
  load_preflight_data-store_preflight_data L D w d {w'} h =
      let (p, e, stored) = store_parts-eq-ok S w (preflight_parts S C d) h in
      let (number, chain_id, has, encoded, path, headers) = preflight_parts-eq-ok d e in
      let (r, loaded, read) = L.load-store w p.1 p.0 p.2 stored in
      let loaded' = rw (path, headers) at loaded in
      (number, chain_id, has, rw (loaded', D.decode-encode d r encoded read) refl)

  -- Storing data leaves what is loaded of other blocks as it was, whatever their chain.
  pub load_preflight_data-store_other :
      IsLawful S
      → (w : S.World) (d : P) (n : ℕ) {w' : S.World} → store_preflight_data S C w d ≡ (ok tt, w')
      → ((number : ℤ) → C.number d ≡ some number → uint64 number ≢ n)
      → (chain_id : ℕ)
      → load_preflight_data S C w' chain_id n ≡ load_preflight_data S C w chain_id n
  unfolding store_preflight_data load_preflight_data
  load_preflight_data-store_other L w d n {w'} h other chain_id =
      let (p, e, stored) = store_parts-eq-ok S w (preflight_parts S C d) h in
      let (number, _, has, _, path, _) = preflight_parts-eq-ok d e in
      let apart : p.1 ≢ preflight_path n = λ same. other number has.0 (
        decimal_inj (
          append_cancel_right (decimal (uint64 number)) (decimal n) json_ending
            (sym path ∙ same))) in
      rw
        (L.load-store_other w p.1 p.0 p.2 (preflight_path n) (preflight_headers S C chain_id) stored
          apart)
        refl
