-- ===== src/Store/RoundTrip.antt =====
-- What the stores of src/store load after they stored.
use zk_pig.Base.{
  ℕ, Option, some, Bytes, String, decimal_inj, Outcome, ok, err, panic, error, ◌>>=◌, context,
  deref, >>=-eq-ok, context-eq-ok, ok_inj, ◌≡◌, ◌≢◌, refl, sym, ap, ◌∙◌,
}
use zk_pig.Geth.Interface.{Geth}
use zk_pig.Input.{ProverInput}
use zk_pig.Proto.Message as Message
use zk_pig.Proto.Inputs.{to_proto, from_proto, blocks_to_proto}
use zk_pig.Store.{
  ContentType, content_type_json, content_type_protobuf, content_type_other, StoreLib, store_parts,
}
use zk_pig.Store.ProverInputs.{
  InputCodec, prover_path, unsupported, encode_input, first_number, chain_id_of, input_headers,
  input_parts, store_prover_input, decode_input, load_prover_input,
}

-- What is stored can be loaded at its path with its headers, and other paths stay as they are.
pub record IsLawful (S : StoreLib) : Type 0 where
  pub load-store :
      (w : S.World) (path bytes : Bytes) (h : S.Headers) {w' : S.World}
      → S.store w path bytes h ≡ (ok tt, w')
      → (r : S.Reader) × (S.load w' path h ≡ ok r) × (S.read_all r ≡ ok bytes)
  pub load-store_other :
      (w : S.World) (path bytes : Bytes) (h : S.Headers) {w' : S.World} (path' : Bytes)
      (h' : S.Headers)
      → S.store w path bytes h ≡ (ok tt, w')
      → path ≢ path'
      → S.load w' path' h' ≡ S.load w path' h'

-- What a message is after protobuf's bytes, and what JSON's decoder makes of the text of an input,
-- which may be an error: a header without a difficulty is encoded, but not decoded.
pub record Decodes {G : Geth} {S : StoreLib} (C : InputCodec G S) : Type 0 where
  pub wire : Message.ProverInput → Message.ProverInput
  pub unmarshal-marshal :
      (m : Message.ProverInput) {bytes : Bytes}
      → C.marshal (some m) ≡ ok bytes
      → C.unmarshal bytes ≡ ok (wire m)
  pub view : ProverInput G.Transaction → Outcome (ProverInput G.Transaction)
  pub decode-encode :
      (pi : ProverInput G.Transaction) (r : S.Reader) {bytes : Bytes}
      → C.encode (some pi) ≡ ok bytes
      → S.read_all r ≡ ok bytes
      → C.decode r ≡ view pi

-- A success of `Store` went through the store.
pub store_parts-eq-ok :
    (S : StoreLib) (w : S.World) (o : Outcome (Bytes × Bytes × S.Headers)) {w' : S.World}
    → store_parts S w o ≡ (ok tt, w')
    → (p : Bytes × Bytes × S.Headers) × (o ≡ ok p) × (S.store w p.1 p.0 p.2 ≡ (ok tt, w'))
store_parts-eq-ok S w (ok p) h = (p, refl, h)
store_parts-eq-ok S w (err e) h = cc
store_parts-eq-ok S w panic h = cc

never :
    (o : Outcome String) {bytes : Bytes}
    → (do _ ← context "failed to get content type" o; err (error "unsupported content type"))
      ≡ ok bytes
    → ⊥
never (ok s) h = cc
never (err e) h = cc
never panic h = cc

module _ (G : Geth) (S : StoreLib) (C : InputCodec G S) where
  input_parts-eq-ok :
      (t : ContentType) (pi : ProverInput G.Transaction) {p : Bytes × Bytes × S.Headers}
      → input_parts G S C t (some pi) ≡ ok p
      → (number chain_id : ℕ) × (encode_input G S C t (some pi) ≡ ok p.0)
        × (first_number G S C pi ≡ ok number)
        × (chain_id_of G S C pi.chain_config ≡ ok chain_id)
        × (p.1 ≡ prover_path number)
        × (p.2 ≡ input_headers G S C t chain_id)
  unfolding input_parts
  input_parts-eq-ok t pi {p} h =
      let (bytes, e, h1) = >>=-eq-ok _ (encode_input G S C t (some pi)) h in
      let (number, e', h2) = >>=-eq-ok _ (first_number G S C pi) h1 in
      let (chain_id, e'', h3) = >>=-eq-ok _ (chain_id_of G S C pi.chain_config) h2 in
      let same : ◌≡◌ {A = Bytes × Bytes × S.Headers}
          (bytes, prover_path number, input_headers G S C t chain_id) p =
        ok_inj h3 in
      let back = sym same in
      (
        number,
        chain_id,
        e ∙ ap (λ (q : Bytes × Bytes × S.Headers). ok q.0) same,
        e',
        e'',
        ap (λ (q : Bytes × Bytes × S.Headers). q.1) back,
        ap (λ (q : Bytes × Bytes × S.Headers). q.2) back,
      )

  -- Storing a prover input without an error leaves what is loaded at any other block number, for
  -- any chain ID and content type, as it was, if the store keeps its keys apart.
  pub load_prover_input-store_other :
      IsLawful S
      → (t : ContentType) (w : S.World) (pi : ProverInput G.Transaction) (number : ℕ) {w' : S.World}
      → store_prover_input G S C t w (some pi) ≡ (ok tt, w')
      → first_number G S C pi ≢ ok number
      → (t' : ContentType) (chain_id : ℕ)
      → load_prover_input G S C t' w' chain_id number ≡ load_prover_input G S C t' w chain_id number
  unfolding store_prover_input load_prover_input
  load_prover_input-store_other L t w pi number {w'} h other t' chain_id =
      let (p, e, stored) = store_parts-eq-ok S w (input_parts G S C t (some pi)) h in
      let (n, _, _, is_number, _, path, _) = input_parts-eq-ok t pi e in
      let apart : p.1 ≢ prover_path number =
        λ same. other (is_number ∙ ap ok (decimal_inj (sym path ∙ same))) in
      rw
        (L.load-store_other w p.1 p.0 p.2 (prover_path number) (input_headers G S C t' chain_id)
          stored apart)
        refl

module _ (G : Geth) (S : StoreLib) (C : InputCodec G S) (D : Decodes C) where
  -- What is left of an input in the store. Other content types are never stored.
  unfoldable pub as_stored :
      ContentType → ProverInput G.Transaction → Outcome (Option (ProverInput G.Transaction))
  as_stored content_type_json pi = do
    inputs ← context "failed to decode JSON" (D.view pi)
    ok (some inputs)
  as_stored content_type_protobuf pi = do
    m ← to_proto G (some pi)
    m' ← deref m
    from_proto G (some (D.wire m'))
  as_stored (content_type_other n) pi = err (error "unsupported content type")

  to_proto-some :
      (pi : ProverInput G.Transaction) {o : Option Message.ProverInput}
      → to_proto G (some pi) ≡ ok o
      → (m : Message.ProverInput) × (o ≡ some m)
  unfolding to_proto
  to_proto-some pi h =
      let (bs, _, h') = >>=-eq-ok _ (blocks_to_proto G pi.blocks) h in (_, sym (ok_inj h'))

  decode_input-encode_input :
      (t : ContentType) (pi : ProverInput G.Transaction) (r : S.Reader) {bytes : Bytes}
      → encode_input G S C t (some pi) ≡ ok bytes
      → S.read_all r ≡ ok bytes
      → decode_input G S C t r ≡ as_stored t pi
  unfolding encode_input decode_input as_stored unsupported
  decode_input-encode_input content_type_json pi r h read =
      rw (D.decode-encode pi r (context-eq-ok "failed to encode JSON" (C.encode (some pi)) h) read)
        refl
  decode_input-encode_input content_type_protobuf pi r h read =
      let (o, e, h') = >>=-eq-ok _ (to_proto G (some pi)) h in
      let (m, is) = to_proto-some pi e in
      let marshalled =
        context-eq-ok "failed to marshal protobuf" (C.marshal (some m)) (rw is at h') in
      rw (read, D.unmarshal-marshal m marshalled, e, is) refl
  decode_input-encode_input (content_type_other n) pi r h read =
      absurd (never (S.content_type_string (content_type_other n)) h)

  -- A prover input that was stored without an error has a block number and a chain ID, and
  -- loading them from a store that loads what it stored gives what its content type makes of it:
  -- what JSON's decoder makes of its JSON text, which may be an error, or FromProto of what
  -- protobuf keeps of its message.
  pub load_prover_input-store_prover_input :
      IsLawful S
      → (t : ContentType) (w : S.World) (pi : ProverInput G.Transaction) {w' : S.World}
      → store_prover_input G S C t w (some pi) ≡ (ok tt, w')
      → (number chain_id : ℕ) × (first_number G S C pi ≡ ok number)
        × (chain_id_of G S C pi.chain_config ≡ ok chain_id)
        × (load_prover_input G S C t w' chain_id number ≡ as_stored t pi)
  unfolding store_prover_input load_prover_input
  load_prover_input-store_prover_input L t w pi {w'} h =
      let (p, e, stored) = store_parts-eq-ok S w (input_parts G S C t (some pi)) h in
      let (number, chain_id, encoded, is_number, is_chain_id, path, headers) =
        input_parts-eq-ok G S C t pi e in
      let (r, loaded, read) = L.load-store w p.1 p.0 p.2 stored in
      let loaded' = rw (path, headers) at loaded in
      (
        number,
        chain_id,
        is_number,
        is_chain_id,
        rw loaded' (decode_input-encode_input t pi r encoded read),
      )
