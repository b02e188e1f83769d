-- ===== src/Value/Documents/Checked.antt =====
-- That a document checks: what `verify_document` of backend/app/value/documents.py says of what the builders
-- make, and of a document in which items are withheld.
use can_framework.Prelude.{
  ℕ, ◌+◌, ◌≤◌, ◌≡◌, refl, ap, ◌∙◌, Bool, true, false, Option, none, some, List, [], ◌∷◌, ◌++◌,
  String, str_eq, str_eq_iff, if◌then◌else◌, arith, Option-cases, inl, inr,
}
use mathlib.Core.Path.{subst}
use can_framework.Prelude.Table.{select}
use can_framework.Value.Records.{MapItem}
use can_framework.Value.Proofs.{Node}
use can_framework.Value.Access.{Asset, Access}
use can_framework.Value.Engine.{Floats, ValueConfig, AssetEvidence}
use can_framework.Value.Documents.{
  Profile, is_known, Header, Content, evidence_of, map_item_of, asset_of, withheld, Item, Statement,
  Document, Seals, content_of, hashed_item, hashes, document_root, current_evidence, visible_in,
  is_disclosed, evidence_items, sealed, Issue, asset_subject, header_of, valuation_section,
  build_document, item_kind, map_items, asset_content, asset_items, build_map_slice,
}
use can_framework.Value.Documents.Reports.{
  DocReport, is_bad, count_bad, root_ok, key_of, verify_document,
}

module _ (F : Floats) where
  -- What PyNaCl documents: a signature made with a key verifies with its public key.
  abbrev pub HasSignatures : Seals F → Type 0
  HasSignatures c =
      (key root : String) → c.verifies (c.public_key key) root (c.sign key root) ≡ true

  str_eq_self : (s : String) → str_eq s s ≡ true
  str_eq_self s = (str_eq_iff s s).1 refl

  hashed_item_good :
      (c : Seals F) (salt : String) (id : ℕ) (content : Content F) (disclose : Bool)
      → is_bad F c (hashed_item F c salt id content disclose) ≡ false
  unfolding hashed_item
  hashed_item_good c salt id content true = rw (str_eq_self (c.sha_item salt content)) refl
  hashed_item_good c salt id content false = refl

  evidence_items_good :
      (c : Seals F) (salts : ℕ → String) (disclose : Option (List String))
      (es : List (AssetEvidence F))
      → count_bad F c (evidence_items F c salts disclose es) ≡ 0
  unfolding evidence_items
  evidence_items_good c salts disclose [] = refl
  evidence_items_good c salts disclose (e ∷ es) =
      rw
        (hashed_item_good c (salts e.id) e.id (evidence_of (content_of F e))
          (is_disclosed F disclose e.category))
        (omega (arith, evidence_items_good c salts disclose es))

  map_items_good :
      (c : Seals F) (salts : ℕ → String) (include : Option (List String)) (is : List MapItem)
      → count_bad F c (map_items F c salts include is) ≡ 0
  unfolding map_items
  map_items_good c salts include [] = refl
  map_items_good c salts include (i ∷ is) =
      rw
        (hashed_item_good c (salts i.id) i.id (map_item_of i)
          (is_disclosed F include (item_kind F i.item_type)))
        (omega (arith, map_items_good c salts include is))

  asset_items_good :
      (c : Seals F) (cfg : ValueConfig F) (rows : List (AssetEvidence F)) (salts : ℕ → String)
      (include : Option (List String)) (assets : List Asset)
      → count_bad F c (asset_items F c cfg rows salts include assets) ≡ 0
  unfolding asset_items
  asset_items_good c cfg rows salts include [] = refl
  asset_items_good c cfg rows salts include (a ∷ rest) =
      rw
        (hashed_item_good c (salts a.id) a.id (asset_of (asset_content F cfg rows a))
          (is_disclosed F include "asset"))
        (omega (arith, asset_items_good c cfg rows salts include rest))

  count_bad-append :
      (c : Seals F) (xs ys : List (Item F))
      → count_bad F c (xs ++ ys) ≡ count_bad F c xs + count_bad F c ys
  count_bad-append c [] ys = omega arith
  count_bad-append c (x ∷ xs) ys = omega (arith, count_bad-append c xs ys)

  -- A report that finds nothing wrong, with the signature of a node that has a key.
  pub record IsVerified (node : Node) (trusted : List (String × String))
      (public_key : String → String) (r : DocReport F) : Type 0 where
    pub valid : r.valid ≡ true
    pub root : r.root_matches ≡ true
    pub signature : r.signature_valid ≡ elim node.signing_key [ none ↦ none | some key ↦ some true ]
    pub trust : r.signer_trusted ≡ elim node.signing_key [
      | none ↦ false
      | some key ↦ elim (key_of F node.node_id trusted) [
        | none ↦ false
        | some k ↦ str_eq k (public_key key)
      ]
    ]

  sealed-IsVerified :
      (c : Seals F) (node : Node) (trusted : List (String × String)) (header : Header)
      (items : List (Item F)) (body : Option (Statement F))
      → HasSignatures c
      → is_known header.profile ≡ true
      → count_bad F c items ≡ 0
      → IsVerified node trusted c.public_key
          (verify_document F c trusted (sealed F c node header items body))
  unfolding sealed verify_document
  sealed-IsVerified c node trusted header items body signs known good =
      let root = c.sha_root header (hashes F items) body in
      let same = str_eq_self root in
      elim (Option-cases node.signing_key) [
        | inl unsigned ↦ record {
          valid = ground arith;
          root = same;
          signature = ground arith;
          trust = ground arith;
        }
        | inr (key, signed) ↦
            let good_signature = signs key root in
            record {
              valid = ground arith;
              root = same;
              signature = ground arith;
              trust = ground arith;
            }
      ]

  -- A round trip: whatever the evidence, the access and the choice of what to disclose, a document that a
  -- node builds of an asset, or of a slice of its map, verifies anywhere: no problem is found, the root
  -- covers it, its signature is valid where the node has a key and absent where it has none, and the signer
  -- is trusted exactly where the receiver has the node's key on file.
  pub built_documents_verify :
      (c : Seals F) (node : Node) (trusted : List (String × String)) (cfg : ValueConfig F)
      (issue : Issue F) (rows : List (AssetEvidence F)) (disclose : Option (List String))
      → HasSignatures c
      → ((asset : Asset) (access : Access) (include : Bool) (doc : Document F)
          → build_document F c node cfg issue rows asset access disclose include ≡ some doc
          → IsVerified node trusted c.public_key (verify_document F c trusted doc))
        × ((subject : List (String × String)) (items : List MapItem) (assets : List Asset)
            → IsVerified node trusted c.public_key (
                verify_document F c trusted
                  (build_map_slice F c node cfg issue rows subject items assets disclose)))
  unfolding build_document build_map_slice
  built_documents_verify c node trusted cfg issue rows disclose signs = (
    λ asset access include doc e.
        let evidence = current_evidence F asset.id rows in
        elim (Option-cases (valuation_section F cfg access include evidence)) [
          | inl raised ↦ absurd (ground arith)
          | inr (body, there) ↦
              let items =
                evidence_items F c issue.salts disclose (select (visible_in F access) evidence) in
              let header = header_of F Profile.value node issue (asset_subject F asset) disclose in
              let same : sealed F c node header items body ≡ doc = ground arith in
              subst (λ d. IsVerified node trusted c.public_key (verify_document F c trusted d)) same
                (sealed-IsVerified c node trusted header items body signs refl (
                  evidence_items_good c issue.salts disclose
                    (select (visible_in F access) evidence)))
        ],
    λ subject items assets.
        sealed-IsVerified c node trusted (header_of F Profile.map node issue subject disclose)
          (map_items F c issue.salts disclose items
            ++ asset_items F c cfg rows issue.salts disclose assets)
          none signs refl
          (count_bad-append c (map_items F c issue.salts disclose items)
              (asset_items F c cfg rows issue.salts disclose assets)
            ∙ omega (
              arith,
              map_items_good c issue.salts disclose items,
              asset_items_good c cfg rows issue.salts disclose assets,
            )),
  )

  -- A document with some of its items withheld: their hashes stay.
  abbrev pub withhold_item : Bool → Item F → Item F
  withhold_item true i = record i { shown = withheld }
  withhold_item false i = i

  abbrev pub withhold_items : (Item F → Bool) → List (Item F) → List (Item F)
  withhold_items p [] = []
  withhold_items p (i ∷ is) = withhold_item (p i) i ∷ withhold_items p is

  abbrev pub withhold : (Item F → Bool) → Document F → Document F
  withhold p doc = record doc { items = withhold_items p doc.items }

  withhold_item-hash : (b : Bool) (i : Item F) → (withhold_item b i).hash ≡ i.hash
  withhold_item-hash true i = refl
  withhold_item-hash false i = refl

  withhold_items-hashes :
      (p : Item F → Bool) (is : List (Item F)) → hashes F (withhold_items p is) ≡ hashes F is
  withhold_items-hashes p [] = refl
  withhold_items-hashes p (i ∷ is) = cc (withhold_item-hash (p i) i, withhold_items-hashes p is)

  withhold_item_good :
      (c : Seals F) (b : Bool) (i : Item F)
      → (if is_bad F c (withhold_item b i) then 1 else 0) ≤ (if is_bad F c i then 1 else 0)
  withhold_item_good c true i = omega arith
  withhold_item_good c false i = omega arith

  count_bad-withhold :
      (c : Seals F) (p : Item F → Bool) (is : List (Item F))
      → count_bad F c (withhold_items p is) ≤ count_bad F c is
  count_bad-withhold c p [] = omega arith
  count_bad-withhold c p (i ∷ is) =
      omega (arith, withhold_item_good c (p i) i, count_bad-withhold c p is)

  -- Whoever withholds any items of a document that is valid hands on a document that is valid, with the same
  -- root, signature and trust in its signer.
  pub withheld_stays_valid :
      (c : Seals F) (trusted : List (String × String)) (p : Item F → Bool) (doc : Document F)
      → (verify_document F c trusted doc).valid ≡ true
      → let before = verify_document F c trusted doc in
        let after = verify_document F c trusted (withhold p doc) in
        (after.valid ≡ true)
        × (after.root_matches ≡ before.root_matches)
        × (after.signature_valid ≡ before.signature_valid)
        × (after.signer_trusted ≡ before.signer_trusted)
  unfolding verify_document document_root
  withheld_stays_valid c trusted p doc h =
      let fewer = count_bad-withhold c p doc.items in
      let same : root_ok F c (withhold p doc) ≡ root_ok F c doc =
        ap (λ hs. str_eq (c.sha_root doc.header hs doc.body) doc.root)
          (withhold_items-hashes p doc.items) in
      (ground arith, same, refl, refl)
