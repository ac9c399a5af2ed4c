-- ===== src/Security/Keys/Listing.antt =====
-- What the manager shows of its keys: the getters, `ListKeys` and `ExportPublicKeyPEM`.
use identra.Common.{
  String, ◌≡◌, refl, ◌↔◌, inl, inr, Option, none, some, List, [], ◌∷◌, Dict, lookup, Distinct,
  arith, Bool-cases, Any, eq_iff, ◌==◌, sym, ap, ◌∙◌,
}
use identra.Common.Exec.{Result, ok, err}
use identra.Security.Keys.{KeyState, active, PublicKey, Crypto, KeyEntry, KeyManager, empty}
use identra.Security.Keys.Ring.{IsRing, empty-IsRing}

pub record KeyInfo : Type 0 where
  pub key_id : String
  pub state : KeyState

pub data ExportError : Type 0 where
  no_public_key marshalling_failed : ExportError

module _ {P : Type 0} where
  abbrev pub get_private_key : KeyManager P → Option P
  get_private_key km = km.private_key

  abbrev pub get_public_key : KeyManager P → Option PublicKey
  get_public_key km = km.public_key

  abbrev pub get_key_id : KeyManager P → String
  get_key_id km = km.key_id

  -- The value of the process that `keyManagerOnce` guards; `none` until the first call.
  unfoldable pub get_key_manager : Option (KeyManager P) → KeyManager P × Option (KeyManager P)
  get_key_manager none = (empty, some empty)
  get_key_manager (some km) = (km, some km)

  key_infos : Dict (KeyEntry P) → List KeyInfo
  key_infos [] = []
  key_infos ((k, e) ∷ m) = record { key_id = e.key_id; state = e.state } ∷ key_infos m

  -- Go ranges over the map in no fixed order; this is one such order.
  unfoldable pub list_keys : KeyManager P → List KeyInfo
  unfolding key_infos
  list_keys km = key_infos km.keys

  unfoldable pub export_public_key_pem : Crypto P → KeyManager P → Result ExportError String
  export_public_key_pem crypto km = elim km.public_key [
    | none ↦ err no_public_key
    | some public ↦ elim (crypto.marshal_pkix public) [
      | none ↦ err marshalling_failed
      | some bytes ↦ ok (crypto.pem_encode "PUBLIC KEY" bytes)
    ]
  ]

module _ {P : Type 0} where
  module _ (Q : KeyInfo → Type 0) where
    abbrev pub Shown : KeyEntry P → Type 0
    Shown e = Q (record { key_id = e.key_id; state = e.state })

    Any-key_infos_from :
        (m : Dict (KeyEntry P))
        → Distinct m
        → Any Q (key_infos m)
        → (id : String) × (e : KeyEntry P) × (lookup id m ≡ some e) × Shown e
    unfolding key_infos lookup
    Any-key_infos_from [] h q = absurd q
    Any-key_infos_from ((k, e) ∷ m) h (inl q) = (k, e, ground (arith, eq_iff k k), q)
    Any-key_infos_from ((k, e) ∷ m) (fresh, h) (inr later) =
        let (id, f, found, q) = Any-key_infos_from m h later in
        (id, f, ground (arith, eq_iff k id), q)

    Any-key_infos_to :
        (m : Dict (KeyEntry P)) (id : String) (e : KeyEntry P)
        → lookup id m ≡ some e
        → Shown e
        → Any Q (key_infos m)
    unfolding key_infos lookup
    Any-key_infos_to [] id e found q = absurd (ground arith)
    Any-key_infos_to ((k, f) ∷ m) id e found q = elim (Bool-cases (k == id)) [
      | inl same ↦ let first : f ≡ e = ground arith in inl (rw first q)
      | inr other ↦ inr (Any-key_infos_to m id e (ground arith) q)
    ]

  -- The first call of `GetKeyManager` returns a well-formed manager, and a later call returns the one
  -- that the process holds.
  pub get_key_manager-IsRing :
      (km : KeyManager P)
      → IsRing (get_key_manager {P = P} none).0
        × (get_key_manager (get_key_manager (some km)).1 ≡ get_key_manager (some km))
        × (get_key_manager (get_key_manager {P = P} none).1 ≡ get_key_manager none)
  unfolding get_key_manager
  get_key_manager-IsRing km = (empty-IsRing, refl, refl)

  -- In a well-formed ring `ListKeys` reports exactly the entries of the map, each under the id at
  -- which the ring holds it: a property holds of some report exactly when it holds of the id and the
  -- state of some entry.
  pub list_keys_iff :
      (Q : KeyInfo → Type 0) (km : KeyManager P)
      → IsRing km
      → Any Q (list_keys km) ↔ (
          (id : String) × (e : KeyEntry P) × (lookup id km.keys ≡ some e)
          × Q (record { key_id = id; state = e.state }))
  unfolding list_keys
  list_keys_iff Q km ring = (
    λ h.
        let (id, e, found, q) = Any-key_infos_from Q km.keys ring.distinct h in
        (id, e, found, rw (ring.named id e found) at q),
    λ (id, e, found, q). Any-key_infos_to Q km.keys id e found (rw (ring.named id e found) q),
  )

  -- In a well-formed ring, a report of `ListKeys` that is ACTIVE names the key id of the manager, and
  -- there is one when the manager has a private key.
  pub active_key_listed :
      (km : KeyManager P)
      → IsRing km
      → ((i : KeyInfo)
          → Any (λ j. (j ≡ i)) (list_keys km)
          → i.state ≡ active
          → i.key_id ≡ get_key_id km)
        × ((p : P)
            → get_private_key km ≡ some p
            → Any (λ j. (j.state ≡ active) × (j.key_id ≡ get_key_id km)) (list_keys km))
  active_key_listed km ring = (
    λ i listed live.
        let (id, e, found, is) = (list_keys_iff (λ j. j ≡ i) km ring).0 listed in
        let (signs, _, _) = ring.signs id e found (ap (λ j. j.state) is ∙ live) in
        sym (signs ∙ ap (λ j. j.key_id) is),
    λ p has.
        let (e, found, live) = ring.backed p has in
        (list_keys_iff (λ j. (j.state ≡ active) × (j.key_id ≡ get_key_id km)) km ring).1
          (km.key_id, e, found, (live, refl)),
  )
