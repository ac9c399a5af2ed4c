-- ===== src/Security/Keys/Methods.antt =====
-- Every method keeps the ring, and rotation does what it says.
use identra.Common.{
  String, ◌≡◌, ◌≢◌, refl, eq_iff, none, some, lookup, insert, remove, arith, Option-cases,
  Bool-cases, ◌⊎◌, inl, inr,
}
use identra.Common.Exec.{ok, err, ◌>>=◌, Result-cases}
use identra.Security.Keys.{
  active, passive, is_active, is_passive, not_active, retire_active, Crypto, KeyEntry, KeyManager,
  KeyError, parse_block, not_found, not_passive, entry_of, promote_key, demote_key, retire_key,
  install, initialize_from_pem, add_key_passive, generate_key_id, demote_all,
}
use identra.Security.Keys.Ring.{
  IsRing, signing-IsRing, passive-IsRing, silent-IsRing, removed-IsRing,
}

module _ {P : Type 0} where
  -- The manager after `PromoteKey` has accepted the entry.
  abbrev pub promoted : String → KeyEntry P → KeyManager P → KeyManager P
  promoted id e km = record {
    private_key = some e.private_key;
    public_key = some e.public_key;
    key_id = e.key_id;
    keys = insert id (record e { state = active }) (demote_all km.keys);
  }

  -- The manager after `DemoteKey` has accepted the entry that signs.
  abbrev pub silenced : String → KeyEntry P → KeyManager P → KeyManager P
  silenced id e km = record {
    private_key = none;
    public_key = none;
    key_id = "";
    keys = insert id (record e { state = passive }) km.keys;
  }

  -- A call that fails has changed nothing.
  pub promote_key_refused :
      (id : String) (km : KeyManager P) (x : KeyError)
      → (promote_key id km).0 ≡ err x
      → (promote_key id km).1 ≡ km
  unfolding promote_key
  promote_key_refused id km x h = ground arith

  pub demote_key_refused :
      (id : String) (km : KeyManager P) (x : KeyError)
      → (demote_key id km).0 ≡ err x
      → (demote_key id km).1 ≡ km
  unfolding demote_key
  demote_key_refused id km x h = ground arith

  pub retire_key_refused :
      (id : String) (km : KeyManager P) (x : KeyError)
      → (retire_key id km).0 ≡ err x
      → (retire_key id km).1 ≡ km
  unfolding retire_key
  retire_key_refused id km x h = ground arith

  -- `PromoteKey` fails and changes nothing, or the entry was PASSIVE and now signs.
  pub promote_key_cases :
      (id : String) (km : KeyManager P)
      → ((x : KeyError) × (promote_key id km ≡ (err x, km)))
        ⊎ ((e : KeyEntry P) × (lookup id km.keys ≡ some e)
            × (e.state ≡ passive)
            × (promote_key id km ≡ (ok tt, promoted id e km)))
  unfolding promote_key
  promote_key_cases id km = elim (Option-cases (lookup id km.keys)) [
    | inl missing ↦ inl (not_found id, ground arith)
    | inr (e, found) ↦ elim (Bool-cases (is_passive e.state)) [
      | inl idle ↦ inr (e, found, ground arith, ground arith)
      | inr other ↦ inl (not_passive id, ground arith)
    ]
  ]

  pub promoted-IsRing :
      (id : String) (km : KeyManager P) (e : KeyEntry P)
      → IsRing km
      → lookup id km.keys ≡ some e
      → IsRing (promoted id e km)
  promoted-IsRing id km e ring found =
      signing-IsRing km id (record e { state = active }) ring (ring.named id e found) refl

  pub promote_key-IsRing :
      (id : String) (km : KeyManager P) → IsRing km → IsRing (promote_key id km).1
  promote_key-IsRing id km ring = elim (promote_key_cases id km) [
    | inl (x, same) ↦ rw same ring
    | inr (e, found, idle, done) ↦ rw done (promoted-IsRing id km e ring found)
  ]

  -- So `DemoteKey`, where the entry was the one that signs.
  pub demote_key_cases :
      (id : String) (km : KeyManager P)
      → IsRing km
      → ((x : KeyError) × (demote_key id km ≡ (err x, km)))
        ⊎ ((e : KeyEntry P) × (lookup id km.keys ≡ some e)
            × (e.state ≡ active)
            × (demote_key id km ≡ (ok tt, silenced id e km)))
  unfolding demote_key
  demote_key_cases id km ring = elim (Option-cases (lookup id km.keys)) [
    | inl missing ↦ inl (not_found id, ground arith)
    | inr (e, found) ↦ elim (Bool-cases (is_active e.state)) [
      | inl live ↦
          inr (e, found, ground arith, ground (arith, ring.signs id e found, eq_iff km.key_id id))
      | inr other ↦ inl (not_active id, ground arith)
    ]
  ]

  -- So `RetireKey`, which refuses the ACTIVE entry.
  pub retire_key_cases :
      (id : String) (km : KeyManager P)
      → ((x : KeyError) × (retire_key id km ≡ (err x, km)))
        ⊎ ((e : KeyEntry P) × (lookup id km.keys ≡ some e)
            × (e.state ≢ active)
            × (retire_key id km ≡ (ok tt, record km { keys = remove id km.keys })))
  unfolding retire_key
  retire_key_cases id km = elim (Option-cases (lookup id km.keys)) [
    | inl missing ↦ inl (not_found id, ground arith)
    | inr (e, found) ↦ elim (Bool-cases (is_active e.state)) [
      | inl live ↦ inl (retire_active id, ground arith)
      | inr other ↦ inr (e, found, ground arith, ground arith)
    ]
  ]

  pub demote_key-IsRing :
      (id : String) (km : KeyManager P) → IsRing km → IsRing (demote_key id km).1
  demote_key-IsRing id km ring = elim (demote_key_cases id km ring) [
    | inl (x, same) ↦ rw same ring
    | inr (e, found, live, done) ↦ rw done (silent-IsRing km id e ring found live)
  ]

  pub retire_key-IsRing :
      (id : String) (km : KeyManager P) → IsRing km → IsRing (retire_key id km).1
  retire_key-IsRing id km ring = elim (retire_key_cases id km) [
    | inl (x, same) ↦ rw same ring
    | inr (e, found, idle, done) ↦ rw done (removed-IsRing km id e ring found idle)
  ]

module _ {P : Type 0} (crypto : Crypto P) where
  pub install-IsRing : (p : P) (km : KeyManager P) → IsRing km → IsRing (install crypto p km)
  unfolding install
  install-IsRing p km ring =
      let public = crypto.public_of p in
      let id = generate_key_id crypto public in
      signing-IsRing km id (entry_of public p id active) ring refl refl

  -- `InitializeFromPEM` fails and changes nothing, or installs the key that it read.
  pub initialize_from_pem_cases :
      (pem : String) (km : KeyManager P)
      → ((x : KeyError) × (initialize_from_pem crypto pem km ≡ (err x, km)))
        ⊎ ((p : P) × (initialize_from_pem crypto pem km ≡ (ok tt, install crypto p km)))
  unfolding initialize_from_pem
  initialize_from_pem_cases pem km =
      elim (Result-cases (parse_block crypto (crypto.pem_decode pem))) [
        | inl (p, read) ↦ inr (p, rw (read, ◌>>=◌))
        | inr (x, failed) ↦ inl (x, rw (failed, ◌>>=◌))
      ]

  -- The id that is drawn is not that of the ACTIVE entry.
  abbrev pub IsFresh : P → KeyManager P → Type 0
  IsFresh p km =
      (e : KeyEntry P)
      → lookup (generate_key_id crypto (crypto.public_of p)) km.keys ≡ some e
      → e.state ≢ active

  pub add_key_passive-IsRing :
      (p : P) (km : KeyManager P)
      → IsRing km
      → IsFresh p km
      → IsRing (add_key_passive crypto (some p) km).1
  unfolding add_key_passive
  add_key_passive-IsRing p km ring fresh =
      let public = crypto.public_of p in
      let id = generate_key_id crypto public in
      passive-IsRing km id (entry_of public p id passive) ring refl refl fresh
