-- ===== src/Security/Keys/Rotation.antt =====
-- Key rotation: what the calls do to the set of published keys and to the key that signs.
use identra.Common.{
  String, ◌≡◌, ◌≢◌, refl, ◌↔◌, ◌⊎◌, inl, inr, ◌==◌, true, Option, none, some, List, [], ◌∷◌, Dict,
  lookup, insert, lookup-insert, lookup-remove, arith, Option-cases, Any, eq_iff, if◌then◌else◌,
}
use identra.Common.Exec.{ok}
use identra.Security.Keys.{
  active, passive, retired, Crypto, PublicKey, KeyEntry, KeyManager, promote_key, demote_key,
  retire_key, install, generate_key_pair, add_key_passive, generate_key_id, entry_of,
}
use identra.Security.Keys.Ring.{IsRing, removed-IsRing, lookup-signing, demoted_option}
use identra.Security.Keys.Methods.{
  initialize_from_pem_cases, promote_key_cases, demote_key_cases, retire_key_cases,
}
use identra.Security.Keys.Commands.{
  Command, initialize, generate, add_passive, promote, demote, retire, apply, apply_all,
  apply-IsRing, AreAdmissible,
}
use identra.Security.Keys.Published.{is_live, list_signing_keys, list_signing_keys_iff}

module _ {P : Type 0} where
  abbrev pub IsLive : KeyManager P → String → Type 0
  IsLive km id = is_live (lookup id km.keys) ≡ true

  signing-is_live :
      (id j : String) (e : KeyEntry P) (m : Dict (KeyEntry P))
      → e.state ≢ retired
      → is_live (lookup j m) ≡ true
      → is_live (if id == j then some e else demoted_option (lookup j m)) ≡ true
  signing-is_live id j e m live h = ground arith

  insert-is_live :
      (id j : String) (e : KeyEntry P) (m : Dict (KeyEntry P))
      → e.state ≢ retired
      → is_live (lookup j m) ≡ true
      → is_live (lookup j (insert id e m)) ≡ true
  insert-is_live id j e m live h = rw lookup-insert (ground arith)

  abbrev pub keys_of : Option (KeyEntry P) → Option (P × PublicKey)
  keys_of none = none
  keys_of (some e) = some (e.private_key, e.public_key)

  signing-keys_of :
      (id j : String) (e : KeyEntry P) (m : Dict (KeyEntry P))
      → lookup id m ≡ some e
      → keys_of
          (if id == j then some (record e { state = active }) else demoted_option (lookup j m))
        ≡ keys_of (lookup j m)
  signing-keys_of id j e m found = ground (arith, eq_iff id j)

  signing-active :
      (id j : String) (e f : KeyEntry P) (o : Option (KeyEntry P))
      → (if id == j then some (record e { state = active }) else demoted_option o) ≡ some f
      → (f.state ≡ active) ↔ (j ≡ id)
  signing-active id j e f none h = ground (arith, eq_iff id j)
  signing-active id j e f (some g) h = ground (arith, eq_iff id j)

  -- After `PromoteKey` has succeeded on a well-formed ring, the signing fields hold the id of the key and
  -- the private and the public key of its entry, it is the only ACTIVE entry, and every entry keeps its
  -- private and its public key.
  pub promote_key_lem :
      (id : String) (km : KeyManager P)
      → IsRing km
      → (promote_key id km).0 ≡ ok tt
      → ((promote_key id km).1.key_id ≡ id)
        × ((e : KeyEntry P) × (lookup id km.keys ≡ some e)
            × ((promote_key id km).1.private_key ≡ some e.private_key)
            × ((promote_key id km).1.public_key ≡ some e.public_key))
        × ((j : String) (f : KeyEntry P)
            → lookup j (promote_key id km).1.keys ≡ some f
            → (f.state ≡ active) ↔ (j ≡ id))
        × ((j : String)
            → keys_of (lookup j (promote_key id km).1.keys) ≡ keys_of (lookup j km.keys))
  promote_key_lem id km ring h = elim (promote_key_cases id km) [
    | inl (x, same) ↦ absurd (cc (same))
    | inr (e, found, idle, done) ↦ rw done (
      ring.named id e found,
      (e, found, refl, refl),
      λ j f at. signing-active id j e f (lookup j km.keys) (rw lookup-signing at at),
      λ j. rw lookup-signing (signing-keys_of id j e km.keys found),
    )
  ]

  promoted-IsLive :
      (id j : String) (km : KeyManager P) → IsLive km j → IsLive (promote_key id km).1 j
  promoted-IsLive id j km h = elim (promote_key_cases id km) [
    | inl (x, same) ↦ rw same h
    | inr (e, found, idle, done) ↦ rw done (
        rw lookup-signing
          (signing-is_live id j (record e { state = active }) km.keys (ground arith) h))
  ]

  demoted-IsLive :
      (id j : String) (km : KeyManager P) → IsRing km → IsLive km j → IsLive (demote_key id km).1 j
  demoted-IsLive id j km ring h = elim (demote_key_cases id km ring) [
    | inl (x, same) ↦ rw same h
    | inr (e, found, live, done) ↦
        rw done (insert-is_live id j (record e { state = passive }) km.keys (ground arith) h)
  ]

  retired-IsLive :
      (id j : String) (km : KeyManager P) → id ≢ j → IsLive km j → IsLive (retire_key id km).1 j
  retired-IsLive id j km other h = elim (retire_key_cases id km) [
    | inl (x, same) ↦ rw same h
    | inr (e, found, idle, done) ↦ rw done (rw lookup-remove (ground (arith, eq_iff id j)))
  ]

module _ {P : Type 0} (crypto : Crypto P) where
  installed-IsLive :
      (p : P) (j : String) (km : KeyManager P) → IsLive km j → IsLive (install crypto p km) j
  unfolding install
  installed-IsLive p j km h =
      let public = crypto.public_of p in
      let id = generate_key_id crypto public in
      rw lookup-signing
        (signing-is_live id j (entry_of public p id active) km.keys (ground arith) h)

  abbrev pub Retires : Command P → String → Type 0
  Retires (retire id) j = id ≡ j
  Retires _ j = ⊥

  pub apply-IsLive :
      (c : Command P) (km : KeyManager P) (j : String)
      → IsRing km
      → ¬ Retires c j
      → IsLive km j
      → IsLive (apply crypto c km) j
  unfolding apply
  apply-IsLive (initialize pem) km j ring kept h = elim (initialize_from_pem_cases crypto pem km) [
    | inl (x, same) ↦ rw (same, apply) h
    | inr (p, done) ↦ rw (done, apply) (installed-IsLive p j km h)
  ]
  apply-IsLive (generate none) km j ring kept h = unfold generate_key_pair in h
  apply-IsLive (generate (some p)) km j ring kept h =
      unfold generate_key_pair in installed-IsLive p j km h
  apply-IsLive (add_passive none) km j ring kept h = unfold add_key_passive in h
  apply-IsLive (add_passive (some p)) km j ring kept h =
      let public = crypto.public_of p in
      let id = generate_key_id crypto public in
      unfold add_key_passive in
      insert-is_live id j (entry_of public p id passive) km.keys (ground arith) h
  apply-IsLive (promote id) km j ring kept h = promoted-IsLive id j km h
  apply-IsLive (demote id) km j ring kept h = demoted-IsLive id j km ring h
  apply-IsLive (retire id) km j ring kept h = retired-IsLive id j km kept h

  abbrev pub Published : String → KeyManager P → Type 0
  Published j km = Any (λ k. k.key_id ≡ j) (list_signing_keys km)

  Published-of_IsLive : (j : String) (km : KeyManager P) → IsRing km → IsLive km j → Published j km
  Published-of_IsLive j km ring h = elim (Option-cases (lookup j km.keys)) [
    | inl missing ↦ cc (rw missing at h)
    | inr (e, found) ↦
        let live : is_live (some e) ≡ true = rw found at h in
        (list_signing_keys_iff _ km ring).1 (j, e, found, ground arith, refl)
  ]

  IsLive-of_Published : (j : String) (km : KeyManager P) → IsRing km → Published j km → IsLive km j
  IsLive-of_Published j km ring h =
      let (id, e, found, live, same) = (list_signing_keys_iff _ km ring).0 h in
      rw (← same) (rw found (ground arith))

  abbrev pub RetiresIn : List (Command P) → String → Type 0
  RetiresIn [] j = ⊥
  RetiresIn (c ∷ cs) j = Retires c j ⊎ RetiresIn cs j

  apply_all-IsLive :
      (cs : List (Command P)) (km : KeyManager P) (j : String)
      → IsRing km
      → AreAdmissible crypto cs km
      → ¬ RetiresIn cs j
      → IsLive km j
      → IsRing (apply_all crypto cs km) × IsLive (apply_all crypto cs km) j
  unfolding apply_all
  apply_all-IsLive [] km j ring fresh kept h = (ring, h)
  apply_all-IsLive (c ∷ cs) km j ring (now, later) kept h =
      apply_all-IsLive cs (apply crypto c km) j (apply-IsRing crypto c km ring now) later
        (λ r. kept (inr r)) (apply-IsLive c km j ring (λ r. kept (inl r)) h)

  -- From a well-formed ring, a key that is published stays published under its id through any
  -- sequence of calls that does not retire that id (and that adds no PASSIVE key with the id of the
  -- ACTIVE one): adding, promoting, demoting and replacing keys never unpublish another.
  pub rotation_keeps_Published :
      (cs : List (Command P)) (km : KeyManager P) (j : String)
      → IsRing km
      → AreAdmissible crypto cs km
      → ¬ RetiresIn cs j
      → Published j km
      → Published j (apply_all crypto cs km)
  rotation_keeps_Published cs km j ring fresh kept h =
      let (ring', live) =
        apply_all-IsLive cs km j ring fresh kept (IsLive-of_Published j km ring h) in
      Published-of_IsLive j (apply_all crypto cs km) ring' live

module _ {P : Type 0} where
  -- On a well-formed ring `RetireKey` refuses the key that signs; where it succeeds, the id is no
  -- longer published, and the key that signs is the one that signed before.
  pub retire_key_lem :
      (id : String) (km : KeyManager P)
      → IsRing km
      → (retire_key id km).0 ≡ ok tt
      → (¬ Any (λ k. k.key_id ≡ id) (list_signing_keys (retire_key id km).1))
        × ((retire_key id km).1.private_key ≡ km.private_key)
        × ((p : P) → km.private_key ≡ some p → km.key_id ≢ id)
  retire_key_lem id km ring h = elim (retire_key_cases id km) [
    | inl (x, same) ↦ absurd (cc same)
    | inr (e, found, idle, done) ↦ rw done (
      λ published.
          let (j, f, at, live, same) =
            (list_signing_keys_iff _ _ (removed-IsRing km id e ring found idle)).0 published in
          absurd (ground (arith, lookup-remove id j km.keys, eq_iff id j)),
      refl,
      λ p signs same. let (f, at, live) = ring.backed p signs in idle (ground arith),
    )
  ]
