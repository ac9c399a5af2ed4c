-- ===== src/Security/Keys/Published.antt =====
-- `ListSigningKeys`: what is published, and that rotation never unpublishes a key.
use identra.Common.{
  sort_strings, Has, Has-sort_strings, String, ◌≡◌, ◌≢◌, refl, ◌↔◌, inl, inr, Bool, true, false,
  not, Option, none, some, List, [], ◌∷◌, Dict, lookup, Distinct, arith, Option-cases, Any, eq_iff,
  if◌then◌else◌,
}
use identra.Security.Keys.{KeyState, retired, PublicKey, KeyEntry, KeyManager}
use identra.Security.Keys.Ring.{IsRing}

pub record SigningKey : Type 0 where
  pub key_id : String
  pub rsa : PublicKey

abbrev pub is_retired : KeyState → Bool
is_retired retired = true
is_retired _ = false

module _ {P : Type 0} where
  -- the ids of the ACTIVE and PASSIVE entries
  listed_ids : Dict (KeyEntry P) → List String
  listed_ids [] = []
  listed_ids ((k, e) ∷ m) = let rest = listed_ids m in if is_retired e.state then rest else k ∷ rest

  -- The exponent of a key of crypto/rsa is below 2 ^ 31, so its conversion to 32 bits keeps it.
  abbrev pub signing_key : KeyEntry P → SigningKey
  signing_key e = record { key_id = e.key_id; rsa = e.public_key }

  -- Every id that is listed is in the map, so the case `none` is not met.
  entries_of : Dict (KeyEntry P) → List String → List SigningKey
  entries_of m [] = []
  entries_of m (id ∷ ids) = elim (lookup id m) [
    | none ↦ entries_of m ids
    | some e ↦ signing_key e ∷ entries_of m ids
  ]

  unfoldable pub list_signing_keys : KeyManager P → List SigningKey
  unfolding listed_ids sort_strings entries_of
  list_signing_keys km = entries_of km.keys (sort_strings (listed_ids km.keys))

module _ {P : Type 0} where
  abbrev pub is_live : Option (KeyEntry P) → Bool
  is_live none = false
  is_live (some e) = not (is_retired e.state)

  Has-listed_ids :
      (id : String) (m : Dict (KeyEntry P))
      → Distinct m
      → Has id (listed_ids m) ↔ (is_live (lookup id m) ≡ true)
  unfolding lookup listed_ids
  Has-listed_ids id [] h = (λ x. absurd x, λ x. cc)
  Has-listed_ids id ((k, e) ∷ m) (fresh, h) = ground (arith, Has-listed_ids id m h, eq_iff k id)

  module _ (Q : SigningKey → Type 0) (m : Dict (KeyEntry P)) where
    Any-entries_of_from :
        (ids : List String)
        → Any Q (entries_of m ids)
        → (id : String) × Has id ids
          × ((e : KeyEntry P) × (lookup id m ≡ some e) × Q (signing_key e))
    unfolding entries_of
    Any-entries_of_from [] h = absurd h
    Any-entries_of_from (id ∷ ids) h = elim (Option-cases (lookup id m)) [
      | inl missing ↦
          let (j, has, e) = Any-entries_of_from ids (rw (missing, entries_of) at h) in
          (j, inr has, e)
      | inr (e, found) ↦ elim (rw (found, entries_of) at h) [
        | inl q ↦ (id, inl refl, (e, found, q))
        | inr later ↦ let (j, has, f) = Any-entries_of_from ids later in (j, inr has, f)
      ]
    ]

    Any-entries_of_to :
        (ids : List String) (id : String) (e : KeyEntry P)
        → Has id ids
        → lookup id m ≡ some e
        → Q (signing_key e)
        → Any Q (entries_of m ids)
    unfolding entries_of
    Any-entries_of_to [] id e h found q = absurd h
    Any-entries_of_to (j ∷ ids) id e (inl same) found q = rw (same, found, entries_of) (inl q)
    Any-entries_of_to (j ∷ ids) id e (inr later) found q =
        let rest = Any-entries_of_to ids id e later found q in
        elim (Option-cases (lookup j m)) [
          | inl missing ↦ rw (missing, entries_of) rest
          | inr (f, other) ↦ rw (other, entries_of) (inr rest)
        ]

  -- In a well-formed ring the keys that `ListSigningKeys` returns are exactly the public keys, under
  -- their ids, of the entries that are ACTIVE or PASSIVE: a property of keys holds of some key that
  -- is returned exactly when it holds of the key of some such entry.
  pub list_signing_keys_iff :
      (Q : SigningKey → Type 0) (km : KeyManager P)
      → IsRing km
      → Any Q (list_signing_keys km) ↔ (
          (id : String) × (e : KeyEntry P) × (lookup id km.keys ≡ some e)
          × (e.state ≢ retired)
          × Q (record { key_id = id; rsa = e.public_key }))
  unfolding list_signing_keys
  list_signing_keys_iff Q km ring = (
    λ h.
        let (id, has, (e, found, q)) = Any-entries_of_from Q km.keys _ h in
        let live = (Has-listed_ids id km.keys ring.distinct).0 ((Has-sort_strings id _).0 has) in
        (id, e, found, ground arith, rw (ring.named id e found) at q),
    λ (id, e, found, live, q).
        Any-entries_of_to Q km.keys _ id e
          ((Has-sort_strings id _).1
            ((Has-listed_ids id km.keys ring.distinct).1 (rw found (ground arith))))
          found (rw (ring.named id e found) q),
  )
