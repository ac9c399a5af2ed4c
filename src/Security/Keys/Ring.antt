-- ===== src/Security/Keys/Ring.antt =====
-- The ring's invariant, and what each method does to it.
use identra.Common.{
  String, ◌≡◌, ◌≢◌, refl, ◌∙◌, inl, inr, ap, ◌==◌, eq_iff, eq_refl, Option, none, some, [], ◌∷◌,
  Dict, lookup, insert, remove, lookup-insert, lookup-remove, Distinct, insert-Distinct,
  remove-Distinct, arith, Option-cases, if◌then◌else◌,
}
use identra.Security.Keys.{active, passive, KeyEntry, KeyManager, demoted, demote_all, empty}

module _ {P : Type 0} where
  -- Entries are stored under their own ids, and the key that signs is the one ACTIVE entry.
  pub record IsRing (km : KeyManager P) : Type 0 where
    pub distinct : Distinct km.keys
    pub named : (id : String) (e : KeyEntry P) → lookup id km.keys ≡ some e → e.key_id ≡ id
    pub signs :
        (id : String) (e : KeyEntry P)
        → lookup id km.keys ≡ some e
        → e.state ≡ active
        → (km.key_id ≡ id)
          × (km.private_key ≡ some e.private_key)
          × (km.public_key ≡ some e.public_key)
    pub backed :
        (p : P)
        → km.private_key ≡ some p
        → (e : KeyEntry P) × (lookup km.key_id km.keys ≡ some e) × (e.state ≡ active)

  abbrev pub demoted_option : Option (KeyEntry P) → Option (KeyEntry P)
  demoted_option none = none
  demoted_option (some e) = some (demoted e)

  pub lookup-demote_all :
      (id : String) (m : Dict (KeyEntry P))
      → lookup id (demote_all m) ≡ demoted_option (lookup id m)
  unfolding lookup demote_all
  lookup-demote_all id [] = refl
  lookup-demote_all id ((k, e) ∷ m) = ground (arith, lookup-demote_all id m)

  demote_all-Distinct : (m : Dict (KeyEntry P)) → Distinct m → Distinct (demote_all m)
  unfolding demote_all
  demote_all-Distinct [] h = tt
  demote_all-Distinct ((k, e) ∷ m) (fresh, h) =
      (rw (lookup-demote_all k m, fresh) refl, demote_all-Distinct m h)

  pub empty-IsRing : IsRing (empty {P = P})
  unfolding lookup
  empty-IsRing = record {
    distinct = tt;
    named = λ id e h. cc;
    signs = λ id e h a. cc;
    backed = λ p h. cc;
  }

  demoted-ne-active : (e : KeyEntry P) → (demoted e).state ≡ active → ⊥
  demoted-ne-active e h = ground arith

  -- What a look-up finds after every entry was demoted and one was written.
  pub lookup-signing :
      (id j : String) (e : KeyEntry P) (m : Dict (KeyEntry P))
      → lookup j (insert id e (demote_all m))
        ≡ (if id == j then some e else demoted_option (lookup j m))
  lookup-signing id j e m = simp (lookup-insert, lookup-demote_all)

  signing-named :
      (id j : String) (e f : KeyEntry P) (m : Dict (KeyEntry P))
      → e.key_id ≡ id
      → ((g : KeyEntry P) → lookup j m ≡ some g → g.key_id ≡ j)
      → (if id == j then some e else demoted_option (lookup j m)) ≡ some f
      → f.key_id ≡ j
  signing-named id j e f m name named h = elim (Option-cases (lookup j m)) [
    | inl missing ↦ ground (arith, eq_iff id j)
    | inr (g, found) ↦ ground (arith, eq_iff id j, named g found)
  ]

  signing-signs :
      (id j : String) (e f : KeyEntry P) (o : Option (KeyEntry P))
      → (if id == j then some e else demoted_option o) ≡ some f
      → f.state ≡ active
      → (id ≡ j) × (e ≡ f)
  signing-signs id j e f none h live = ground (arith, eq_iff id j)
  signing-signs id j e f (some g) h live = ground (arith, eq_iff id j)

  -- A ring after every entry was demoted and one that signs was written.
  pub signing-IsRing :
      (km : KeyManager P) (id : String) (e : KeyEntry P)
      → IsRing km
      → e.key_id ≡ id
      → e.state ≡ active
      → IsRing (record {
        private_key = some e.private_key;
        public_key = some e.public_key;
        key_id = e.key_id;
        keys = insert id e (demote_all km.keys);
      })
  signing-IsRing km id e ring name live = record {
    distinct = insert-Distinct id e _ (demote_all-Distinct km.keys ring.distinct);
    named = λ j f h. signing-named id j e f km.keys name (ring.named j) (rw lookup-signing at h);
    signs = λ j f h a.
        let (same, entry) = signing-signs id j e f (lookup j km.keys) (rw lookup-signing at h) a in
        (
          name ∙ same,
          ap (λ (x : KeyEntry P). some x.private_key) entry,
          ap (λ (x : KeyEntry P). some x.public_key) entry,
        );
    backed = λ p h. (e, rw name (simp (lookup-signing, eq_refl)), live);
  }

  -- A passive entry is written over another passive one, or under a new id.
  pub passive-IsRing :
      (km : KeyManager P) (id : String) (e : KeyEntry P)
      → IsRing km
      → e.key_id ≡ id
      → e.state ≡ passive
      → ((g : KeyEntry P) → lookup id km.keys ≡ some g → g.state ≢ active)
      → IsRing (record km { keys = insert id e km.keys })
  passive-IsRing km id e ring name idle safe = record {
    distinct = insert-Distinct id e _ ring.distinct;
    named = λ j f h. ground (arith, lookup-insert id j e km.keys, eq_iff id j, ring.named j f);
    signs = λ j f h a. ground (arith, lookup-insert id j e km.keys, eq_iff id j, ring.signs j f);
    backed = λ p h.
        let (g, found, live) = ring.backed p h in
        (
          g,
          ground (arith, lookup-insert id km.key_id e km.keys, eq_iff id km.key_id, safe g),
          live,
        );
  }

  -- The ACTIVE entry is demoted, and nothing signs.
  pub silent-IsRing :
      (km : KeyManager P) (id : String) (e : KeyEntry P)
      → IsRing km
      → lookup id km.keys ≡ some e
      → e.state ≡ active
      → IsRing (record {
        private_key = none;
        public_key = none;
        key_id = "";
        keys = insert id (record e { state = passive }) km.keys;
      })
  silent-IsRing km id e ring found live = record {
    distinct = insert-Distinct id _ _ ring.distinct;
    named = λ j f h. ground (
      arith,
      lookup-insert id j (record e { state = passive }) km.keys,
      eq_iff id j,
      ring.named j f,
      ring.named id e found,
    );
    signs = λ j f h a. absurd (
        ground (
          arith,
          lookup-insert id j (record e { state = passive }) km.keys,
          eq_iff id j,
          ring.signs j f,
          ring.signs id e found live,
        ));
    backed = λ p h. cc;
  }

  pub removed-IsRing :
      (km : KeyManager P) (id : String) (e : KeyEntry P)
      → IsRing km
      → lookup id km.keys ≡ some e
      → e.state ≢ active
      → IsRing (record km { keys = remove id km.keys })
  removed-IsRing km id e ring found idle = record {
    distinct = remove-Distinct id km.keys ring.distinct;
    named = λ j f h. ground (arith, lookup-remove id j km.keys, ring.named j f);
    signs = λ j f h a. ground (arith, lookup-remove id j km.keys, ring.signs j f);
    backed = λ p h.
        let (g, kept, live) = ring.backed p h in
        (g, ground (arith, lookup-remove id km.key_id km.keys, eq_iff id km.key_id), live);
  }
