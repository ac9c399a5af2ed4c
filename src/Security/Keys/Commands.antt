-- ===== src/Security/Keys/Commands.antt =====
-- Any sequence of calls on a manager that starts empty, as `buildTokenKeys` makes it.
use identra.Common.{String, inl, inr, Option, none, some, List, [], ◌∷◌}
use identra.Security.Keys.{
  Crypto, KeyManager, empty, promote_key, demote_key, retire_key, initialize_from_pem,
  generate_key_pair, add_key_passive,
}
use identra.Security.Keys.Ring.{IsRing, empty-IsRing}
use identra.Security.Keys.Methods.{
  IsFresh, install-IsRing, initialize_from_pem_cases, add_key_passive-IsRing, promote_key-IsRing,
  demote_key-IsRing, retire_key-IsRing,
}

-- A call of a method, with the key that is drawn where one is.
pub data Command (P : Type 0) : Type 0 where
  initialize : String → Command P
  generate add_passive : Option P → Command P
  promote demote retire : String → Command P

module _ {P : Type 0} (crypto : Crypto P) where
  unfoldable pub apply : Command P → KeyManager P → KeyManager P
  apply (initialize pem) km = (initialize_from_pem crypto pem km).1
  apply (generate drawn) km = (generate_key_pair crypto drawn km).1
  apply (add_passive drawn) km = (add_key_passive crypto drawn km).1
  apply (promote id) km = (promote_key id km).1
  apply (demote id) km = (demote_key id km).1
  apply (retire id) km = (retire_key id km).1

  unfoldable pub apply_all : List (Command P) → KeyManager P → KeyManager P
  apply_all [] km = km
  apply_all (c ∷ cs) km = apply_all cs (apply c km)

  -- A key that `AddKeyPassive` draws does not have the id of the ACTIVE key.
  abbrev pub IsAdmissible : Command P → KeyManager P → Type 0
  IsAdmissible (add_passive (some p)) km = IsFresh crypto p km
  IsAdmissible _ km = Unit

  abbrev pub AreAdmissible : List (Command P) → KeyManager P → Type 0
  AreAdmissible [] km = Unit
  AreAdmissible (c ∷ cs) km = IsAdmissible c km × AreAdmissible cs (apply c km)

  pub apply-IsRing :
      (c : Command P) (km : KeyManager P) → IsRing km → IsAdmissible c km → IsRing (apply c km)
  unfolding apply
  apply-IsRing (initialize pem) km ring h = elim (initialize_from_pem_cases crypto pem km) [
    | inl (x, same) ↦ rw (same, apply) ring
    | inr (p, done) ↦ rw (done, apply) (install-IsRing crypto p km ring)
  ]
  apply-IsRing (generate none) km ring h = unfold generate_key_pair in ring
  apply-IsRing (generate (some p)) km ring h =
      unfold generate_key_pair in install-IsRing crypto p km ring
  apply-IsRing (add_passive none) km ring h = unfold add_key_passive in ring
  apply-IsRing (add_passive (some p)) km ring h = add_key_passive-IsRing crypto p km ring h
  apply-IsRing (promote id) km ring h = promote_key-IsRing id km ring
  apply-IsRing (demote id) km ring h = demote_key-IsRing id km ring
  apply-IsRing (retire id) km ring h = retire_key-IsRing id km ring

  apply_all_from :
      (cs : List (Command P)) (km : KeyManager P)
      → IsRing km
      → AreAdmissible cs km
      → IsRing (apply_all cs km)
  unfolding apply_all
  apply_all_from [] km ring h = ring
  apply_all_from (c ∷ cs) km ring (now, later) =
      apply_all_from cs (apply c km) (apply-IsRing c km ring now) later

  -- After any sequence of calls on an empty manager, failing ones included, in which no key that is
  -- added as PASSIVE has the id of the ACTIVE one, the ids in the ring are distinct, every entry
  -- stands under its own id, an entry that is ACTIVE is the one that the signing fields hold, and
  -- signing fields that hold a key are those of an ACTIVE entry. So at most one key is ACTIVE.
  pub apply_all-IsRing :
      (cs : List (Command P)) → AreAdmissible cs empty → IsRing (apply_all cs empty)
  apply_all-IsRing cs h = apply_all_from cs empty empty-IsRing h
