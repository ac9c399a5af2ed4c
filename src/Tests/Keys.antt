-- ===== src/Tests/Keys.antt =====
-- Key rings.
use identra.Common.{
  String, ◌≡◌, ◌≢◌, refl, ◌↔◌, inl, inr, none, some, List, [], ◌∷◌, ℕ, zero, suc, lookup, insert,
  remove, sort_strings, insert_sorted, Any, arith,
}
use mathlib.Core.Path.{subst}
use identra.Common.Exec.{ok, ◌>>=◌}
use identra.Security.Keys.{
  KeyState, active, passive, retired, Crypto, KeyEntry, KeyManager, empty, promote_key, retire_key,
  add_key_passive, generate_key_pair, generate_key_id, install,
}
use identra.Security.Keys.Ring.{IsRing}
use identra.Security.Keys.Commands.{
  Command, generate, add_passive, promote, apply, apply_all, AreAdmissible, apply_all-IsRing,
}
use identra.Security.Keys.Published.{list_signing_keys, list_signing_keys_iff}
use identra.Security.Keys.Rotation.{
  Published, keys_of, promote_key_lem, rotation_keeps_Published, retire_key_lem,
}

-- Keys are numbers, and the id of a key is `k1`, or `k2` for all others.
abbrev crypto : Crypto ℕ
crypto = record {
  public_of = λ p. record { modulus = p ∷ []; exponent = 65537 };
  pem_decode = λ pem. none;
  parse_pkcs1 = λ bytes. none;
  parse_pkcs8 = λ bytes. none;
  marshal_pkcs1 = λ p. p ∷ [];
  marshal_pkix = λ public. some [];
  pem_encode = λ kind bytes. kind;
  digest_text = λ bytes. elim bytes [ [] ↦ "k0" | n ∷ ns ↦ if_one n ];
}
  where
    if_one : ℕ → String
    if_one zero = "k0"
    if_one (suc zero) = "k1"
    if_one (suc (suc n)) = "k2"

-- A first key is generated, and a second one is added.
abbrev two_keys : List (Command ℕ)
two_keys = generate (some 1) ∷ add_passive (some 2) ∷ []

abbrev entry : ℕ → String → KeyState → KeyEntry ℕ
entry p id state = record {
  private_key = p;
  public_key = crypto.public_of p;
  key_id = id;
  state = state;
}

abbrev ring : KeyManager ℕ
ring = record {
  private_key = some 1;
  public_key = some (crypto.public_of 1);
  key_id = "k1";
  keys = ("k2", entry 2 "k2" passive) ∷ ("k1", entry 1 "k1" active) ∷ [];
}

two_keys_admissible : AreAdmissible crypto two_keys empty
unfolding apply add_key_passive generate_key_pair generate_key_id install insert lookup remove
two_keys_admissible = (tt, (λ e h live. absurd (ground arith), tt))

two_keys-ring : apply_all crypto two_keys empty ≡ ring
unfolding apply_all apply add_key_passive generate_key_pair generate_key_id install insert lookup
    remove
two_keys-ring = refl

apply_all-IsRing_example : IsRing (apply_all crypto two_keys empty)
apply_all-IsRing_example = apply_all-IsRing crypto two_keys two_keys_admissible

ring-IsRing : IsRing ring
ring-IsRing = subst IsRing two_keys-ring (apply_all-IsRing crypto two_keys two_keys_admissible)

promoted : (promote_key "k2" ring).0 ≡ ok tt
unfolding promote_key ◌>>=◌ lookup insert remove
promoted = refl

promote_key_lem_example :
    ((promote_key "k2" ring).1.key_id ≡ "k2")
    × ((e : KeyEntry ℕ) × (lookup "k2" ring.keys ≡ some e)
        × ((promote_key "k2" ring).1.private_key ≡ some e.private_key)
        × ((promote_key "k2" ring).1.public_key ≡ some e.public_key))
    × ((j : String) (f : KeyEntry ℕ)
        → lookup j (promote_key "k2" ring).1.keys ≡ some f
        → (f.state ≡ active) ↔ (j ≡ "k2"))
    × ((j : String)
        → keys_of (lookup j (promote_key "k2" ring).1.keys) ≡ keys_of (lookup j ring.keys))
promote_key_lem_example = promote_key_lem "k2" ring ring-IsRing promoted

k1-Published : Published crypto "k1" ring
unfolding list_signing_keys lookup sort_strings insert_sorted
k1-Published = inl refl

-- The second key is promoted, and the first one demoted with it.
rotation_keeps_Published_example : Published crypto "k1" (apply_all crypto (promote "k2" ∷ []) ring)
rotation_keeps_Published_example =
    rotation_keeps_Published crypto (promote "k2" ∷ []) ring "k1" ring-IsRing (tt, tt)
      (λ h. elim h [ inl x ↦ x | inr y ↦ y ]) k1-Published

retired_k2 : (retire_key "k2" ring).0 ≡ ok tt
unfolding retire_key ◌>>=◌ lookup remove
retired_k2 = refl

retire_key_lem_example :
    (¬ Any (λ k. k.key_id ≡ "k2") (list_signing_keys (retire_key "k2" ring).1))
    × ((retire_key "k2" ring).1.private_key ≡ ring.private_key)
    × ((p : ℕ) → ring.private_key ≡ some p → ring.key_id ≢ "k2")
retire_key_lem_example = retire_key_lem "k2" ring ring-IsRing retired_k2

list_signing_keys_iff_example : Any (λ k. k.key_id ≡ "k1") (list_signing_keys ring) ↔ (
    (id : String) × (e : KeyEntry ℕ) × (lookup id ring.keys ≡ some e)
    × (e.state ≢ retired)
    × (id ≡ "k1"))
list_signing_keys_iff_example = list_signing_keys_iff (λ k. k.key_id ≡ "k1") ring ring-IsRing
