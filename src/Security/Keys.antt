-- ===== src/Security/Keys.antt =====
-- internal/security/jwks.go: the ring of signing keys. Every method holds the manager's lock from
-- its first line to its last, so a method is one step on the manager.
pub mod Ring
pub mod Methods
pub mod Commands
pub mod Listing
pub mod Published
pub mod Rotation
use identra.Common.{
  ℕ, String, ◌==◌, Bool, true, false, not, ◌||◌, Option, none, some, List, [], ◌∷◌, Dict, lookup,
  insert, remove, map, if◌then◌else◌,
}
use identra.Common.Exec.{Result, ok, err, Exec, pure, raise, ◌>>=◌, ◌>>◌, refuse_if}

pub data KeyState : Type 0 where
  active passive retired : KeyState

-- rsa.PublicKey
pub record PublicKey : Type 0 where
  pub modulus : List ℕ
  pub exponent : ℕ

-- What the manager uses of crypto/rsa, crypto/x509, encoding/pem, crypto/sha256 and
-- encoding/base64, for private keys `P`.
pub record Crypto (P : Type 0) : Type 0 where
  pub public_of : P → PublicKey
  -- the block's type and its bytes
  pub pem_decode : String → Option (String × List ℕ)
  pub parse_pkcs1 : List ℕ → Option P
  -- `some none` is a private key that is not RSA
  pub parse_pkcs8 : List ℕ → Option (Option P)
  pub marshal_pkcs1 : P → List ℕ
  pub marshal_pkix : PublicKey → Option (List ℕ)
  pub pem_encode : String → List ℕ → String
  -- the base64url text of the first eight bytes of the SHA-256 digest
  pub digest_text : List ℕ → String

pub data KeyError : Type 0 where
  pem_undecodable pkcs8_unparsable not_rsa unparsable generation_failed no_private_key : KeyError
  unsupported_block not_found : String → KeyError
  not_passive not_active retire_active : String → KeyError

pub record KeyEntry (P : Type 0) : Type 0 where
  pub private_key : P
  pub public_key : PublicKey
  pub key_id : String
  pub state : KeyState

-- A nil map reads as the empty one, and the methods make the map before they write.
pub record KeyManager (P : Type 0) : Type 0 where
  pub private_key : Option P
  pub public_key : Option PublicKey
  pub key_id : String
  pub keys : Dict (KeyEntry P)

abbrev pub is_active : KeyState → Bool
is_active active = true
is_active _ = false

abbrev pub is_passive : KeyState → Bool
is_passive passive = true
is_passive _ = false

module _ {P : Type 0} where
  abbrev pub empty : KeyManager P
  empty = record { private_key = none; public_key = none; key_id = ""; keys = [] }

  -- one round of the loop that demotes every ACTIVE entry
  abbrev pub demoted : KeyEntry P → KeyEntry P
  demoted e = if is_active e.state then record e { state = passive } else e

  pub demote_all : Dict (KeyEntry P) → Dict (KeyEntry P)
  demote_all [] = []
  demote_all ((k, e) ∷ m) = (k, demoted e) ∷ demote_all m

  abbrev pub entry_of : PublicKey → P → String → KeyState → KeyEntry P
  entry_of public private id state = record {
    private_key = private;
    public_key = public;
    key_id = id;
    state = state;
  }

  abbrev pub found_or : KeyError → Option (KeyEntry P) → Result KeyError (KeyEntry P)
  found_or e none = err e
  found_or e (some entry) = ok entry

  -- entry, exists := km.keys[keyID]
  abbrev pub entry_at : String → Exec (KeyManager P) KeyError (KeyEntry P)
  entry_at id km = (found_or (not_found id) (lookup id km.keys), km)

  unfoldable pub promote_key : String → Exec (KeyManager P) KeyError (Unit {0})
  unfolding ◌>>=◌ demote_all
  promote_key id = do
    entry ← entry_at id
    refuse_if (not (is_passive entry.state)) (not_passive id)
    λ km. (
      ok tt,
      record {
        private_key = some entry.private_key;
        public_key = some entry.public_key;
        key_id = entry.key_id;
        keys = insert id (record entry { state = active }) (demote_all km.keys);
      },
    )

  unfoldable pub demote_key : String → Exec (KeyManager P) KeyError (Unit {0})
  unfolding ◌>>=◌
  demote_key id = do
    entry ← entry_at id
    refuse_if (not (is_active entry.state)) (not_active id)
    λ km.
        let keys = insert id (record entry { state = passive }) km.keys in
        (
          ok tt,
          if km.key_id == id
              then record { private_key = none; public_key = none; key_id = ""; keys = keys }
              else record km { keys = keys },
        )

  unfoldable pub retire_key : String → Exec (KeyManager P) KeyError (Unit {0})
  unfolding ◌>>=◌
  retire_key id = do
    entry ← entry_at id
    refuse_if (is_active entry.state) (retire_active id)
    λ km. (ok tt, record km { keys = remove id km.keys })

  unfoldable pub is_initialized : KeyManager P → Bool
  is_initialized km = elim km.private_key [ none ↦ false | some k ↦ true ]

module _ {P : Type 0} (crypto : Crypto P) where
  unfoldable pub generate_key_id : PublicKey → String
  generate_key_id public = crypto.digest_text public.modulus

  -- the last part of `InitializeFromPEM` and of `GenerateKeyPair`
  unfoldable pub install : P → KeyManager P → KeyManager P
  unfolding demote_all generate_key_id
  install private km =
      let public = crypto.public_of private in
      let id = generate_key_id public in
      record {
        private_key = some private;
        public_key = some public;
        key_id = id;
        keys = insert id (entry_of public private id active) (demote_all km.keys);
      }

  rsa_or_error : Option (Option P) → Result KeyError P
  rsa_or_error none = err pkcs8_unparsable
  rsa_or_error (some none) = err not_rsa
  rsa_or_error (some (some private)) = ok private

  or_unparsable : Option P → Result KeyError P
  or_unparsable none = err unparsable
  or_unparsable (some private) = ok private

  parse_block : Option (String × List ℕ) → Result KeyError P
  unfolding rsa_or_error or_unparsable
  parse_block none = err pem_undecodable
  parse_block (some (kind, bytes)) =
      if kind == "RSA PRIVATE KEY"
      then or_unparsable (crypto.parse_pkcs1 bytes)
      else if kind == "PRIVATE KEY"
      then rsa_or_error (crypto.parse_pkcs8 bytes)
      else err (unsupported_block kind)

  unfoldable pub initialize_from_pem : String → Exec (KeyManager P) KeyError (Unit {0})
  unfolding ◌>>=◌ parse_block install
  initialize_from_pem pem = do
    private ← λ km. (parse_block (crypto.pem_decode pem), km)
    λ km. (ok tt, install private km)

  -- `drawn` is the answer of `rsa.GenerateKey`.
  unfoldable pub generate_key_pair : Option P → Exec (KeyManager P) KeyError (Unit {0})
  unfolding install
  generate_key_pair none = raise generation_failed
  generate_key_pair (some private) = λ km. (ok tt, install private km)

  unfoldable pub add_key_passive : Option P → Exec (KeyManager P) KeyError String
  unfolding generate_key_id
  add_key_passive none = raise generation_failed
  add_key_passive (some private) =
      let public = crypto.public_of private in
      let id = generate_key_id public in
      λ km. (ok id, record km { keys = insert id (entry_of public private id passive) km.keys })

  unfoldable pub export_private_key_pem : KeyManager P → Result KeyError String
  export_private_key_pem km = elim km.private_key [
    | none ↦ err no_private_key
    | some private ↦ ok (crypto.pem_encode "RSA PRIVATE KEY" (crypto.marshal_pkcs1 private))
  ]
