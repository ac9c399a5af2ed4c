-- ===== src/Security/Passwords.antt =====
-- internal/security/password.go: the text that a password is stored as, and its verification.
pub mod RoundTrip
use Prim.Native.String
use identra.Common.{
  ℕ, String, ◌==◌, Bool, true, false, not, Option, none, some, List, [], ◌∷◌, eqb, ◌&&◌,
  if◌then◌else◌, ◌+◌, ◌%◌,
}
use identra.Common.Exec.{Result, ok, err, Exec, Action}
use identra.Text.{split}
use identra.Text.Base64.{encode_base64, decode_base64}
use identra.Text.Decimal.{itoa}
use identra.Text.Scan.{after_literal, scan_signed, scan_unsigned}

pub record Config : Type 0 where
  pub time : ℕ
  pub memory : ℕ
  pub threads : ℕ
  pub key_len : ℕ

abbrev pub default_config : Config
default_config = record { time = 1; memory = 65536; threads = 4; key_len = 32 }

pub data PasswordError : Type 0 where
  no_salt invalid_format unsupported_algorithm unreadable_version unreadable_parameters :
      PasswordError
  undecodable_salt undecodable_hash : PasswordError
  -- a panic of argon2.IDKey, which the code lets through
  panicked : PasswordError

-- golang.org/x/crypto/argon2: `id_key` takes the password, the salt, the time, the memory, the
-- threads and the length of the key; `none` where it panics.
pub record Argon : Type 0 where
  pub version : ℕ
  pub id_key : String → List ℕ → ℕ → ℕ → ℕ → ℕ → Option (List ℕ)

-- 2 ^ 32 and 2 ^ 8
abbrev pub uint32_modulus : ℕ
uint32_modulus = 4294967296

abbrev pub uint8_modulus : ℕ
uint8_modulus = 256

abbrev pub count : List ℕ → ℕ
count [] = 0
count (n ∷ ns) = 1 + count ns

-- subtle.ConstantTimeCompare(x, y) == 1
abbrev pub same_bytes : List ℕ → List ℕ → Bool
same_bytes [] [] = true
same_bytes (m ∷ ms) (n ∷ ns) = eqb m n && same_bytes ms ns
same_bytes _ _ = false

-- `x`, a `$`, and the rest
abbrev pub dollar : String → String → String
dollar x rest = String.◌++◌ x (String.◌++◌ "$" rest)

abbrev pub version_text : ℕ → String
version_text version = String.◌++◌ "v=" (itoa version)

abbrev pub parameters_text : Config → String
parameters_text config = String.◌++◌ "m=" (
    String.◌++◌ (itoa config.memory) (
      String.◌++◌ ",t=" (String.◌++◌ (itoa config.time) (String.◌++◌ ",p=" (itoa config.threads)))))

-- fmt.Sprintf with "$argon2id$v=%d$m=%d,t=%d,p=%d$%s$%s"
unfoldable pub hash_text : ℕ → Config → String → String → String
hash_text version config salt hash = dollar "" (
    dollar "argon2id"
      (dollar (version_text version) (dollar (parameters_text config) (dollar salt hash))))

abbrev and_then : {A B : Type 0} → Option A → (A → Option B) → Option B
and_then none f = none
and_then (some a) f = f a

-- fmt.Sscanf with "v=%d"
unfoldable pub scan_version : String → Option ℕ
scan_version s =
    and_then (after_literal "v=" s) λ t. and_then (scan_signed t) λ (version, rest). some version

abbrev scan_field : String → ℕ → String → Option (ℕ × String)
scan_field literal limit s = and_then (after_literal literal s) (scan_unsigned limit)

-- fmt.Sscanf with "m=%d,t=%d,p=%d", as memory, time and threads
unfoldable pub scan_parameters : String → Option (ℕ × ℕ × ℕ)
scan_parameters s = and_then (scan_field "m=" uint32_modulus s) λ (memory, s1).
    and_then (scan_field ",t=" uint32_modulus s1) λ (time, s2).
      and_then (scan_field ",p=" uint8_modulus s2) λ (threads, s3). some (memory, time, threads)

-- A call whose failure the code returns.
abbrev attempt :
    {A B : Type 0}
    → PasswordError
    → Option A
    → (A → Result PasswordError B)
    → Result PasswordError B
attempt e none f = err e
attempt e (some a) f = f a

module _ (argon : Argon) where
  unfoldable pub verify_parts : String → List String → Result PasswordError Bool
  verify_parts password (p0 ∷ p1 ∷ p2 ∷ p3 ∷ p4 ∷ p5 ∷ []) =
      if not (p1 == "argon2id")
      then err unsupported_algorithm
      else attempt unreadable_version (scan_version p2) λ version.
        attempt unreadable_parameters (scan_parameters p3) λ (memory, time, threads).
          attempt undecodable_salt (decode_base64 p4) λ salt.
            attempt undecodable_hash (decode_base64 p5) λ expected.
              attempt panicked
                (argon.id_key password salt time memory threads (count expected % uint32_modulus))
                λ actual. ok (same_bytes actual expected)
  verify_parts password _ = err invalid_format

  unfoldable pub verify_password : String → String → Result PasswordError Bool
  verify_password password hash = verify_parts password (split b'$' hash)

module _ {W : Type 0} (argon : Argon) (read_random : ℕ → Action W (Option (List ℕ))) where
  abbrev hash_with : Config → String → List ℕ → Result PasswordError String
  hash_with config password salt =
      attempt panicked
        (argon.id_key password salt config.time config.memory config.threads config.key_len)
        λ hash. ok (hash_text argon.version config (encode_base64 salt) (encode_base64 hash))

  unfoldable pub hash_password : String → Exec W PasswordError String
  hash_password password w =
      let (salt, w') = read_random 16 w in
      (attempt no_salt salt (hash_with default_config password), w')
