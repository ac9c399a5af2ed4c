-- ===== src/Tests/Passwords.antt =====
-- A password that is stored and verified, over a small key function.
use identra.Common.{
  ℕ, zero, suc, String, ◌==◌, ◌≡◌, refl, ◌↔◌, true, Option, some, List, [], ◌∷◌, ◌<◌, if◌then◌else◌,
  arith,
}
use identra.Common.Exec.{ok}
use identra.Text.Base64.{Below}
use identra.Security.Passwords.{Argon, count, hash_password, verify_password}
use identra.Security.Passwords.RoundTrip.{ArgonLaws, verify_password-hash_password}

abbrev filled : ℕ → ℕ → List ℕ
filled x zero = []
filled x (suc n) = x ∷ filled x n

filled-Below : (x n : ℕ) → x < 256 → Below 256 (filled x n)
filled-Below x zero h = tt
filled-Below x (suc n) h = (h, filled-Below x n h)

count-filled : (x n : ℕ) → count (filled x n) ≡ n
count-filled x zero = refl
count-filled x (suc n) = ground (arith, count-filled x n)

abbrev key_byte : String → ℕ
key_byte password = if password == "pw" then 7 else 8

key_byte_small : (password : String) → key_byte password < 256
key_byte_small password = ground arith

abbrev argon : Argon
argon = record {
  version = 19;
  id_key = λ password salt time memory threads len. some (filled (key_byte password) len);
}

abbrev laws : ArgonLaws argon
laws = record {
  version_fits = omega arith;
  answers = λ password salt time memory threads len h k. (
    filled (key_byte password) len,
    refl,
    filled-Below (key_byte password) len (key_byte_small password),
    count-filled (key_byte password) len,
  );
}

-- The world counts the calls.
abbrev read_random : ℕ → ℕ → Option (List ℕ) × ℕ
read_random n w = (some (filled 5 n), suc w)

verify_password-hash_password_example :
    (hash : String) × (hash_password argon read_random "pw" 0 ≡ (ok hash, 1))
    × (verify_password argon "pw" hash ≡ ok true)
    × ((q : String)
        → (verify_password argon q hash ≡ ok true) ↔ (
            argon.id_key q (filled 5 16) 1 65536 4 32
            ≡ argon.id_key "pw" (filled 5 16) 1 65536 4 32))
verify_password-hash_password_example =
    verify_password-hash_password argon laws read_random "pw" 0 1 (filled 5 16) refl
      (filled-Below 5 16 (omega arith))
