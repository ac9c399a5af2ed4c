-- ===== src/Security/Passwords/RoundTrip.antt =====
-- A password is verified against the text that it was stored as.
use Prim.Native.Char.{char}
use Prim.Native.String.append
use Prim.Native.String
use identra.Common.{
  ℕ, String, ◌≡◌, refl, ap, ◌∙◌, sym, ◌↔◌, Bool, true, ◌&&◌, eqb, Option, none, some, List, [], ◌∷◌,
  ◌%◌, ◌<◌, ◌≤◌, arith,
}
use identra.Common.Exec.{Result, ok, Action}
use identra.Text.{split}
use identra.Text.Split.{lacks, lacks_append, split-lacks, split_append}
use identra.Text.Base64.{encode_base64, Below, decode_base64-encode_base64, encode_base64-lacks}
use identra.Text.Decimal.{itoa, digits_before, int64_limit}
use identra.Text.Decimal.RoundTrip.{itoa_digits}
use identra.Text.Scan.{
  after_literal, scan_signed, scan_unsigned, scan_number, take_digits, skip_space,
  after_literal_append, scan_signed_value, lacks_value,
}
use identra.Security.Passwords.{
  Argon, PasswordError, panicked, default_config, uint32_modulus, count, same_bytes, dollar,
  version_text, parameters_text, hash_text, and_then, attempt, scan_version, scan_parameters,
  verify_parts, verify_password, hash_password,
}

-- What argon2 documents: a version that fits an int, and a key of the length asked for, unless the
-- time or the threads are 0.
pub record ArgonLaws (argon : Argon) : Type 0 where
  pub version_fits : argon.version < int64_limit
  pub answers :
      (password : String) (salt : List ℕ) (time memory threads len : ℕ)
      → 1 ≤ time
      → 1 ≤ threads
      → (key : List ℕ) × (argon.id_key password salt time memory threads len ≡ some key)
        × Below 256 key
        × (count key ≡ len)

dollar_cons : (x rest : String) → dollar x rest ≡ String.◌++◌ x (String.◌∷◌ (char 36 tt) rest)
dollar_cons x rest =
    ap (String.◌++◌ x)
      (append.cons (char 36 tt) "" rest ∙ ap (String.◌∷◌ (char 36 tt)) (append.nil rest))

split-dollar : (x rest : String) → lacks 36 x ≡ true → split 36 (dollar x rest) ≡ x ∷ split 36 rest
split-dollar x rest h = ap (split 36) (dollar_cons x rest) ∙ split_append (char 36 tt) x rest h

version_text-lacks : (n : ℕ) → n < int64_limit → lacks 36 (version_text n) ≡ true
version_text-lacks n h =
    let (_, value) = itoa_digits n h in
    lacks_append 36 "v=" (itoa n) (unfold lacks in refl)
      (lacks_value 36 0 n (itoa n) (omega arith) value)

scan_version_text : (n : ℕ) → n < int64_limit → scan_version (version_text n) ≡ some n
unfolding scan_version
scan_version_text n h =
    let (some_text, value) = itoa_digits n h in
    ap (λ o. and_then o λ t. and_then (scan_signed t) λ (version, rest). some version)
      (after_literal_append "v=" (itoa n))
    ∙ ap (λ o. and_then o λ (version, rest). some version)
        (scan_signed_value n (itoa n) some_text value h)

parameters_lack : lacks 36 (parameters_text default_config) ≡ true
unfolding lacks itoa digits_before
parameters_lack = refl

scan_default : scan_parameters (parameters_text default_config) ≡ some (65536, 1, 4)
unfolding scan_parameters scan_unsigned scan_number take_digits skip_space after_literal itoa
    digits_before
scan_default = refl

split-hash_text :
    (version : ℕ) (salt hash : String)
    → version < int64_limit
    → lacks 36 salt ≡ true
    → lacks 36 hash ≡ true
    → split 36 (hash_text version default_config salt hash)
      ≡ "" ∷ "argon2id" ∷ version_text version ∷ parameters_text default_config ∷ salt ∷ hash ∷ []
unfolding hash_text
split-hash_text version salt hash fits no_dollar no_dollar2 =
    split-dollar "" _ (unfold lacks in refl)
    ∙ ap (λ l. "" ∷ l)
        (split-dollar "argon2id" _ (unfold lacks in refl)
          ∙ ap (λ l. "argon2id" ∷ l)
              (split-dollar (version_text version) _ (version_text-lacks version fits)
                ∙ ap (λ l. version_text version ∷ l)
                    (split-dollar (parameters_text default_config) _ parameters_lack
                      ∙ ap (λ l. parameters_text default_config ∷ l)
                          (split-dollar salt hash no_dollar
                            ∙ ap (λ l. salt ∷ l) (split-lacks 36 hash no_dollar2)))))

attempt-some :
    {A B : Type 0} (e : PasswordError) {o : Option A} {a : A} (f : A → Result PasswordError B)
    → o ≡ some a
    → attempt e o f ≡ f a
attempt-some e f h = ap (λ o. attempt e o f) h

same_bytes_refl : (k : List ℕ) → same_bytes k k ≡ true
same_bytes_refl [] = refl
same_bytes_refl (n ∷ k) = ground (arith, same_bytes_refl k)

cons_eq : {m n : ℕ} {ms ns : List ℕ} → m ≡ n → ms ≡ ns → (m ∷ ms) ≡ (n ∷ ns)
cons_eq p q i = p i ∷ q i

and_true : (a b : Bool) → (a && b) ≡ true → (a ≡ true) × (b ≡ true)
and_true a b h = (ground arith, ground arith)

eqb-true : (m n : ℕ) → eqb m n ≡ true → m ≡ n
eqb-true m n h = ground arith

same_bytes_eq : (k l : List ℕ) → same_bytes k l ≡ true → k ≡ l
same_bytes_eq [] [] h = refl
same_bytes_eq [] (n ∷ l) h = absurd (ground arith)
same_bytes_eq (m ∷ k) [] h = absurd (ground arith)
same_bytes_eq (m ∷ k) (n ∷ l) h =
    let (first, more) = and_true (eqb m n) (same_bytes k l) h in
    cons_eq (eqb-true m n first) (same_bytes_eq k l more)

abbrev compared : List ℕ → Option (List ℕ) → Result PasswordError Bool
compared key o = attempt panicked o λ actual. ok (same_bytes actual key)

-- The keys are compared as equal exactly when they are.
compared_iff : (key : List ℕ) (o : Option (List ℕ)) → (compared key o ≡ ok true) ↔ (o ≡ some key)
compared_iff key none = (λ h. absurd (ground arith), λ h. absurd (ground arith))
compared_iff key (some k) = (
  λ h. ap some (same_bytes_eq k key (ground arith)),
  λ h. ap (compared key) h ∙ ap ok (same_bytes_refl key),
)

module _ (argon : Argon) (laws : ArgonLaws argon) where
  -- What a verification does with a text of the default parameters.
  verify_hash_text :
      (q : String) (salt key : List ℕ)
      → Below 256 salt
      → Below 256 key
      → count key ≡ 32
      → verify_password argon q
          (hash_text argon.version default_config (encode_base64 salt) (encode_base64 key))
        ≡ compared key (argon.id_key q salt 1 65536 4 32)
  unfolding verify_password verify_parts
  verify_hash_text q salt key hs hk len =
      ap (verify_parts argon q) (
        split-hash_text argon.version (encode_base64 salt) (encode_base64 key) laws.version_fits
          (encode_base64-lacks salt hs) (encode_base64-lacks key hk))
      ∙ attempt-some _ _ (scan_version_text argon.version laws.version_fits)
      ∙ attempt-some _ _ scan_default
      ∙ attempt-some _ _ (decode_base64-encode_base64 salt hs)
      ∙ attempt-some _ _ (decode_base64-encode_base64 key hk)
      ∙ ap (λ n. compared key (argon.id_key q salt 1 65536 4 n)) (ap (λ n. n % uint32_modulus) len)

  accepts_iff :
      (q : String) (salt key : List ℕ)
      → Below 256 salt
      → Below 256 key
      → count key ≡ 32
      → (verify_password argon q
            (hash_text argon.version default_config (encode_base64 salt) (encode_base64 key))
          ≡ ok true)
        ↔ (argon.id_key q salt 1 65536 4 32 ≡ some key)
  accepts_iff q salt key hs hk len =
      let is = verify_hash_text q salt key hs hk len in
      let (to, from) = compared_iff key (argon.id_key q salt 1 65536 4 32) in
      (λ h. to (sym is ∙ h), λ h. is ∙ from h)

  module _ {W : Type 0} (read_random : ℕ → Action W (Option (List ℕ))) where
    -- For an argon2 as documented, and sixteen random bytes of salt: HashPassword returns a text, and
    -- VerifyPassword accepts with that text exactly the passwords of which argon2 makes, with the same
    -- salt, the key of the password that was hashed. So it accepts that password.
    pub verify_password-hash_password :
        (password : String) (w w' : W) (salt : List ℕ)
        → read_random 16 w ≡ (some salt, w')
        → Below 256 salt
        → (hash : String) × (hash_password argon read_random password w ≡ (ok hash, w'))
          × (verify_password argon password hash ≡ ok true)
          × ((q : String)
              → (verify_password argon q hash ≡ ok true)
                ↔ (argon.id_key q salt 1 65536 4 32 ≡ argon.id_key password salt 1 65536 4 32))
    unfolding hash_password
    verify_password-hash_password password w w' salt drawn bytes =
        let (key, made, below, len) =
          laws.answers password salt 1 65536 4 32 (omega arith) (omega arith) in
        (
          hash_text argon.version default_config (encode_base64 salt) (encode_base64 key),
          rw drawn (rw made refl),
          (accepts_iff password salt key bytes below len).1 made,
          λ q.
              let (to, from) = accepts_iff q salt key bytes below len in
              (λ h. to h ∙ sym made, λ h. from (h ∙ made)),
        )
